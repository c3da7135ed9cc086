-- ===== src/Admin/Server.antt =====
-- internal/admin/server.go: the handlers of the admin interface. A body of JSON is the value that is
-- encoded. The decoder of the PUT body and url.Parse are parameters; a path is clean, as ServeMux
-- redirects the others.
pub mod Secrecy
pub mod Kept
use cachy.Base.{
  ◌==◌, Bool, true, false, not, ◌||◌, Option, none, some, List, [], ◌∷◌, if◌then◌else◌, is_nil,
  Result, ok, err,
}
use cachy.Text.{Bytes, codes, equal, trim_right}
use cachy.Text.Ascii.{UnicodeTables}
use cachy.Http.{Request}
use cachy.Tokens.{Error}
use cachy.Platform.{Paths}
use cachy.Observability.Telemetry.{RequestTelemetry, MemoryTelemetryStore, snapshot}
use cachy.Admin.{Net, valid_token, validate_listen_address}
use cachy.Admin.Metrics.{MetricsResponse, Counts, metrics_from_telemetry}

pub record RuntimeConfig : Type 0 where
  pub proxy_listen_address : Bytes
  pub target_base_url : Bytes
  pub provider_credential : Bytes

pub record Server : Type 0 where
  pub version : Bytes
  pub paths : Paths
  pub config : RuntimeConfig
  pub admin : Bytes
  pub token : Bytes
  pub telemetry : Option MemoryTelemetryStore

pub record StatusResponse : Type 0 where
  pub status : Bytes
  pub version : Bytes
  pub listen_address : Bytes
  pub target_configured : Bool
  pub paths : Paths

pub record ConfigResponse : Type 0 where
  pub proxy_listen_address : Bytes
  pub target_base_url : Bytes
  pub provider_credential : Bytes

pub record DiagnosticsResponse : Type 0 where
  pub health : Bytes
  pub paths : Paths
  pub proxy_listen_address : Bytes
  pub admin_listen_address : Bytes
  pub failure_categories : Counts

-- The replies, by their status: 401, 404, 405, 400 with its text, and 200 with its value.
pub data Reply : Type 0 where
  unauthorized not_found method_not_allowed : Reply
  bad_request : Bytes → Reply
  status_ok : StatusResponse → Reply
  config_ok : ConfigResponse → Reply
  metrics_ok : MetricsResponse → Reply
  diagnostics_ok : DiagnosticsResponse → Reply

abbrev redacted : Bytes
redacted = codes "<redacted>"

pub redacted_config_response : RuntimeConfig → ConfigResponse
redacted_config_response config = record {
  proxy_listen_address = config.proxy_listen_address;
  target_base_url = config.target_base_url;
  provider_credential = if is_nil config.provider_credential then [] else redacted;
}

unfoldable pub telemetry_snapshot : Option MemoryTelemetryStore → List RequestTelemetry
telemetry_snapshot none = []
telemetry_snapshot (some store) = snapshot store

abbrev only_get : Request → Reply → Reply
only_get r reply = if equal r.method (codes "GET") then reply else method_not_allowed

pub handle_metrics : Server → Request → Reply
handle_metrics s r =
    only_get r (metrics_ok (metrics_from_telemetry (telemetry_snapshot s.telemetry)))

pub handle_diagnostics : Server → Request → Reply
handle_diagnostics s r = only_get r (
    diagnostics_ok (record {
      health = codes "ok";
      paths = s.paths;
      proxy_listen_address = s.config.proxy_listen_address;
      admin_listen_address = s.admin;
      failure_categories =
          (metrics_from_telemetry (telemetry_snapshot s.telemetry)).failure_categories;
    }))

pub handle_status : Server → Request → Reply
handle_status s r = only_get r (
    status_ok (record {
      status = codes "ok";
      version = s.version;
      listen_address = s.config.proxy_listen_address;
      target_configured = not (is_nil s.config.target_base_url);
      paths = s.paths;
    }))

-- `decode` gives target_base_url, or the decoder's error; `parse_url` the scheme and the host.
module _ (decode : Bytes → Option Bytes) (parse_url : Bytes → Option (Bytes × Bytes)) where
  unfoldable pub has_scheme_and_host : Option (Bytes × Bytes) → Bool
  has_scheme_and_host none = false
  has_scheme_and_host (some (scheme, host)) = not (is_nil scheme || is_nil host)

  -- Whether there is no error.
  unfoldable pub validate_target_base_url : Bytes → Bool
  validate_target_base_url raw = if is_nil raw then false else has_scheme_and_host (parse_url raw)

  pub set_target : Server → Bytes → Server
  set_target s url = record s { config = record s.config { target_base_url = url } }

  pub put_config : Server → Option Bytes → Server × Reply
  put_config s none = (s, bad_request (codes "invalid config\n"))
  put_config s (some raw) =
      let url = trim_right (λ c. c == b'/') raw in
      if not (validate_target_base_url url)
      then (s, bad_request (codes "invalid target_base_url\n"))
      else (set_target s url, config_ok (redacted_config_response (set_target s url).config))

  pub handle_config : Server → Request → Server × Reply
  handle_config s r =
      if equal r.method (codes "GET")
      then (s, config_ok (redacted_config_response s.config))
      else if equal r.method (codes "PUT")
      then put_config s (decode r.body)
      else (s, method_not_allowed)

  pub dispatch : Server → Request → Server × Reply
  dispatch s r =
      if equal r.path (codes "/admin/v1/status")
      then (s, handle_status s r)
      else if equal r.path (codes "/admin/v1/config")
      then handle_config s r
      else if equal r.path (codes "/admin/v1/metrics")
      then (s, handle_metrics s r)
      else if equal r.path (codes "/admin/v1/diagnostics")
      then (s, handle_diagnostics s r)
      else (s, not_found)

  module _ (sha256 : Bytes → Bytes) (u : UnicodeTables) where
    -- The handler that `New` returns: `requireToken` around the mux.
    pub serve : Server → Request → Server × Reply
    serve s r = if not (valid_token sha256 u r s.token) then (s, unauthorized) else dispatch s r

    pub serve_all : Server → List Request → Server × List Reply
    serve_all s [] = (s, [])
    serve_all s (r ∷ rs) =
        let (s1, reply) = serve s r in let (s2, replies) = serve_all s1 rs in (s2, reply ∷ replies)

  unfoldable pub start : Option Error → Server → Result Error Server
  start (some e) s = err e
  start none s = if is_nil s.token then err (codes "admin token is required") else ok s

  -- The server that `NewServer` sets up from its configuration.
  unfoldable pub new_server : UnicodeTables → Net → Server → Result Error Server
  new_server u net s =
      if not (validate_target_base_url s.config.target_base_url)
      then err (codes "target base URL is required, with scheme and host")
      else start (validate_listen_address u net s.admin) s
