-- ===== src/Observability/Build.antt =====
-- The record of a request: `BuildRequestTelemetry`.
use cachy.Base.{ℕ, false, not, ◌||◌, Option, none, some, List, [], ◌∷◌, if◌then◌else◌, is_nil}
use cachy.Base.Int.{ℤ, pos}
use cachy.Text.{Bytes, codes, equal}
use cachy.Http.{Request}
use cachy.Proxy.Headers.{Header, header_get}
use cachy.Observability.Telemetry.{ErrorKind, RequestTelemetry}

first_header : Header → List Bytes → Bytes
first_header h [] = []
first_header h (name ∷ names) =
    let later = first_header h names in
    if not (is_nil (header_get name h)) then header_get name h else later

provider_from_path : Bytes → Bytes
provider_from_path path =
    if equal path (codes "/v1/messages")
    then codes "anthropic"
    else if equal path (codes "/v1/chat/completions") || equal path (codes "/v1/responses")
    then codes "openai"
    else []

abbrev bare_record : ℕ → ℤ → ℤ → ErrorKind → RequestTelemetry
bare_record status latency started_at error_kind = record {
  request_id = [];
  session_id = [];
  provider = [];
  method = [];
  route = [];
  query_present = false;
  status = status;
  latency = latency;
  error_kind = error_kind;
  input_tokens = pos 0;
  output_tokens = pos 0;
  started_at = started_at;
  prompt_preview = [];
  credential_hint = [];
}

-- `none` is a nil request.
unfoldable pub build_request_telemetry : Option Request → ℕ → ℤ → ℤ → ErrorKind → RequestTelemetry
unfolding first_header provider_from_path
build_request_telemetry none status latency started_at error_kind =
    bare_record status latency started_at error_kind
build_request_telemetry (some r) status latency started_at error_kind =
    record (bare_record status latency started_at error_kind) {
      request_id = first_header r.headers (codes "X-Request-Id" ∷ codes "X-Request-ID" ∷ []);
      session_id = first_header r.headers (codes "X-Cachy-Session-Id" ∷ codes "X-Session-Id" ∷ []);
      provider = provider_from_path r.path;
      method = r.method;
      route = r.path;
      query_present = not (is_nil r.raw_query);
    }
