-- ===== src/Admin/Tests.antt =====
-- Runs of the admin interface.
use cachy.Proxy.Headers.{canonical_from, is_token_byte, canonical_key, values}
use cachy.Observability.Logging.{negated}
use cachy.Text.Space.{fields}
use cachy.Proxy.Headers.{header_get}
use cachy.Base.{
  length, zero, suc, ◌++◌, Result, take, ℕ, ◌≡◌, ◌↔◌, refl, false, true, Option, none, some, List,
  [], ◌∷◌, keep, ok,
}
use cachy.Base.Int.{pos, negsuc}
use cachy.Text.{equal, Bytes, codes}
use cachy.Text.Ascii.{lower_byte, upper_byte, equal_fold, plain_tables}
use cachy.Http.{Request}
use cachy.Observability.Telemetry.{RequestTelemetry, kind_none, proxy_error}
use cachy.Admin.{
  token_header, Error, bearer_token, bearer_field, local_host, validate_listen_address, Net,
  valid_token,
}
use cachy.Admin.Token.{Carries, valid_token-Carries}
use cachy.Admin.Generated.Accepted.{valid_token-generate_token}
use cachy.Admin.Generated.{generate_token, encode_raw_url, digit}
use cachy.Admin.Metrics.{divide}
use cachy.Admin.Server.{
  set_target, validate_target_base_url, has_scheme_and_host, telemetry_snapshot, start, Server,
  serve_all, new_server,
}
use cachy.Admin.Server.Secrecy.{with_credential, serve_all-secret}
use cachy.Admin.Server.Kept.{valid_target, serve_all-valid_target, serve_all-authorized}

-- Stands for SHA-256: no two texts collide.
abbrev own_digest : Bytes → Bytes
own_digest text = text

abbrev whole_body : Bytes → Option Bytes
whole_body body = some body

-- Every address has the scheme https and is its own host.
abbrev https_host : Bytes → Option (Bytes × Bytes)
https_host raw = some (codes "https", raw)

abbrev server : Server
server = record {
  version = codes "1.0.0";
  paths = record { config_dir = codes "/c"; state_dir = codes "/s"; cache_dir = codes "/k" };
  config = record {
    proxy_listen_address = codes "127.0.0.1:8787";
    target_base_url = codes "https://api.openai.com";
    provider_credential = codes "key";
  };
  admin = codes "127.0.0.1:8788";
  token = codes "secret";
  telemetry = none;
}

abbrev get_config : Request
get_config = record {
  method = codes "GET";
  path = codes "/admin/v1/config";
  raw_query = [];
  headers = (codes "Authorization", codes "Bearer secret" ∷ []) ∷ [];
  body = [];
}

abbrev put_request : Request
put_request = record get_config { method = codes "PUT"; body = codes "https://example.org/" }

abbrev no_token : Request
no_token = record put_request { headers = [] }

abbrev requests : List Request
requests = no_token ∷ put_request ∷ get_config ∷ []

abbrev net : Net
net = record {
  split_host_port = λ address. some (codes "localhost");
  is_loopback_ip = λ host. false;
}

new_server_run : new_server whole_body https_host plain_tables net server ≡ ok server
unfolding new_server validate_target_base_url has_scheme_and_host start validate_listen_address
    local_host equal_fold
new_server_run = refl

abbrev replicate : ℕ → ℕ → Bytes
replicate zero b = []
replicate (suc n) b = b ∷ replicate n b

-- A digest of 32 bytes.
abbrev short_digest : Bytes → Bytes
short_digest text = take 32 (text ++ replicate 32 0)

own_apart :
    short_digest (header_get token_header get_config.headers) ≡ short_digest (codes "secret")
    → header_get token_header get_config.headers ≡ codes "secret"
unfolding header_get values equal canonical_key is_token_byte canonical_from upper_byte
own_apart same = cc same

bearer_apart :
    short_digest (bearer_token plain_tables (header_get (codes "Authorization") get_config.headers))
      ≡ short_digest (codes "secret")
    → bearer_token plain_tables (header_get (codes "Authorization") get_config.headers)
      ≡ codes "secret"
unfolding bearer_token bearer_field fields header_get values equal canonical_key is_token_byte
    canonical_from upper_byte lower_byte equal_fold
bearer_apart same = refl

valid_token-Carries_example :
    (valid_token short_digest plain_tables get_config (codes "secret") ≡ true)
    ↔ Carries plain_tables get_config (codes "secret")
valid_token-Carries_example =
    valid_token-Carries short_digest plain_tables get_config (codes "secret") refl own_apart
      bearer_apart

serve_all-secret_example :
    ((serve_all whole_body https_host own_digest plain_tables
        (with_credential server (codes "a"))
        requests).1
      ≡ (serve_all whole_body https_host own_digest plain_tables
          (with_credential server (codes "b"))
          requests).1)
    × ((serve_all whole_body https_host own_digest plain_tables
          (with_credential server (codes "a"))
          requests).0
        ≡ with_credential
            (serve_all whole_body https_host own_digest plain_tables server requests).0
            (codes "a"))
    × ((serve_all whole_body https_host own_digest plain_tables
          (with_credential server (codes "b"))
          requests).0
        ≡ with_credential
            (serve_all whole_body https_host own_digest plain_tables server requests).0
            (codes "b"))
serve_all-secret_example =
    serve_all-secret whole_body https_host (codes "a") (codes "b") refl refl own_digest plain_tables
      requests server

server-valid_target : valid_target whole_body https_host own_digest plain_tables server ≡ true
unfolding validate_target_base_url has_scheme_and_host
server-valid_target = refl

serve_all-valid_target_example :
    let t = (serve_all whole_body https_host own_digest plain_tables server requests).0 in
    (t ≡ set_target whole_body https_host server t.config.target_base_url)
    × (valid_target whole_body https_host own_digest plain_tables t ≡ true)
serve_all-valid_target_example =
    serve_all-valid_target whole_body https_host own_digest plain_tables requests server
      server-valid_target

serve_all-authorized_example :
    (serve_all whole_body https_host own_digest plain_tables server requests).0
    ≡ (serve_all whole_body https_host own_digest plain_tables server
        (keep (λ r. valid_token own_digest plain_tables r server.token) requests)).0
serve_all-authorized_example =
    serve_all-authorized whole_body https_host own_digest plain_tables requests server

abbrev failed : RequestTelemetry
failed = record {
  request_id = [];
  session_id = [];
  provider = [];
  method = codes "POST";
  route = codes "/v1/responses";
  query_present = false;
  status = 502;
  latency = pos 3000000;
  error_kind = proxy_error;
  input_tokens = pos 0;
  output_tokens = pos 0;
  started_at = pos 1000;
  prompt_preview = [];
  credential_hint = [];
}

abbrev records : List RequestTelemetry
records = failed ∷ record failed { status = 200; error_kind = kind_none } ∷ []

bearer_token_run : bearer_token plain_tables (codes " bearer  secret ") ≡ codes "secret"
unfolding bearer_token bearer_field fields equal_fold
bearer_token_run = refl

telemetry_snapshot_run : telemetry_snapshot none ≡ []
unfolding telemetry_snapshot
telemetry_snapshot_run = refl

divide_run : divide (negsuc 6) 2 ≡ negsuc 2
unfolding divide negated
divide_run = refl

-- A source that fills every buffer with one byte.
abbrev constant_source : ℕ → Result Error Bytes
constant_source size = ok (replicate size 251)

token_run :
    generate_token constant_source ≡ ok (codes "-_v7-_v7-_v7-_v7-_v7-_v7-_v7-_v7-_v7-_v7-_s")
unfolding generate_token encode_raw_url digit
token_run = refl

abbrev token : Bytes
token = codes "-_v7-_v7-_v7-_v7-_v7-_v7-_v7-_v7-_v7-_v7-_s"

length-replicate : (n b : ℕ) → length (replicate n b) ≡ n
length-replicate zero b = refl
length-replicate (suc n) b = rw (length-replicate n b) refl

constant_fills : (size : ℕ) (raw : Bytes) → constant_source size ≡ ok raw → length raw ≡ size
constant_fills size raw drawn =
    let same : replicate size 251 ≡ raw = cc drawn in rw (same) at (length-replicate size 251)

abbrev token_request : Request
token_request = record get_config {
  headers = (codes "Authorization", (codes "Bearer " ++ token) ∷ []) ∷ [];
}

sent : header_get (codes "Authorization") token_request.headers ≡ codes "Bearer " ++ token
unfolding header_get values equal canonical_key is_token_byte canonical_from upper_byte lower_byte
sent = refl

valid_token-generate_token_example :
    (raw : Bytes) × (constant_source 32 ≡ ok raw)
    × (length token ≡ 43)
    × (valid_token short_digest plain_tables token_request token ≡ true)
valid_token-generate_token_example =
    valid_token-generate_token short_digest plain_tables constant_source token_request token
      constant_fills token_run sent
