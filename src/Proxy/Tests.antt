-- ===== src/Proxy/Tests.antt =====
-- Runs of the proxy.
use cachy.Base.{◌≡◌, refl, true, some, [], ◌∷◌, All}
use cachy.Base.Int.{pos}
use cachy.Text.{equal, codes}
use cachy.Text.Ascii.{to_lower, lower_byte, upper_byte, plain_tables}
use cachy.Http.{Request}
use cachy.Observability.Telemetry.{RequestTelemetry, MemoryTelemetryStore}
use cachy.Proxy.Headers.{
  header_get, one_of, canonical_from, is_token_byte, Header, values, canonical_key, copy_headers,
  copy_request_headers, redact_header_values_for_log, sensitive_header,
}
use cachy.Proxy.Headers.Keys.{IsNoneOf, hop_by_hop_names, provenance_names, copied_keys_safe}
use cachy.Proxy.Handler.{Url, Outcome, send_failed, Clock, transparent_proxy}
use cachy.Proxy.Handler.Observed.{Reports, transparent_proxy-Reports}

abbrev sent : Header
sent =
    (codes "Connection", codes "close" ∷ [])
    ∷ (codes "Accept", codes "text/plain" ∷ codes "text/html" ∷ [])
    ∷ (codes "Via", codes "1.1 gateway" ∷ [])
    ∷ []

copied_keys_safe_example :
    All
      (λ e.
        IsNoneOf plain_tables hop_by_hop_names e.0
        × IsNoneOf plain_tables provenance_names e.0
        × IsNoneOf plain_tables (codes "content-length" ∷ []) e.0)
      (copy_request_headers plain_tables [] sent)
    × All (λ e. IsNoneOf plain_tables hop_by_hop_names e.0) (copy_headers plain_tables [] sent)
copied_keys_safe_example = copied_keys_safe plain_tables sent

sent-canonical : All (λ e. canonical_key e.0 ≡ e.0) sent
unfolding canonical_key is_token_byte canonical_from upper_byte lower_byte
sent-canonical = (refl, (refl, (refl, tt)))

abbrev target : Url
target = record { scheme = codes "https"; host = codes "api.openai.com"; path = []; raw_query = [] }

abbrev request : Request
request = record {
  method = codes "POST";
  path = codes "/v1/responses";
  raw_query = [];
  headers = sent;
  body = codes "{}";
}

abbrev clock : Clock
clock = record { started = pos 1000; log_latency = pos 5; telemetry_latency = pos 6 }

abbrev store : MemoryTelemetryStore
store = record { records = []; policy = record { max_records = pos 10; max_age = pos 100 } }

abbrev failure : Outcome
failure = send_failed (codes "connection refused")

transparent_proxy-Reports_example :
    (t : RequestTelemetry) × ((transparent_proxy plain_tables target true clock
        (some store)
        request
        failure).telemetry
      ≡ some (record store { records = t ∷ [] }))
    × Reports request
        (transparent_proxy plain_tables target true clock (some store) request failure).reply
        failure
        t
transparent_proxy-Reports_example =
    transparent_proxy-Reports plain_tables target true clock store request failure

redact_run :
    redact_header_values_for_log plain_tables (codes "Authorization") (codes "Bearer x" ∷ [])
    ≡ codes "<redacted>" ∷ []
unfolding redact_header_values_for_log sensitive_header one_of equal to_lower
redact_run = refl

header_get_run : header_get (codes "accept") sent ≡ codes "text/plain"
unfolding header_get values equal canonical_key is_token_byte canonical_from upper_byte lower_byte
header_get_run = refl
