-- ===== src/Proxy/Setup/Tests.antt =====
-- Runs of the proxy's set-up.
use cachy.Base.{◌≡◌, refl, true, some, [], ◌∷◌, ◌++◌, List, Result, ok, err}
use cachy.Base.Int.{pos}
use cachy.Text.{Bytes, equal, codes, trim_right}
use cachy.Text.Ascii.{plain_tables}
use cachy.Tokens.{Error}
use cachy.Observability.Telemetry.{MemoryTelemetryStore}
use cachy.Proxy.Handler.{Url, send_failed}
use cachy.Proxy.Setup.{handler, checked_target, Call, serve_calls, parse_target_base_url, new_proxy}
use cachy.Proxy.Setup.Recorded.{requested, recorded, serve_calls-recorded}

abbrev upstream : Url
upstream = record { scheme = codes "https"; host = codes "host"; path = []; raw_query = [] }

abbrev get : Bytes → Call
get path = record {
  clock = record { started = pos 1000; log_latency = pos 5; telemetry_latency = pos 6 };
  request = record { method = codes "GET"; path = path; raw_query = []; headers = []; body = [] };
  outcome = send_failed (codes "connection refused");
}

abbrev calls : List Call
calls = get (codes "/healthz") ∷ get (codes "/v1/models") ∷ []

abbrev empty_store : MemoryTelemetryStore
empty_store = record { records = []; policy = record { max_records = pos 10; max_age = pos 100 } }

serve_calls-recorded_example :
    (s' : MemoryTelemetryStore) × (serve_calls plain_tables upstream true (some empty_store) calls
      ≡ some s')
    × (s'.policy ≡ empty_store.policy)
    × (recorded s'.records ≡ recorded empty_store.records ++ requested calls)
serve_calls-recorded_example = serve_calls-recorded plain_tables upstream true calls empty_store

requested_run : requested calls ≡ (codes "GET", codes "/v1/models") ∷ []
unfolding equal
requested_run = refl

-- The parser of the tests takes all of its input as the host.
abbrev as_host : Bytes → Result Error Url
as_host raw = ok (record { scheme = codes "http"; host = raw; path = []; raw_query = [] })

parse_target_base_url_run :
    parse_target_base_url as_host (codes "host//")
    ≡ ok (record { scheme = codes "http"; host = codes "host"; path = []; raw_query = [] })
unfolding parse_target_base_url checked_target trim_right
parse_target_base_url_run = refl

new_proxy_run :
    new_proxy as_host plain_tables (codes "//") true
    ≡ err (codes "target base URL must include scheme and host")
unfolding new_proxy handler parse_target_base_url checked_target trim_right
new_proxy_run = refl
