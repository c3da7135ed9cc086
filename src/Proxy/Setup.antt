-- ===== src/Proxy/Setup.antt =====
-- internal/proxy/proxy.go: the handler that `New` sets up. url.Parse is a parameter; a path is clean, as
-- ServeMux redirects the others, and a nil client stands for the default one.
pub mod Recorded
mod Tests
use cachy.Base.{
  Bool, ◌||◌, ◌==◌, Option, none, List, [], ◌∷◌, if◌then◌else◌, is_nil, false, Result, ok, err,
}
use cachy.Text.{Bytes, codes, equal, trim_right}
use cachy.Text.Ascii.{UnicodeTables}
use cachy.Http.{Request}
use cachy.Tokens.{Error}
use cachy.Observability.Telemetry.{MemoryTelemetryStore}
use cachy.Proxy.Handler.{Url, Outcome, Reply, Exchange, Clock, transparent_proxy}

pub checked_target : Result Error Url → Result Error Url
checked_target (err e) = err e
checked_target (ok target) =
    if is_nil target.scheme || is_nil target.host
    then err (codes "target base URL must include scheme and host")
    else ok target

pub parse_target_base_url : (Bytes → Result Error Url) → Bytes → Result Error Url
parse_target_base_url parse_url raw = checked_target (parse_url (trim_right (λ c. c == b'/') raw))

abbrev pub is_health : Request → Bool
is_health r = equal r.path (codes "/healthz")

abbrev healthz : Reply
healthz = record {
  status = 200;
  headers = (codes "Content-Type", codes "text/plain; charset=utf-8" ∷ []) ∷ [];
  body = codes "ok\n";
  flushed = false;
}

-- A request with the clock and the outcome of its exchange.
pub record Call : Type 0 where
  pub clock : Clock
  pub request : Request
  pub outcome : Outcome

module _ (u : UnicodeTables) (target : Url) (logger : Bool) where
  -- The mux of `New`: one request.
  pub serve_http : Option MemoryTelemetryStore → Call → Exchange
  serve_http telemetry c =
      if is_health c.request
      then record { sent = none; reply = healthz; log = none; telemetry = telemetry }
      else transparent_proxy u target logger c.clock telemetry c.request c.outcome

  pub serve_calls : Option MemoryTelemetryStore → List Call → Option MemoryTelemetryStore
  serve_calls telemetry [] = telemetry
  serve_calls telemetry (c ∷ cs) = serve_calls (serve_http telemetry c).telemetry cs

pub handler :
    UnicodeTables
    → Bool
    → Result Error Url
    → Result Error (Option MemoryTelemetryStore → Call → Exchange)
handler u logger (err e) = err e
handler u logger (ok target) = ok (serve_http u target logger)

pub new_proxy :
    (Bytes → Result Error Url)
    → UnicodeTables
    → Bytes
    → Bool
    → Result Error (Option MemoryTelemetryStore → Call → Exchange)
new_proxy parse_url u raw logger = handler u logger (parse_target_base_url parse_url raw)
