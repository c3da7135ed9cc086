-- ===== src/Proxy/Handler.antt =====
-- internal/proxy/upstream.go: one exchange of the transparent proxy. What net/http and the
-- upstream do is an `Outcome`, and the clock gives the start and the latencies.
pub mod Observed
mod Tests
use cachy.Base.{
  ℕ, Bool, true, false, Option, none, some, List, [], ◌∷◌, ◌++◌, take, Result, ok, err,
}
use cachy.Base.Int.{ℤ}
use cachy.Text.{Bytes, codes, has_prefix}
use cachy.Text.Ascii.{UnicodeTables, to_lower}
use cachy.Http.{Request, Response}
use cachy.Tokens.{Error}
use cachy.Observability.Telemetry.{ErrorKind, proxy_error, MemoryTelemetryStore, record_telemetry}
use cachy.Observability.Logging.{LogLine, log_request, classify_proxy_error}
use cachy.Observability.Build.{build_request_telemetry}
use cachy.Proxy.Headers.{Header, copy_request_headers, copy_headers, header_get}
use cachy.Proxy.Paths.{join_path}

pub record Url : Type 0 where
  pub scheme : Bytes
  pub host : Bytes
  pub path : Bytes
  pub raw_query : Bytes

-- The request that goes upstream.
pub record Upstream : Type 0 where
  pub method : Bytes
  pub url : Url
  pub host : Bytes
  pub headers : Header
  pub body : Bytes

-- http.NewRequestWithContext fails, or client.Do fails, or there is a response; copying its body may
-- then fail after some bytes.
pub data Outcome : Type 0 where
  request_failed send_failed : Error → Outcome
  answered : Response → Option (ℕ × Error) → Outcome

-- What the client receives; `flushed` says that each write was flushed.
pub record Reply : Type 0 where
  pub status : ℕ
  pub headers : Header
  pub body : Bytes
  pub flushed : Bool

pub record Exchange : Type 0 where
  pub sent : Option Upstream
  pub reply : Reply
  pub log : Option LogLine
  pub telemetry : Option MemoryTelemetryStore

-- time.Now, and time.Since for the log and for the telemetry
pub record Clock : Type 0 where
  pub started : ℤ
  pub log_latency : ℤ
  pub telemetry_latency : ℤ

abbrev bad_gateway : ℕ
bad_gateway = 502

upstream_url : Url → Request → Url
upstream_url target r = record target {
  path = join_path target.path r.path;
  raw_query = r.raw_query;
}

-- `recordTelemetry`; `none` is a nil recorder.
pub record_exchange :
    Option MemoryTelemetryStore → Request → ℕ → ℤ → ℤ → ErrorKind → Option MemoryTelemetryStore
record_exchange none r status latency started kind = none
record_exchange (some s) r status latency started kind =
    some (record_telemetry s (build_request_telemetry (some r) status latency started kind))

-- http.Error
pub error_reply : Error → ℕ → Reply
error_reply e status = record {
  status = status;
  headers =
      (codes "Content-Type", codes "text/plain; charset=utf-8" ∷ [])
      ∷ (codes "X-Content-Type-Options", codes "nosniff" ∷ [])
      ∷ [];
  body = e ++ codes "\n";
  flushed = false;
}

-- The bytes that io.Copy wrote, and its error.
pub copied : Bytes → Option (ℕ × Error) → Bytes × Option Error
copied body none = (body, none)
copied body (some (n, e)) = (take n body, some e)

module _ (u : UnicodeTables) (target : Url) (logger : Bool) where
  upstream_request : Request → Upstream
  upstream_request r = record {
    method = r.method;
    url = upstream_url target r;
    host = (upstream_url target r).host;
    headers = copy_request_headers u [] r.headers;
    body = r.body;
  }

  is_event_stream : Header → Bool
  is_event_stream h =
      has_prefix (to_lower u (header_get (codes "Content-Type") h)) (codes "text/event-stream")

  -- The log and the telemetry of a reply.
  pub observe :
      Clock → Option MemoryTelemetryStore → Request → Option Upstream → Reply → ErrorKind → Exchange
  observe clock telemetry r sent reply kind = record {
    sent = sent;
    reply = reply;
    log = log_request logger (record {
      request = some r;
      status = reply.status;
      latency = clock.log_latency;
      error_kind = kind;
    });
    telemetry = record_exchange telemetry r reply.status clock.telemetry_latency clock.started kind;
  }

  pub transparent_proxy : Clock → Option MemoryTelemetryStore → Request → Outcome → Exchange
  transparent_proxy clock telemetry r (request_failed e) =
      observe clock telemetry r none (error_reply e bad_gateway) proxy_error
  transparent_proxy clock telemetry r (send_failed e) =
      observe clock telemetry r (some (upstream_request r)) (error_reply e bad_gateway) proxy_error
  transparent_proxy clock telemetry r (answered resp failure) =
      let (body, copy_error) = copied resp.body failure in
      observe clock telemetry r (some (upstream_request r))
        (record {
          status = resp.status;
          headers = copy_headers u [] resp.headers;
          body = body;
          flushed = is_event_stream resp.headers;
        })
        (classify_proxy_error resp.status copy_error)
