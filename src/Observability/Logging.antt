-- ===== src/Observability/Logging.antt =====
-- internal/observability/logging.go.
use cachy.Base.{ℕ, suc, zero, ◌/◌, Bool, not, ◌||◌, Option, none, some, leb, if◌then◌else◌, is_nil}
use cachy.Base.Int.{ℤ, pos, negsuc}
use cachy.Text.{Bytes, codes, contains}
use cachy.Text.Ascii.{UnicodeTables, to_lower}
use cachy.Http.{Request}
use cachy.Tokens.{Error}
use cachy.Observability.Telemetry.{ErrorKind, kind_none, proxy_error, upstream_status}

pub record RequestLog : Type 0 where
  pub request : Option Request
  pub status : ℕ
  pub latency : ℤ
  pub error_kind : ErrorKind

-- The attributes of a line of the log.
pub record LogLine : Type 0 where
  pub method : Bytes
  pub path : Bytes
  pub query_present : Bool
  pub status : ℕ
  pub latency_ms : ℤ
  pub error_kind : ErrorKind

pub record Attr : Type 0 where
  pub key : Bytes
  pub value : Bytes

unfoldable pub negated : ℕ → ℤ
negated zero = pos 0
negated (suc n) = negsuc n

-- Duration.Milliseconds, which rounds towards zero
unfoldable pub milliseconds : ℤ → ℤ
milliseconds (pos n) = pos (n / 1000000)
milliseconds (negsuc n) = negated (suc n / 1000000)

log_line : Option Request → RequestLog → Option LogLine
log_line none entry = none
log_line (some r) entry = some (record {
  method = r.method;
  path = r.path;
  query_present = not (is_nil r.raw_query);
  status = entry.status;
  latency_ms = milliseconds entry.latency;
  error_kind = entry.error_kind;
})

-- The line that is logged, if any; the flag says whether there is a logger.
unfoldable pub log_request : Bool → RequestLog → Option LogLine
unfolding log_line
log_request logger entry = if not logger then none else log_line entry.request entry

unfoldable pub classify_proxy_error : ℕ → Option Error → ErrorKind
classify_proxy_error status (some e) = proxy_error
classify_proxy_error status none = if leb 500 status then upstream_status else kind_none

unfoldable pub sensitive_key : UnicodeTables → Bytes → Bool
sensitive_key u key =
    let normalized = to_lower u key in
    contains normalized (codes "authorization")
    || contains normalized (codes "api_key")
    || contains normalized (codes "api-key")
    || contains normalized (codes "token")
    || contains normalized (codes "secret")
    || contains normalized (codes "cookie")
    || contains normalized (codes "prompt")

unfoldable pub redact_attr : UnicodeTables → Attr → Attr
redact_attr u attr =
    if sensitive_key u attr.key then record attr { value = codes "<redacted>" } else attr
