-- ===== src/Admin/Metrics.antt =====
-- internal/admin/server.go: the metrics of the recorded requests. A map of counters is an association
-- list; the average is over sums that an int64 holds.
pub mod Counted
use cachy.Base.{
  ltb, ℕ, suc, ◌+◌, ◌/◌, ◌≡◌, ◌≤◌, Bool, true, false, not, List, [], ◌∷◌, if◌then◌else◌, arith,
  length,
}
use cachy.Base.Int.{ℤ, pos, negsuc, ◌+ℤ◌}
use cachy.Text.{Bytes, codes, equal}
use cachy.Text.Decimal.{print_nat}
use cachy.Observability.Telemetry.{
  ErrorKind, unset, kind_none, proxy_error, upstream_status, RequestTelemetry,
}
use cachy.Observability.Logging.{milliseconds, negated}

abbrev pub Counts : Type 0
Counts = List (Bytes × ℕ)

pub record MetricsResponse : Type 0 where
  pub requests_total : ℕ
  pub errors_total : ℕ
  pub average_latency_ms : ℤ
  pub status_counts : Counts
  pub failure_categories : Counts

-- m[key]++
pub increment : Bytes → Counts → Counts
increment key [] = (key, 1) ∷ []
increment key ((k, n) ∷ m) =
    let rest = increment key m in if equal k key then (k, suc n) ∷ m else (k, n) ∷ rest

-- m[key]
pub count_of : Bytes → Counts → ℕ
count_of key [] = 0
count_of key ((k, n) ∷ m) = let rest = count_of key m in if equal k key then n else rest

-- string(record.ErrorKind)
abbrev pub kind_text : ErrorKind → Bytes
kind_text unset = []
kind_text kind_none = codes "none"
kind_text proxy_error = codes "proxy_error"
kind_text upstream_status = codes "upstream_status"

-- record.ErrorKind != "" && record.ErrorKind != observability.ErrorKindNone
abbrev pub is_failure : ErrorKind → Bool
is_failure unset = false
is_failure kind_none = false
is_failure proxy_error = true
is_failure upstream_status = true

-- int64 division, which rounds towards zero
unfoldable pub divide : ℤ → ℕ → ℤ
divide (pos n) d = pos (n / d)
divide (negsuc n) d = negated (suc n / d)

-- The totals so far, and the sum of the latencies.
pub record Totals : Type 0 where
  pub response : MetricsResponse
  pub latency_total : ℤ

pub count_failure : ErrorKind → MetricsResponse → MetricsResponse
count_failure kind response =
    if is_failure kind
    then record response {
      errors_total = suc response.errors_total;
      failure_categories = increment (kind_text kind) response.failure_categories;
    }
    else response

pub count_record : Totals → RequestTelemetry → Totals
count_record totals r =
    let counted = record totals.response {
      requests_total = suc totals.response.requests_total;
      status_counts = increment (print_nat r.status) totals.response.status_counts;
    } in
    record {
      response = count_failure r.error_kind counted;
      latency_total = totals.latency_total +ℤ milliseconds r.latency;
    }

pub count_records : Totals → List RequestTelemetry → Totals
count_records totals [] = totals
count_records totals (r ∷ records) = count_records (count_record totals r) records

abbrev pub no_totals : Totals
no_totals = record {
  response = record {
    requests_total = 0;
    errors_total = 0;
    average_latency_ms = pos 0;
    status_counts = [];
    failure_categories = [];
  };
  latency_total = pos 0;
}

pub metrics_from_telemetry : List RequestTelemetry → MetricsResponse
metrics_from_telemetry records =
    let totals = count_records no_totals records in
    if ltb 0 totals.response.requests_total
    then record totals.response {
      average_latency_ms = divide totals.latency_total totals.response.requests_total;
    }
    else totals.response
