-- ===== src/Observability/Tests.antt =====
-- Runs of the telemetry and of the log.
use cachy.Base.{some, ◌≡◌, ◌+◌, ◌≤◌, refl, true, false, none, [], ◌∷◌, All, length}
use cachy.Base.Int.{pos, pos_part}
use cachy.Text.{contains, codes}
use cachy.Text.Ascii.{to_lower, plain_tables}
use cachy.Observability.Telemetry.{
  is_expired, RequestTelemetry, MemoryTelemetryStore, kind_none, cleanup, with_retention_policy,
  new_memory_telemetry_store, snapshot,
}
use cachy.Observability.Logging.{log_request, milliseconds, redact_attr, sensitive_key}
use cachy.Observability.Privacy.{record_call, cleanup_call, HoldsPrivate, run, run-HoldsPrivate}
use cachy.Observability.Retention.{IsFresh, effective, cleanup_confirmed}

abbrev early : RequestTelemetry
early = record {
  request_id = [];
  session_id = [];
  provider = codes "openai";
  method = codes "POST";
  route = codes "/v1/responses";
  query_present = false;
  status = 200;
  latency = pos 1000;
  error_kind = kind_none;
  input_tokens = pos 0;
  output_tokens = pos 0;
  started_at = pos 10;
  prompt_preview = [];
  credential_hint = [];
}

abbrev late : RequestTelemetry
late = record early { started_at = pos 950 }

abbrev store : MemoryTelemetryStore
store = record {
  records = early ∷ late ∷ late ∷ [];
  policy = record { max_records = pos 1; max_age = pos 100 };
}

abbrev spying : RequestTelemetry
spying = record late { prompt_preview = codes "my prompt"; credential_hint = codes "sk-" }

new_memory_telemetry_store_run :
    new_memory_telemetry_store
      (none ∷ with_retention_policy (record { max_records = pos 1; max_age = pos 100 }) ∷ [])
    ≡ record store { records = [] }
unfolding new_memory_telemetry_store with_retention_policy
new_memory_telemetry_store_run = refl

snapshot_run : length (snapshot store) ≡ 3
unfolding snapshot
snapshot_run = refl

redact_attr_run :
    redact_attr plain_tables (record { key = codes "Admin_Token"; value = codes "x" })
    ≡ record { key = codes "Admin_Token"; value = codes "<redacted>" }
unfolding redact_attr sensitive_key contains to_lower
redact_attr_run = refl

cleanup_confirmed_example :
    (length (cleanup store (pos 1000) true).0.records ≤ pos_part (effective store).max_records)
    × All (IsFresh (effective store) (pos 1000)) (cleanup store (pos 1000) true).0.records
    × ((cleanup store (pos 1000) true).1.removed + length (cleanup store (pos 1000) true).0.records
        ≡ 3)
    × ((cleanup store (pos 1000) true).1.kept ≡ length (cleanup store (pos 1000) true).0.records)
cleanup_confirmed_example = cleanup_confirmed store (pos 1000)

store-HoldsPrivate : HoldsPrivate store
store-HoldsPrivate = ((refl, refl), ((refl, refl), ((refl, refl), tt)))

run-HoldsPrivate_example :
    HoldsPrivate (run store (record_call spying ∷ cleanup_call (pos 1000) true ∷ []))
run-HoldsPrivate_example =
    run-HoldsPrivate (record_call spying ∷ cleanup_call (pos 1000) true ∷ []) store
      store-HoldsPrivate

is_expired_run : is_expired store.policy (pos 900) early ≡ true
unfolding is_expired
is_expired_run = refl

log_request_run :
    log_request true (record {
      request = some (record {
        method = codes "GET";
        path = codes "/v1";
        raw_query = [];
        headers = [];
        body = [];
      });
      status = 200;
      latency = pos 2500000;
      error_kind = kind_none;
    })
    ≡ some (record {
      method = codes "GET";
      path = codes "/v1";
      query_present = false;
      status = 200;
      latency_ms = pos 2;
      error_kind = kind_none;
    })
unfolding log_request milliseconds
log_request_run = refl
