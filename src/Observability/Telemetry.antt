-- ===== src/Observability/Telemetry.antt =====
-- internal/observability/telemetry.go: the in-memory store of request records. The mutex makes each
-- method one step; a Time is the number of nanoseconds since the zero Time.
use cachy.Base.{
  ℕ, ◌-◌, Bool, not, ◌&&◌, Option, none, some, List, [], ◌∷◌, ◌++◌, if◌then◌else◌, length, drop,
}
use cachy.Base.Int.{ℤ, pos, pos_part, ltb_ℤ, leb_ℤ, ◌-ℤ◌}
use cachy.Text.{Bytes}

pub data ErrorKind : Type 0 where
  unset kind_none proxy_error upstream_status : ErrorKind

pub record RequestTelemetry : Type 0 where
  pub request_id : Bytes
  pub session_id : Bytes
  pub provider : Bytes
  pub method : Bytes
  pub route : Bytes
  pub query_present : Bool
  pub status : ℕ
  pub latency : ℤ
  pub error_kind : ErrorKind
  pub input_tokens : ℤ
  pub output_tokens : ℤ
  pub started_at : ℤ
  pub prompt_preview : Bytes
  pub credential_hint : Bytes

pub record RetentionPolicy : Type 0 where
  pub max_records : ℤ
  pub max_age : ℤ

pub record MemoryTelemetryStore : Type 0 where
  pub records : List RequestTelemetry
  pub policy : RetentionPolicy

pub record CleanupResult : Type 0 where
  pub dry_run : Bool
  pub would_remove : ℕ
  pub removed : ℕ
  pub kept : ℕ

-- 24 * time.Hour
abbrev day : ℕ
day = 86400000000000

default_retention_policy : RetentionPolicy
default_retention_policy = record { max_records = pos 1000; max_age = pos day }

unfoldable pub normalize_retention_policy : RetentionPolicy → RetentionPolicy
unfolding default_retention_policy
normalize_retention_policy policy =
    let defaults = default_retention_policy in
    record policy {
      max_records =
          if leb_ℤ policy.max_records (pos 0) then defaults.max_records else policy.max_records;
      max_age = if leb_ℤ policy.max_age (pos 0) then defaults.max_age else policy.max_age;
    }

-- A `RetentionOption`: `none` is a nil option.
unfoldable pub with_retention_policy :
    RetentionPolicy → Option (MemoryTelemetryStore → MemoryTelemetryStore)
unfolding normalize_retention_policy
with_retention_policy policy = some (λ s. record s { policy = normalize_retention_policy policy })

apply_options :
    MemoryTelemetryStore
    → List (Option (MemoryTelemetryStore → MemoryTelemetryStore))
    → MemoryTelemetryStore
apply_options store [] = store
apply_options store (none ∷ options) = apply_options store options
apply_options store (some option ∷ options) = apply_options (option store) options

unfoldable pub new_memory_telemetry_store :
    List (Option (MemoryTelemetryStore → MemoryTelemetryStore)) → MemoryTelemetryStore
unfolding apply_options default_retention_policy
new_memory_telemetry_store =
    apply_options (record { records = []; policy = default_retention_policy })

unfoldable pub record_telemetry : MemoryTelemetryStore → RequestTelemetry → MemoryTelemetryStore
record_telemetry s r =
    let clean = record r { prompt_preview = []; credential_hint = [] } in
    record s { records = s.records ++ clean ∷ [] }

unfoldable pub snapshot : MemoryTelemetryStore → List RequestTelemetry
snapshot s = s.records

-- Time.IsZero
abbrev is_zero_time : ℤ → Bool
is_zero_time t = leb_ℤ t (pos 0) && leb_ℤ (pos 0) t

-- Whether the loop of `applyRetentionPolicy` passes over the record.
unfoldable pub is_expired : RetentionPolicy → ℤ → RequestTelemetry → Bool
is_expired policy cutoff r =
    ltb_ℤ (pos 0) policy.max_age && not (is_zero_time r.started_at) && ltb_ℤ r.started_at cutoff

unfoldable pub fresh_records : RetentionPolicy → ℤ → List RequestTelemetry → List RequestTelemetry
fresh_records policy cutoff [] = []
fresh_records policy cutoff (r ∷ rs) =
    let rest = fresh_records policy cutoff rs in
    if is_expired policy cutoff r then rest else r ∷ rest

-- `kept[len(kept)-policy.MaxRecords:]` under its test
unfoldable pub newest : RetentionPolicy → List RequestTelemetry → List RequestTelemetry
newest policy kept =
    if ltb_ℤ (pos 0) policy.max_records && ltb_ℤ policy.max_records (pos (length kept))
    then drop (length kept - pos_part policy.max_records) kept
    else kept

unfoldable pub apply_retention_policy :
    List RequestTelemetry → RetentionPolicy → ℤ → List RequestTelemetry
apply_retention_policy records policy now =
    let policy' = normalize_retention_policy policy in
    newest policy' (fresh_records policy' (now -ℤ policy'.max_age) records)

unfoldable pub cleanup : MemoryTelemetryStore → ℤ → Bool → MemoryTelemetryStore × CleanupResult
cleanup s now confirm =
    let kept = apply_retention_policy s.records s.policy now in
    let removed = length s.records - length kept in
    let result : CleanupResult = record {
      dry_run = not confirm;
      would_remove = removed;
      removed = 0;
      kept = length kept;
    } in
    if confirm
    then (record s { records = kept }, record result { removed = removed })
    else (s, result)
