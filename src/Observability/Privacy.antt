-- ===== src/Observability/Privacy.antt =====
-- What the store never holds: the private fields of a record.
use cachy.Base.{
  ◌≡◌, refl, Bool, true, false, List, [], ◌∷◌, arith, length, ◌-◌, All, All-append, All-drop,
}
use cachy.Base.Int.{ℤ, pos_part, ◌-ℤ◌}
use cachy.Observability.Telemetry.{
  RequestTelemetry, RetentionPolicy, MemoryTelemetryStore, fresh_records, newest,
  apply_retention_policy, normalize_retention_policy, record_telemetry, cleanup,
}

abbrev IsPrivate : RequestTelemetry → Type 0
IsPrivate r = (r.prompt_preview ≡ []) × (r.credential_hint ≡ [])

abbrev pub HoldsPrivate : MemoryTelemetryStore → Type 0
HoldsPrivate s = All IsPrivate s.records

-- A call of a method of the store that changes it.
pub data Call : Type 0 where
  record_call : RequestTelemetry → Call
  cleanup_call : ℤ → Bool → Call

pub run : MemoryTelemetryStore → List Call → MemoryTelemetryStore
run s [] = s
run s (record_call r ∷ calls) = run (record_telemetry s r) calls
run s (cleanup_call now confirm ∷ calls) = run (cleanup s now confirm).0 calls

All-fresh_records {κ} :
    (P : RequestTelemetry → Type κ) (policy : RetentionPolicy) (cutoff : ℤ)
    (rs : List RequestTelemetry)
    → All P rs
    → All P (fresh_records policy cutoff rs)
unfolding fresh_records
All-fresh_records P policy cutoff [] h = tt
All-fresh_records P policy cutoff (r ∷ rs) h =
    ground (arith, All-fresh_records P policy cutoff rs h.1)

pub All-newest {κ} :
    (P : RequestTelemetry → Type κ) (policy : RetentionPolicy) (rs : List RequestTelemetry)
    → All P rs
    → All P (newest policy rs)
unfolding newest
All-newest P policy rs h =
    ground (arith, h, All-drop P (length rs - pos_part policy.max_records) rs h)

All-apply_retention_policy {κ} :
    (P : RequestTelemetry → Type κ) (rs : List RequestTelemetry) (policy : RetentionPolicy)
    (now : ℤ)
    → All P rs
    → All P (apply_retention_policy rs policy now)
unfolding apply_retention_policy
All-apply_retention_policy P rs policy now h =
    let policy' = normalize_retention_policy policy in
    let cutoff = now -ℤ policy'.max_age in
    All-newest P policy' (fresh_records policy' cutoff rs) (All-fresh_records P policy' cutoff rs h)

cleanup-HoldsPrivate :
    (s : MemoryTelemetryStore) (now : ℤ) (confirm : Bool)
    → HoldsPrivate s
    → HoldsPrivate (cleanup s now confirm).0
unfolding cleanup
cleanup-HoldsPrivate s now true h = All-apply_retention_policy IsPrivate s.records s.policy now h
cleanup-HoldsPrivate s now false h = h

-- If the store holds no private field, it holds none after any calls of `Record` and `Cleanup`.
pub run-HoldsPrivate :
    (calls : List Call) (s : MemoryTelemetryStore) → HoldsPrivate s → HoldsPrivate (run s calls)
unfolding run
run-HoldsPrivate [] s h = h
run-HoldsPrivate (record_call r ∷ calls) s h =
    run-HoldsPrivate calls (record_telemetry s r)
      (unfold record_telemetry in All-append IsPrivate s.records _ h ((refl, refl), tt))
run-HoldsPrivate (cleanup_call now confirm ∷ calls) s h =
    run-HoldsPrivate calls (cleanup s now confirm).0 (cleanup-HoldsPrivate s now confirm h)
