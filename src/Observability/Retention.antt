-- ===== src/Observability/Retention.antt =====
-- What `Cleanup` keeps of the records, and what it reports.
use cachy.Base.{
  ◌+◌, ◌-◌, ◌≤◌, ◌≡◌, refl, ap, ◌∙◌, true, false, List, [], ◌∷◌, arith, All, length, length-drop,
}
use cachy.Base.Int.{ℤ, pos_part, ◌-ℤ◌}
use cachy.Observability.Telemetry.{
  RequestTelemetry, RetentionPolicy, MemoryTelemetryStore, normalize_retention_policy, is_expired,
  fresh_records, newest, apply_retention_policy, cleanup,
}
use cachy.Observability.Privacy.{All-newest}

-- The record has no start time, or is no older than the policy's age.
abbrev pub IsFresh : RetentionPolicy → ℤ → RequestTelemetry → Type 0
IsFresh policy now r = is_expired policy (now -ℤ policy.max_age) r ≡ false

fresh_records-fresh :
    (policy : RetentionPolicy) (cutoff : ℤ) (rs : List RequestTelemetry)
    → All (λ r. is_expired policy cutoff r ≡ false) (fresh_records policy cutoff rs)
unfolding fresh_records
fresh_records-fresh policy cutoff [] = tt
fresh_records-fresh policy cutoff (r ∷ rs) = ground (arith, fresh_records-fresh policy cutoff rs)

fresh_records_id :
    (policy : RetentionPolicy) (cutoff : ℤ) (rs : List RequestTelemetry)
    → All (λ r. is_expired policy cutoff r ≡ false) rs
    → fresh_records policy cutoff rs ≡ rs
unfolding fresh_records
fresh_records_id policy cutoff [] h = refl
fresh_records_id policy cutoff (r ∷ rs) h = ground (arith, fresh_records_id policy cutoff rs h.1)

length-fresh_records :
    (policy : RetentionPolicy) (cutoff : ℤ) (rs : List RequestTelemetry)
    → length (fresh_records policy cutoff rs) ≤ length rs
unfolding fresh_records
length-fresh_records policy cutoff [] = omega arith
length-fresh_records policy cutoff (r ∷ rs) = ground (arith, length-fresh_records policy cutoff rs)

normalize_positive :
    (policy : RetentionPolicy)
    → (1 ≤ pos_part (normalize_retention_policy policy).max_records)
      × (1 ≤ pos_part (normalize_retention_policy policy).max_age)
unfolding normalize_retention_policy
normalize_positive policy = ground arith

newest-bound :
    (policy : RetentionPolicy) (rs : List RequestTelemetry)
    → 1 ≤ pos_part policy.max_records
    → length (newest policy rs) ≤ pos_part policy.max_records
unfolding newest
newest-bound policy rs h = ground (arith, length-drop (length rs - pos_part policy.max_records) rs)

newest_id :
    (policy : RetentionPolicy) (rs : List RequestTelemetry)
    → length rs ≤ pos_part policy.max_records
    → newest policy rs ≡ rs
unfolding newest
newest_id policy rs h = ground arith

length-newest :
    (policy : RetentionPolicy) (rs : List RequestTelemetry) → length (newest policy rs) ≤ length rs
unfolding newest
length-newest policy rs = ground (arith, length-drop (length rs - pos_part policy.max_records) rs)

-- The policy that `Cleanup` applies, and the records that are fresh under it.
abbrev pub effective : MemoryTelemetryStore → RetentionPolicy
effective s = normalize_retention_policy s.policy

module _ (s : MemoryTelemetryStore) (now : ℤ) where
  apply_retention_policy-bound :
      length (apply_retention_policy s.records s.policy now) ≤ pos_part (effective s).max_records
  unfolding apply_retention_policy
  apply_retention_policy-bound = newest-bound (effective s) _ (normalize_positive s.policy).0

  apply_retention_policy-IsFresh :
      All (IsFresh (effective s) now) (apply_retention_policy s.records s.policy now)
  unfolding apply_retention_policy
  apply_retention_policy-IsFresh =
      All-newest (IsFresh (effective s) now) (effective s) _
        (fresh_records-fresh (effective s) (now -ℤ (effective s).max_age) s.records)

  length-apply_retention_policy :
      length (apply_retention_policy s.records s.policy now) ≤ length s.records
  unfolding apply_retention_policy
  length-apply_retention_policy =
      let cutoff = now -ℤ (effective s).max_age in
      omega (
        arith,
        length-newest (effective s) (fresh_records (effective s) cutoff s.records),
        length-fresh_records (effective s) cutoff s.records,
      )

  -- A confirmed `Cleanup` leaves at most `MaxRecords` records, all of them fresh under the policy
  -- with its defaults put in, and reports exactly the number of records that it took away.
  pub cleanup_confirmed :
      (length (cleanup s now true).0.records ≤ pos_part (effective s).max_records)
      × All (IsFresh (effective s) now) (cleanup s now true).0.records
      × ((cleanup s now true).1.removed + length (cleanup s now true).0.records ≡ length s.records)
      × ((cleanup s now true).1.kept ≡ length (cleanup s now true).0.records)
  unfolding cleanup
  cleanup_confirmed = (
    apply_retention_policy-bound,
    apply_retention_policy-IsFresh,
    omega (arith, length-apply_retention_policy),
    refl,
  )

  -- A `Cleanup` that is not confirmed changes nothing and removes nothing, and announces what the
  -- confirmed one removes and keeps.
  cleanup_dry_run :
      ((cleanup s now false).0 ≡ s)
      × ((cleanup s now false).1.removed ≡ 0)
      × ((cleanup s now false).1.would_remove ≡ (cleanup s now true).1.removed)
      × ((cleanup s now false).1.kept ≡ (cleanup s now true).1.kept)
  unfolding cleanup
  cleanup_dry_run = (refl, refl, refl, refl)

  -- A second `Cleanup` at the same time finds nothing to remove and leaves the store as it is.
  cleanup_idempotent :
      ((cleanup (cleanup s now true).0 now true).0 ≡ (cleanup s now true).0)
      × ((cleanup (cleanup s now true).0 now true).1.removed ≡ 0)
  unfolding cleanup
  cleanup_idempotent =
      let kept = apply_retention_policy s.records s.policy now in
      let again : apply_retention_policy kept s.policy now ≡ kept =
        unfold apply_retention_policy in
        ap (newest (effective s)) (
          fresh_records_id (effective s) (now -ℤ (effective s).max_age) kept
            apply_retention_policy-IsFresh)
        ∙ newest_id (effective s) kept apply_retention_policy-bound in
      (rw again, rw again (omega arith))
