-- ===== src/Ccr/Retention/Sums.antt =====
-- What the counts of `Cleanup` say of the objects.
use cachy.Base.{
  false, if◌then◌else◌, ◌&&◌, refl, ok, ◌+◌, ◌≡◌, Bool, true, List, [], ◌∷◌, arith, length,
}
use cachy.Base.Int.{ℤ, pos, leb_ℤ}
use cachy.Text.{Bytes}
use cachy.Ccr.Retention.{
  zero_result, cleanup, cleanup_candidates, RetentionPolicy, ObjectInfo, CleanupResult, total_size,
  visit, cleanup_from, count_candidate, count_kept, count_failed, count_removed,
}

module _ (sort : List ObjectInfo → List ObjectInfo) (removes : Bytes → Bool)
    (paths : List Bytes) where
  -- What a loop over `objects` adds to the counts `r` when it ends with the counts `r'` and leaves
  -- the objects `left`.
  record Accounts (objects left : List ObjectInfo) (r r' : CleanupResult) : Type 0 where
    pub each_counted : r'.removed + r'.kept ≡ r.removed + r.kept + length objects
    pub each_byte_counted :
        r'.bytes_removed + r'.bytes_kept ≡ r.bytes_removed + r.bytes_kept + total_size objects
    pub failures_counted :
        r'.removed + r'.failed + r.would_remove ≡ r.removed + r.failed + r'.would_remove
    pub left_counted : r'.kept ≡ r.kept + length left
    pub left_bytes_counted : r'.bytes_kept ≡ r.bytes_kept + total_size left

  cleanup_from-Accounts :
      (os : List ObjectInfo) (r : CleanupResult)
      → Accounts os
          (cleanup_from sort removes paths true os r).0
          r
          (cleanup_from sort removes paths true os r).1
  unfolding cleanup_from total_size visit count_candidate count_kept count_failed count_removed
  cleanup_from-Accounts [] r = ground arith
  cleanup_from-Accounts (o ∷ os) r =
      ground (arith, cleanup_from-Accounts os (visit sort removes paths true o r).0)

  -- Without `Confirm` no object goes, and the candidates are counted as with it.
  cleanup_from-dry_run :
      (os : List ObjectInfo) (r s : CleanupResult)
      → r.would_remove ≡ s.would_remove
      → r.bytes_would_remove ≡ s.bytes_would_remove
      → let dry = cleanup_from sort removes paths false os r in
        let wet = cleanup_from sort removes paths true os s in
        (dry.0 ≡ os)
        × (dry.1.removed ≡ r.removed)
        × (dry.1.would_remove ≡ wet.1.would_remove)
        × (dry.1.bytes_would_remove ≡ wet.1.bytes_would_remove)
  unfolding cleanup_from visit count_candidate count_kept count_failed count_removed
  cleanup_from-dry_run [] r s h b = (refl, refl, h, b)
  cleanup_from-dry_run (o ∷ os) r s h b = ground (
    arith,
    cleanup_from-dry_run os (visit sort removes paths false o r).0
        (visit sort removes paths true o s).0,
  )

module _ (sort : List ObjectInfo → List ObjectInfo) (removes : Bytes → Bool) where
  -- A confirmed `Cleanup` of the objects that the walk lists returns the objects that it leaves and
  -- its counts: it counts each object, and each byte, either as removed or as kept; it counts as
  -- candidates those that it removed and those that it failed to remove; and what it counts as kept
  -- is what is left.
  cleanup-counts :
      (current now : ℤ) (policy : RetentionPolicy) (objects : List ObjectInfo)
      → (left : List ObjectInfo) × (r : CleanupResult) × (cleanup sort removes current
            (record { now = now; policy = policy; confirm = true })
            (ok objects)
          ≡ ok (left, r))
        × (r.removed + r.kept ≡ length objects)
        × (r.bytes_removed + r.bytes_kept ≡ total_size objects)
        × (r.would_remove ≡ r.removed + r.failed)
        × (r.kept ≡ length left)
        × (r.bytes_kept ≡ total_size left)
  unfolding cleanup
  cleanup-counts current now policy objects =
      let at = if leb_ℤ now (pos 0) && leb_ℤ (pos 0) now then current else now in
      let paths = cleanup_candidates sort removes objects policy at in
      let sums = cleanup_from-Accounts sort removes paths objects (zero_result false) in
      let result = cleanup_from sort removes paths true objects (zero_result false) in
      (
        result.0,
        result.1,
        refl,
        omega (arith, sums.each_counted),
        omega (arith, sums.each_byte_counted),
        omega (arith, sums.failures_counted),
        omega (arith, sums.left_counted),
        omega (arith, sums.left_bytes_counted),
      )

  -- A `Cleanup` that is not confirmed leaves every object, removes none, and announces the objects
  -- and bytes that the confirmed one tries to remove.
  cleanup_unconfirmed :
      (current now : ℤ) (policy : RetentionPolicy) (objects left left' : List ObjectInfo)
      (r r' : CleanupResult)
      → cleanup sort removes current
          (record { now = now; policy = policy; confirm = false })
          (ok objects)
        ≡ ok (left, r)
      → cleanup sort removes current
          (record { now = now; policy = policy; confirm = true })
          (ok objects)
        ≡ ok (left', r')
      → (left ≡ objects)
        × (r.removed ≡ 0)
        × (r.would_remove ≡ r'.would_remove)
        × (r.bytes_would_remove ≡ r'.bytes_would_remove)
  unfolding cleanup
  cleanup_unconfirmed current now policy objects left left' r r' h h' =
      let at = if leb_ℤ now (pos 0) && leb_ℤ (pos 0) now then current else now in
      let paths = cleanup_candidates sort removes objects policy at in
      ground (
        arith,
        cleanup_from-dry_run sort removes paths objects (zero_result true) (zero_result false) refl
            refl,
      )
