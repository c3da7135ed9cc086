-- ===== src/Ccr/Retention/Bounds.antt =====
-- `Cleanup` brings the store under the policy's size and age.
use mathlib.Core.List.{Perm}
use cachy.Base.{
  ◌≤◌, ok, All, false, if◌then◌else◌, ◌&&◌, ◌≡◌, refl, Bool, true, not, List, [], ◌∷◌, ◌++◌, arith,
  keep, map, Bool-cases, inl, inr,
}
use cachy.Base.Int.{leb_ℤ, ℤ, pos, pos_part, ltb_ℤ}
use cachy.Text.{Bytes}
use cachy.Ccr.Retention.{
  cleanup, zero_result, ObjectInfo, RetentionPolicy, CleanupResult, total_size, marked, is_aged,
  mark_oldest, cleanup_candidates, visit, cleanup_from,
}
use cachy.Ccr.Retention.Spared.{
  spared, spared-cons, spared-perm, total_size-perm, zero_if, marked-append_left,
  marked-append_right, marked-cons_self, marked-cons, spared-mark_oldest,
}

-- Every aged object is in the set, so that only the young ones count.
marked-aged :
    (policy : RetentionPolicy) (now : ℤ) (os : List ObjectInfo) (o : ObjectInfo)
    → is_aged policy now o ≡ true
    → marked (map (λ (x : ObjectInfo). x.path) (keep (is_aged policy now) (o ∷ os))) o.path ≡ true
marked-aged policy now os o h = rw h (marked-cons_self o.path _)

spared-young :
    (paths : List Bytes) (policy : RetentionPolicy) (now : ℤ) (os : List ObjectInfo)
    → ((p : Bytes)
        → marked (map (λ (x : ObjectInfo). x.path) (keep (is_aged policy now) os)) p ≡ true
        → marked paths p ≡ true)
    → spared paths os ≡ spared paths (keep (λ o. not (is_aged policy now o)) os)
spared-young paths policy now [] h = refl
spared-young paths policy now (o ∷ os) h =
    let later = spared-young paths policy now os in
    elim (Bool-cases (is_aged policy now o)) [
      | inl aged ↦ rw aged (
          omega (
            arith,
            spared-cons paths o os,
            zero_if (marked paths o.path) o.size (h o.path (marked-aged policy now os o aged)),
            later (λ p m. h p (rw aged (marked-cons o.path p _ m))),
          ))
      | inr young ↦ rw young (
          omega (
            arith,
            spared-cons paths o os,
            spared-cons paths o (keep (λ o. not (is_aged policy now o)) os),
            later (λ p m. h p (rw young m)),
          ))
    ]

-- What is left of a list is young, if the aged ones are in the set.
keep-young :
    (paths : List Bytes) (policy : RetentionPolicy) (now : ℤ) (os : List ObjectInfo)
    → ((p : Bytes)
        → marked (map (λ (x : ObjectInfo). x.path) (keep (is_aged policy now) os)) p ≡ true
        → marked paths p ≡ true)
    → All
        (λ o. is_aged policy now o ≡ false)
        (keep (λ (o : ObjectInfo). not (marked paths o.path)) os)
keep-young paths policy now [] h = tt
keep-young paths policy now (o ∷ os) h =
    let later = keep-young paths policy now os in
    elim (Bool-cases (is_aged policy now o)) [
      | inl aged ↦
          rw (h o.path (marked-aged policy now os o aged))
            (later (λ p m. h p (rw aged (marked-cons o.path p _ m))))
      | inr young ↦ ground (arith, young, later (λ p m. h p (rw young m)))
    ]

module _ (sort : List ObjectInfo → List ObjectInfo) (removes : Bytes → Bool) where
  candidates_aged :
      (objects : List ObjectInfo) (policy : RetentionPolicy) (now : ℤ) (p : Bytes)
      → marked (map (λ (x : ObjectInfo). x.path) (keep (is_aged policy now) objects)) p ≡ true
      → marked (cleanup_candidates sort removes objects policy now) p ≡ true
  unfolding cleanup_candidates
  candidates_aged objects policy now p m = elim (Bool-cases (ltb_ℤ (pos 0) policy.max_bytes)) [
    | inl limited ↦ rw limited (marked-append_left _ _ p m)
    | inr unlimited ↦ rw unlimited m
  ]

  cleanup_from-left :
      (paths : List Bytes) (os : List ObjectInfo) (r : CleanupResult)
      → ((p : Bytes) → removes p ≡ true)
      → (cleanup_from sort removes paths true os r).0
        ≡ keep (λ (o : ObjectInfo). not (marked paths o.path)) os
  unfolding cleanup_from visit
  cleanup_from-left paths [] r can = refl
  cleanup_from-left paths (o ∷ os) r can =
      ground
        (arith, can o.path, cleanup_from-left paths os (visit sort removes paths true o r).0 can)

  candidates_bound :
      (objects : List ObjectInfo) (policy : RetentionPolicy) (now : ℤ)
      → ((xs : List ObjectInfo) → Perm (sort xs) xs)
      → ltb_ℤ (pos 0) policy.max_bytes ≡ true
      → spared (cleanup_candidates sort removes objects policy now) objects
        ≤ pos_part policy.max_bytes
  unfolding cleanup_candidates
  candidates_bound objects policy now sorts limited =
      let aged = map (λ (o : ObjectInfo). o.path) (keep (is_aged policy now) objects) in
      let young = keep (λ o. not (is_aged policy now o)) objects in
      let most = pos_part policy.max_bytes in
      let oldest = mark_oldest most (total_size young) (sort young) in
      let paths = aged ++ oldest in
      let same = total_size-perm (sort young) young (sorts young) in
      rw limited (
        omega (
          arith,
          spared-young paths policy now objects (λ p m. marked-append_left aged oldest p m),
          spared-perm paths (sort young) young (sorts young),
          spared-mark_oldest paths most (sort young)
              (λ p m. marked-append_right aged oldest p (rw same at m)),
        ))

  -- If every removal succeeds, a confirmed `Cleanup` under a positive `MaxBytes` leaves at most
  -- `MaxBytes` bytes on the disk, for every order in which the sort leaves the objects.
  pub cleanup_bounded :
      (current now : ℤ) (policy : RetentionPolicy) (objects left : List ObjectInfo)
      (r : CleanupResult)
      → ((xs : List ObjectInfo) → Perm (sort xs) xs)
      → ((p : Bytes) → removes p ≡ true)
      → ltb_ℤ (pos 0) policy.max_bytes ≡ true
      → cleanup sort removes current
          (record { now = now; policy = policy; confirm = true })
          (ok objects)
        ≡ ok (left, r)
      → total_size left ≤ pos_part policy.max_bytes
  unfolding cleanup
  cleanup_bounded current now policy objects left r sorts can limited h =
      let at = if leb_ℤ now (pos 0) && leb_ℤ (pos 0) now then current else now in
      let paths = cleanup_candidates sort removes objects policy at in
      let gone = cleanup_from-left paths objects (zero_result false) can in
      let bound = candidates_bound objects policy at sorts limited in
      unfold spared in ground (arith, gone, bound)

  -- If every removal succeeds, a confirmed `Cleanup` at a time that is not zero leaves no object
  -- older than a positive `MaxAge`.
  cleanup_young :
      (current now : ℤ) (policy : RetentionPolicy) (objects left : List ObjectInfo)
      (r : CleanupResult)
      → ((p : Bytes) → removes p ≡ true)
      → (leb_ℤ now (pos 0) && leb_ℤ (pos 0) now) ≡ false
      → cleanup sort removes current
          (record { now = now; policy = policy; confirm = true })
          (ok objects)
        ≡ ok (left, r)
      → All (λ o. is_aged policy now o ≡ false) left
  unfolding cleanup
  cleanup_young current now policy objects left r can timed h =
      let paths = cleanup_candidates sort removes objects policy now in
      let gone = cleanup_from-left paths objects (zero_result false) can in
      let whole : left ≡ keep (λ (o : ObjectInfo). not (marked paths o.path)) objects =
        ground (arith, gone) in
      rw whole (keep-young paths policy now objects (λ p m. candidates_aged objects policy now p m))
