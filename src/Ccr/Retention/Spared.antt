-- ===== src/Ccr/Retention/Spared.antt =====
-- The bytes that a set of paths spares, and what the second loop of `cleanupCandidates` leaves.
use mathlib.Core.List.{Perm, Permᴰ}
use mathlib.Core.Logic.{∥∥₁_elim}
use native.Mathlib.Nat.{ℕ_set}
use cachy.Base.{
  ◌≤◌, false, if◌then◌else◌, ℕ, ◌+◌, ◌-◌, ◌≡◌, refl, sym, ◌∙◌, Bool, true, not, List, [], ◌∷◌, ◌++◌,
  arith, leb, leb→le, keep, Bool-cases, inl, inr,
}
use cachy.Text.{Bytes, equal_refl}
use cachy.Ccr.Retention.{ObjectInfo, total_size, marked, mark_oldest}

-- The bytes of the objects whose path is not in the set.
unfoldable pub spared : List Bytes → List ObjectInfo → ℕ
spared paths os = total_size (keep (λ (o : ObjectInfo). not (marked paths o.path)) os)

pub spared-cons :
    (paths : List Bytes) (o : ObjectInfo) (os : List ObjectInfo)
    → spared paths (o ∷ os) ≡ (if marked paths o.path then 0 else o.size) + spared paths os
unfolding spared total_size
spared-cons paths o os = ground arith

spared-permᴰ :
    (paths : List Bytes) {xs ys : List ObjectInfo} → Permᴰ xs ys → spared paths xs ≡ spared paths ys
spared-permᴰ paths Permᴰ.nil = refl
spared-permᴰ paths (Permᴰ.cons {a} {b} {l₁} {l₂} e p) =
    rw e (omega (arith, spared-cons paths b l₁, spared-cons paths b l₂, spared-permᴰ paths p))
spared-permᴰ paths (Permᴰ.swap {a} {b} {a'} {b'} {l} e f) = rw e (
    rw f (
      omega (
        arith,
        spared-cons paths b' (a' ∷ l),
        spared-cons paths a' l,
        spared-cons paths a' (b' ∷ l),
        spared-cons paths b' l,
      )))
spared-permᴰ paths (Permᴰ.trans p q) = spared-permᴰ paths p ∙ spared-permᴰ paths q

pub spared-perm :
    (paths : List Bytes) (xs ys : List ObjectInfo) → Perm xs ys → spared paths xs ≡ spared paths ys
spared-perm paths xs ys p =
    ∥∥₁_elim p (ℕ_set (spared paths xs) (spared paths ys)) (spared-permᴰ paths)

total_size-spared : (os : List ObjectInfo) → total_size os ≡ spared [] os
unfolding spared total_size marked
total_size-spared [] = refl
total_size-spared (o ∷ os) = omega (arith, total_size-spared os)

pub total_size-perm : (xs ys : List ObjectInfo) → Perm xs ys → total_size xs ≡ total_size ys
total_size-perm xs ys p = total_size-spared xs ∙ spared-perm [] xs ys p ∙ sym (total_size-spared ys)

-- A marked object counts for nothing.
pub zero_if : (b : Bool) (n : ℕ) → b ≡ true → (if b then 0 else n) ≡ 0
zero_if b n h = ground arith

pub marked-append_left :
    (xs ys : List Bytes) (p : Bytes) → marked xs p ≡ true → marked (xs ++ ys) p ≡ true
unfolding marked
marked-append_left [] ys p h = cc
marked-append_left (x ∷ xs) ys p h = ground (arith, marked-append_left xs ys p)

pub marked-append_right :
    (xs ys : List Bytes) (p : Bytes) → marked ys p ≡ true → marked (xs ++ ys) p ≡ true
unfolding marked
marked-append_right [] ys p h = h
marked-append_right (x ∷ xs) ys p h = ground (arith, marked-append_right xs ys p h)

spared-le : (paths : List Bytes) (os : List ObjectInfo) → spared paths os ≤ total_size os
unfolding spared total_size
spared-le paths [] = omega arith
spared-le paths (o ∷ os) = ground (arith, spared-le paths os)

mark_oldest-cons :
    (most : ℕ) (o : ObjectInfo) (os : List ObjectInfo)
    → leb (total_size (o ∷ os)) most ≡ false
    → mark_oldest most (total_size (o ∷ os)) (o ∷ os) ≡ o.path ∷ mark_oldest most (total_size os) os
unfolding mark_oldest
mark_oldest-cons most o os h =
    let smaller : total_size (o ∷ os) - o.size ≡ total_size os = unfold total_size in omega arith in
    rw (h, smaller)

pub marked-cons_self : (p : Bytes) (ps : List Bytes) → marked (p ∷ ps) p ≡ true
unfolding marked
marked-cons_self p ps = ground (arith, equal_refl p)

pub marked-cons : (q p : Bytes) (ps : List Bytes) → marked ps p ≡ true → marked (q ∷ ps) p ≡ true
unfolding marked
marked-cons q p ps h = ground arith

-- What the second loop leaves of a list in its order, if its paths are in the set.
pub spared-mark_oldest :
    (paths : List Bytes) (most : ℕ) (os : List ObjectInfo)
    → ((p : Bytes) → marked (mark_oldest most (total_size os) os) p ≡ true → marked paths p ≡ true)
    → spared paths os ≤ most
spared-mark_oldest paths most [] h = unfold spared total_size in omega arith
spared-mark_oldest paths most (o ∷ os) h =
    let go_on = spared-mark_oldest paths most os in
    elim (Bool-cases (leb (total_size (o ∷ os)) most)) [
      | inl fits ↦ omega (arith, leb→le (total_size (o ∷ os)) most fits, spared-le paths (o ∷ os))
      | inr over ↦
          let first = mark_oldest-cons most o os over in
          let rest = mark_oldest most (total_size os) os in
          let marks = λ (p : Bytes) (m : marked (o.path ∷ rest) p ≡ true). h p (rw first m) in
          ground (
            arith,
            spared-cons paths o os,
            marks o.path (marked-cons_self o.path rest),
            go_on (λ p m. marks p (marked-cons o.path p rest m)),
          )
    ]
