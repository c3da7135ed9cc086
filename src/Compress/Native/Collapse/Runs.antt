-- ===== src/Compress/Native/Collapse/Runs.antt =====
-- What `collapseAdjacent` keeps of a list.
use cachy.Base.{
  false, not, ◌&&◌, is_nil, ℕ, zero, suc, ◌≤◌, ◌≡◌, ◌≢◌, refl, ap, sym, ◌∙◌, List, [], ◌∷◌, ◌++◌,
  arith, ltb, if◌then◌else◌, length, take, drop, All, take-append-drop, length-append, length-take,
}
use cachy.Text.{equal, Bytes, equal_iff}
use cachy.Compress.Native.Collapse.{followers, collapse_from, collapse_adjacent, repeated_note}

-- An item and the items behind it that are left out.
pub record Run : Type 0 where
  pub head : Bytes
  pub omitted : List Bytes

-- All the items of some runs, in order.
abbrev pub items : List Run → List Bytes
items [] = []
items (r ∷ rs) = r.head ∷ (r.omitted ++ items rs)

module _ (key : Bytes → Bytes) (label : Bytes) where
  -- The omitted items have the key of the head, which is not empty if there are any.
  pub record IsRun (r : Run) : Type 0 where
    pub same_key : All (λ y. key y ≡ key r.head) r.omitted
    pub key_ne_nil : r.omitted ≢ [] → key r.head ≢ []

  abbrev pub AllRuns : List Run → Type 0
  AllRuns [] = Unit
  AllRuns (r ∷ rs) = IsRun r × AllRuns rs

  -- Each head, followed by a note with the number of omitted items if there are any.
  abbrev pub shown : List Run → List Bytes
  shown [] = []
  shown (r ∷ rs) =
      let rest = shown rs in
      r.head
      ∷ ((if ltb 0 (length r.omitted) then repeated_note (length r.omitted) label ∷ [] else [])
          ++ rest)

  -- An item with the key of `y` does not go on the run of the key `k`.
  abbrev Stops : Bytes → Bytes → Type 0
  Stops k y = (not (is_nil k) && equal (key y) k) ≡ false

  -- No run could be longer: the next one starts with another key, or the key is empty. The run in
  -- front of the list has the key `k`.
  abbrev pub AreMaximal : Bytes → List Run → Type 0
  AreMaximal k [] = Unit
  AreMaximal k (r ∷ rs) = Stops k r.head × AreMaximal (key r.head) rs

  followers-le : (k : Bytes) (xs : List Bytes) → followers key label k xs ≤ length xs
  unfolding followers
  followers-le k [] = omega arith
  followers-le k (y ∷ ys) = ground (arith, followers-le k ys)

  followers-same :
      (k : Bytes) (xs : List Bytes) → All (λ y. key y ≡ k) (take (followers key label k xs) xs)
  unfolding followers
  followers-same k [] = tt
  followers-same k (y ∷ ys) = ground (arith, followers-same k ys, equal_iff (key y) k)

  followers-nil : (xs : List Bytes) → followers key label [] xs ≡ 0
  unfolding followers
  followers-nil [] = refl
  followers-nil (y ∷ ys) = refl

  collapse_from-drop :
      (n : ℕ) (xs : List Bytes)
      → collapse_from key label n xs ≡ collapse_from key label 0 (drop n xs)
  unfolding collapse_from
  collapse_from-drop zero xs = refl
  collapse_from-drop (suc n) [] = refl
  collapse_from-drop (suc n) (x ∷ xs) = collapse_from-drop n xs

  -- The runs that the loop finds, by the same recursion.
  runs_from : ℕ → List Bytes → List Run
  runs_from skip [] = []
  runs_from (suc k) (x ∷ xs) = runs_from k xs
  runs_from zero (x ∷ xs) =
      let n = followers key label (key x) xs in
      record { head = x; omitted = take n xs } ∷ runs_from n xs

  items-runs_from : (n : ℕ) (xs : List Bytes) → items (runs_from n xs) ≡ drop n xs
  unfolding runs_from
  items-runs_from zero [] = refl
  items-runs_from (suc n) [] = refl
  items-runs_from (suc n) (x ∷ xs) = items-runs_from n xs
  items-runs_from zero (x ∷ xs) =
      let n = followers key label (key x) xs in
      ap (λ (t : List Bytes). x ∷ t)
        (ap (λ (t : List Bytes). take n xs ++ t) (items-runs_from n xs) ∙ take-append-drop n xs)

  followers-IsRun :
      (x : Bytes) (xs : List Bytes)
      → IsRun (record { head = x; omitted = take (followers key label (key x) xs) xs })
  followers-IsRun x xs = record {
    same_key = followers-same (key x) xs;
    key_ne_nil = λ ne e. ne (rw (e, followers-nil xs));
  }

  runs_from-AllRuns : (n : ℕ) (xs : List Bytes) → AllRuns (runs_from n xs)
  unfolding runs_from
  runs_from-AllRuns zero [] = tt
  runs_from-AllRuns (suc n) [] = tt
  runs_from-AllRuns (suc n) (x ∷ xs) = runs_from-AllRuns n xs
  runs_from-AllRuns zero (x ∷ xs) =
      (followers-IsRun x xs, runs_from-AllRuns (followers key label (key x) xs) xs)

  abbrev StopsAt : Bytes → List Bytes → Type 0
  StopsAt k [] = Unit
  StopsAt k (y ∷ ys) = Stops k y

  followers-StopsAt : (k : Bytes) (xs : List Bytes) → StopsAt k (drop (followers key label k xs) xs)
  unfolding followers
  followers-StopsAt k [] = tt
  followers-StopsAt k (y ∷ ys) = ground (arith, followers-StopsAt k ys)

  runs_from-AreMaximal :
      (k : Bytes) (n : ℕ) (xs : List Bytes) → StopsAt k (drop n xs) → AreMaximal k (runs_from n xs)
  unfolding runs_from
  runs_from-AreMaximal k zero [] h = tt
  runs_from-AreMaximal k (suc n) [] h = tt
  runs_from-AreMaximal k (suc n) (x ∷ xs) h = runs_from-AreMaximal k n xs h
  runs_from-AreMaximal k zero (x ∷ xs) h = (
    h,
    runs_from-AreMaximal (key x) (followers key label (key x) xs) xs (followers-StopsAt (key x) xs),
  )

  nil-StopsAt : (xs : List Bytes) → StopsAt [] xs
  nil-StopsAt [] = tt
  nil-StopsAt (x ∷ xs) = refl

  length-followers :
      (k : Bytes) (xs : List Bytes)
      → length (take (followers key label k xs) xs) ≡ followers key label k xs
  length-followers k xs =
      omega (arith, length-take (followers key label k xs) xs, followers-le k xs)

  shown-runs_from :
      (n : ℕ) (xs : List Bytes) → shown (runs_from n xs) ≡ collapse_from key label n xs
  unfolding runs_from collapse_from
  shown-runs_from zero [] = refl
  shown-runs_from (suc n) [] = refl
  shown-runs_from (suc n) (x ∷ xs) = shown-runs_from n xs
  shown-runs_from zero (x ∷ xs) =
      let n = followers key label (key x) xs in
      ground (arith, length-followers (key x) xs, shown-runs_from n xs)

  length-shown : (rs : List Run) → length (shown rs) ≤ length (items rs)
  length-shown [] = omega arith
  length-shown (r ∷ rs) = ground (arith, length-shown rs, length-append r.omitted (items rs))

  -- `collapseAdjacent` cuts the list into runs of items with one key, which is not empty in a run of
  -- two or more, each as long as can be, and shows of each run its first item and, if there are
  -- more, a note with their exact number. The result has no more items than the list.
  pub collapse_adjacent-runs :
      (xs : List Bytes)
      → (rs : List Run) × (items rs ≡ xs)
        × AllRuns rs
        × AreMaximal [] rs
        × (collapse_adjacent key label xs ≡ shown rs)
        × (length (collapse_adjacent key label xs) ≤ length xs)
  unfolding collapse_adjacent
  collapse_adjacent-runs xs =
      let rs = runs_from 0 xs in
      let whole : items rs ≡ xs = items-runs_from 0 xs in
      let same : collapse_from key label 0 xs ≡ shown rs = sym (shown-runs_from 0 xs) in
      (
        rs,
        whole,
        runs_from-AllRuns 0 xs,
        runs_from-AreMaximal [] 0 xs (nil-StopsAt xs),
        same,
        rw same (omega (arith, length-shown rs, ap (λ (t : List Bytes). length t) whole)),
      )
