-- ===== src/Text/Strings.antt =====
-- Byte strings: literals, equality, prefixes and suffixes, and the searches of package `strings`.
use Prim.Native.Char.{code}
use Prim.Native.String.{String}
use cachy.Base.{
  length-append, ℕ, zero, suc, ◌-◌, ◌≡◌, refl, ap, ◌↔◌, Bool, true, false, ◌&&◌, ◌||◌, Option, none,
  some, List, [], ◌∷◌, ◌++◌, arith, ◌==◌, if◌then◌else◌, length, drop, take, is_nil,
}

abbrev pub Bytes : Type 0
Bytes = List ℕ

-- The code points of a literal; these are its bytes, since every literal used is ASCII.
abbrev pub codes : String → Bytes
codes String.[] = []
codes (String.◌∷◌ c s) = code c ∷ codes s

-- s == t on strings
unfoldable pub equal : Bytes → Bytes → Bool
equal [] [] = true
equal [] (d ∷ t) = false
equal (c ∷ s) [] = false
equal (c ∷ s) (d ∷ t) = c == d && equal s t

pub equal_iff : (s t : Bytes) → (equal s t ≡ true) ↔ (s ≡ t)
unfolding equal
equal_iff [] [] = ((λ h. refl), (λ h. refl))
equal_iff [] (d ∷ t) = ((λ h. cc h), (λ h. cc h))
equal_iff (c ∷ s) [] = ((λ h. cc h), (λ h. cc h))
equal_iff (c ∷ s) (d ∷ t) = ground (arith, equal_iff s t)

pub equal_refl : (s : Bytes) → equal s s ≡ true
equal_refl s = (equal_iff s s).1 refl

-- strings.HasPrefix
unfoldable pub has_prefix : Bytes → Bytes → Bool
has_prefix s [] = true
has_prefix [] (p ∷ ps) = false
has_prefix (c ∷ cs) (p ∷ ps) = c == p && has_prefix cs ps

-- strings.TrimPrefix
unfoldable pub trim_prefix : Bytes → Bytes → Bytes
unfolding has_prefix
trim_prefix s p = if has_prefix s p then drop (length p) s else s

-- strings.HasSuffix
unfoldable pub has_suffix : Bytes → Bytes → Bool
unfolding equal
has_suffix [] p = is_nil p
has_suffix (c ∷ cs) p = equal (c ∷ cs) p || has_suffix cs p

-- strings.TrimSuffix
unfoldable pub trim_suffix : Bytes → Bytes → Bytes
unfolding has_suffix
trim_suffix s p = if has_suffix s p then take (length s - length p) s else s

-- strings.Contains
unfoldable pub contains : Bytes → Bytes → Bool
unfolding has_prefix
contains [] sub = is_nil sub
contains (c ∷ cs) sub = has_prefix (c ∷ cs) sub || contains cs sub

-- The text before the first `sub`, and the text from there on; strings.Index is the length of the
-- first part.
unfoldable pub find : Bytes → Bytes → Option (Bytes × Bytes)
unfolding has_prefix
find [] sub = if is_nil sub then some ([], []) else none
find (c ∷ cs) sub = elim (has_prefix (c ∷ cs) sub) [
  | true ↦ some ([], c ∷ cs)
  | false ↦ elim (find cs sub) [ none ↦ none | some (before, rest) ↦ some (c ∷ before, rest) ]
]

-- strings.Cut
unfoldable pub cut : Bytes → Bytes → Option (Bytes × Bytes)
unfolding find
cut s sep = elim (find s sep) [
  | none ↦ none
  | some (before, rest) ↦ some (before, drop (length sep) rest)
]

-- strings.Split with a separator that is not empty; `skip` counts the bytes of a separator that
-- are still to be passed over, and `cur` is the part being read.
unfoldable pub split_from : Bytes → ℕ → Bytes → Bytes → List Bytes
unfolding has_prefix
split_from sep skip [] cur = cur ∷ []
split_from sep (suc k) (c ∷ cs) cur = split_from sep k cs cur
split_from sep zero (c ∷ cs) cur = elim (has_prefix (c ∷ cs) sep) [
  | true ↦ cur ∷ split_from sep (length sep - 1) cs []
  | false ↦ split_from sep zero cs (cur ++ c ∷ [])
]

unfoldable pub split : Bytes → Bytes → List Bytes
unfolding split_from
split s sep = split_from sep 0 s []

-- strings.Join
unfoldable pub join : List Bytes → Bytes → Bytes
join [] sep = []
join (x ∷ []) sep = x
join (x ∷ y ∷ ys) sep = x ++ sep ++ join (y ∷ ys) sep

-- strings.TrimLeft and TrimRight, with the test for the cutset
unfoldable pub trim_left : (ℕ → Bool) → Bytes → Bytes
trim_left p [] = []
trim_left p (c ∷ cs) = let rest = trim_left p cs in if p c then rest else c ∷ cs

unfoldable pub trim_right : (ℕ → Bool) → Bytes → Bytes
trim_right p [] = []
trim_right p (c ∷ cs) = let rest = trim_right p cs in if is_nil rest && p c then [] else c ∷ rest

pub find-some :
    (s sub before rest : Bytes)
    → find s sub ≡ some (before, rest)
    → (s ≡ before ++ rest) × (has_prefix rest sub ≡ true)
unfolding find has_prefix
find-some [] [] before rest h = ground arith
find-some [] (p ∷ ps) before rest h = ground arith
find-some (c ∷ cs) sub [] rest h = ground arith
find-some (c ∷ cs) sub (b ∷ before) rest h = ground (arith, find-some cs sub before rest)

-- Where `find` finds nothing, `contains` does not either, and conversely.
pub contains-find :
    (s sub : Bytes) → contains s sub ≡ elim (find s sub) [ none ↦ false | some _ ↦ true ]
unfolding contains find
contains-find [] sub = ground arith
contains-find (c ∷ cs) sub = ground (arith, contains-find cs sub)

pub has_prefix-append : (p s : Bytes) → has_prefix (p ++ s) p ≡ true
unfolding has_prefix
has_prefix-append [] s = refl
has_prefix-append (x ∷ p) s = ground (arith, has_prefix-append p s)

pub drop-append : (p s : Bytes) → drop (length p) (p ++ s) ≡ s
drop-append [] s = refl
drop-append (x ∷ p) s = drop-append p s

pub take-append : (p s : Bytes) → take (length p) (p ++ s) ≡ p
take-append [] s = refl
take-append (x ∷ p) s = ap (◌∷◌ x) (take-append p s)

pub has_suffix-append : (s p : Bytes) → has_suffix (s ++ p) p ≡ true
unfolding has_suffix
has_suffix-append [] [] = refl
has_suffix-append [] (x ∷ p) = rw equal_refl
has_suffix-append (c ∷ s) p = ground (arith, has_suffix-append s p)

pub trim_prefix-append : (p s : Bytes) → trim_prefix (p ++ s) p ≡ s
unfolding trim_prefix
trim_prefix-append p s = rw (has_prefix-append p s) (drop-append p s)

pub trim_suffix-append : (s p : Bytes) → trim_suffix (s ++ p) p ≡ s
unfolding trim_suffix
trim_suffix-append s p =
    let shorter : length (s ++ p) - length p ≡ length s = omega (arith, length-append s p) in
    rw (has_suffix-append s p) (rw shorter (take-append s p))
