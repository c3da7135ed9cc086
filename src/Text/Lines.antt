-- ===== src/Text/Lines.antt =====
-- Where a word can stand in a text: inside a line, and behind what does not begin with its first byte.
use cachy.Base.{
  ℕ, ◌≡◌, refl, ◌∙◌, Bool, true, false, not, ◌&&◌, ◌||◌, none, some, [], ◌∷◌, ◌++◌, arith, ◌==◌,
  all, is_nil,
}
use cachy.Text.Strings.{Bytes, has_prefix, contains, find, has_prefix-append, contains-find}

-- A word that is not empty and has no line feed.
abbrev pub is_word : Bytes → Bool
is_word m = not (is_nil m) && all (λ c. not (c == 10)) m

has_prefix-line :
    (a b m : Bytes)
    → all (λ c. not (c == 10)) m ≡ true
    → has_prefix (a ++ 10 ∷ b) m ≡ has_prefix a m
unfolding has_prefix
has_prefix-line [] b [] h = refl
has_prefix-line [] b (p ∷ ps) h = ground arith
has_prefix-line (c ∷ a) b [] h = refl
has_prefix-line (c ∷ a) b (p ∷ ps) h = ground (arith, has_prefix-line a b ps)

-- A word stands in two lines if it stands in one of them.
pub contains-line :
    (a b m : Bytes) → is_word m ≡ true → contains (a ++ 10 ∷ b) m ≡ (contains a m || contains b m)
unfolding contains has_prefix
contains-line [] b [] h = cc
contains-line [] b (p ∷ ps) h = ground arith
contains-line (c ∷ a) b [] h = cc
contains-line (c ∷ a) b (p ∷ ps) h =
    ground (arith, has_prefix-line (c ∷ a) b (p ∷ ps), contains-line a b (p ∷ ps))

-- The first place of a word that is not in the lines before.
pub find-line :
    (a b m : Bytes)
    → is_word m ≡ true
    → contains a m ≡ false
    → find (a ++ 10 ∷ b) m
      ≡ elim (find b m) [ none ↦ none | some (before, rest) ↦ some (a ++ 10 ∷ before, rest) ]
unfolding contains find has_prefix
find-line [] b [] h no_a = cc h
find-line [] b (p ∷ ps) h no_a = ground arith
find-line (c ∷ a) b [] h no_a = cc h
find-line (c ∷ a) b (p ∷ ps) h no_a =
    ground (arith, has_prefix-line (c ∷ a) b (p ∷ ps), find-line a b (p ∷ ps))

pub find_self : (m s : Bytes) → find (m ++ s) m ≡ some ([], m ++ s)
unfolding find has_prefix
find_self [] [] = refl
find_self [] (c ∷ s) = refl
find_self (p ∷ ps) s = ground (arith, has_prefix-append (p ∷ ps) s)

-- Behind bytes that are not its first one, a word stands where it stood.
pub contains-skip :
    (a s : Bytes) (p : ℕ) (ps : Bytes)
    → all (λ c. not (c == p)) a ≡ true
    → contains (a ++ s) (p ∷ ps) ≡ contains s (p ∷ ps)
unfolding contains has_prefix
contains-skip [] s p ps h = refl
contains-skip (c ∷ a) s p ps h = ground (arith, contains-skip a s p ps)

pub contains-append : (a b m : Bytes) → contains b m ≡ true → contains (a ++ b) m ≡ true
unfolding contains
contains-append [] b m h = h
contains-append (c ∷ a) b m h = rw (contains-append a b m h) (ground arith)

pub contains_self : (m s : Bytes) → contains (m ++ s) m ≡ true
contains_self m s = contains-find (m ++ s) m ∙ rw (find_self m s)

has_prefix-longer : (a b m : Bytes) → has_prefix a m ≡ true → has_prefix (a ++ b) m ≡ true
unfolding has_prefix
has_prefix-longer a b [] h = refl
has_prefix-longer [] b (p ∷ ps) h = cc
has_prefix-longer (c ∷ a) b (p ∷ ps) h = ground (arith, has_prefix-longer a b ps)

has_prefix-nil : (s : Bytes) → has_prefix s [] ≡ true
unfolding has_prefix
has_prefix-nil s = refl

pub contains-prefix : (a b m : Bytes) → contains a m ≡ true → contains (a ++ b) m ≡ true
unfolding contains
contains-prefix [] [] m h = h
contains-prefix [] (c ∷ b) [] h = ground (arith, has_prefix-nil (c ∷ b))
contains-prefix [] b (p ∷ ps) h = cc
contains-prefix (c ∷ a) b m h = ground (arith, has_prefix-longer (c ∷ a) b m, contains-prefix a b m)
