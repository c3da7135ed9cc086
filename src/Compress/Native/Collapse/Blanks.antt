-- ===== src/Compress/Native/Collapse/Blanks.antt =====
-- What `collapseBlankRuns` keeps of a list of lines.
use cachy.Base.{◌≡◌, refl, Bool, true, false, not, ◌&&◌, List, [], ◌∷◌, arith, keep}
use cachy.Text.{Bytes}
use cachy.Compress.Native.Collapse.{is_blank, collapse_blanks, collapse_blank_runs}

-- No two lines next to each other are blank; the flag says that a blank line stands in front.
abbrev pub NoBlankPair : Bool → List Bytes → Type 0
NoBlankPair blank [] = Unit
NoBlankPair blank (l ∷ ls) = ((blank && is_blank l) ≡ false) × NoBlankPair (is_blank l) ls

collapse_blanks-NoBlankPair :
    (blank : Bool) (ls : List Bytes) → NoBlankPair blank (collapse_blanks blank ls)
unfolding collapse_blanks
collapse_blanks-NoBlankPair blank [] = tt
collapse_blanks-NoBlankPair blank (l ∷ ls) =
    ground (arith, collapse_blanks-NoBlankPair true ls, collapse_blanks-NoBlankPair false ls)

collapse_blanks-lines :
    (blank : Bool) (ls : List Bytes)
    → keep (λ l. not (is_blank l)) (collapse_blanks blank ls) ≡ keep (λ l. not (is_blank l)) ls
unfolding collapse_blanks
collapse_blanks-lines blank [] = refl
collapse_blanks-lines blank (l ∷ ls) =
    ground (arith, collapse_blanks-lines true ls, collapse_blanks-lines false ls)

collapse_blanks_id :
    (blank : Bool) (ls : List Bytes) → NoBlankPair blank ls → collapse_blanks blank ls ≡ ls
unfolding collapse_blanks
collapse_blanks_id blank [] h = refl
collapse_blanks_id blank (l ∷ ls) h =
    ground (arith, collapse_blanks_id true ls, collapse_blanks_id false ls)

-- `collapseBlankRuns` leaves no two blank lines next to each other, keeps every line that is not
-- blank, in order, and changes nothing when it is applied again.
collapse_blank_runs_lem :
    (ls : List Bytes)
    → NoBlankPair false (collapse_blank_runs ls)
      × (keep (λ l. not (is_blank l)) (collapse_blank_runs ls) ≡ keep (λ l. not (is_blank l)) ls)
      × (collapse_blank_runs (collapse_blank_runs ls) ≡ collapse_blank_runs ls)
unfolding collapse_blank_runs
collapse_blank_runs_lem ls = (
  collapse_blanks-NoBlankPair false ls,
  collapse_blanks-lines false ls,
  collapse_blanks_id false (collapse_blanks false ls) (collapse_blanks-NoBlankPair false ls),
)
