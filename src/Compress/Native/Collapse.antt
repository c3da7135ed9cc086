-- ===== src/Compress/Native/Collapse.antt =====
-- `collapseAdjacent` and `collapseBlankRuns`, and the compressors of texts, logs and code.
pub mod Runs
pub mod Blanks
mod Tests
use cachy.Base.{
  ℕ, zero, suc, ◌+◌, ◌-◌, Bool, true, false, not, ◌&&◌, List, [], ◌∷◌, ◌++◌, ltb, if◌then◌else◌,
  is_nil,
}
use cachy.Text.{Bytes, codes, equal, split, join}
use cachy.Text.Space.{trim_space, fields}
use cachy.Text.Decimal.{print_nat}

-- fmt.Sprintf("[repeated %d %s omitted]", omitted, label)
pub repeated_note : ℕ → Bytes → Bytes
unfolding print_nat
repeated_note omitted label =
    codes "[repeated " ++ (print_nat omitted ++ (codes " " ++ (label ++ codes " omitted]")))

module _ (key : Bytes → Bytes) (label : Bytes) where
  -- How many items in front have the key `k`: what `repeats` counts beyond 1.
  pub followers : Bytes → List Bytes → ℕ
  followers k [] = 0
  followers k (y ∷ ys) =
      let more = suc (followers k ys) in if not (is_nil k) && equal (key y) k then more else 0

  -- The loop of `collapseAdjacent`; `skip` counts the items of the last run still to be passed over.
  pub collapse_from : ℕ → List Bytes → List Bytes
  collapse_from skip [] = []
  collapse_from (suc k) (x ∷ xs) = collapse_from k xs
  collapse_from zero (x ∷ xs) =
      let n = followers (key x) xs in
      x ∷ ((if ltb 1 (1 + n) then repeated_note n label ∷ [] else []) ++ collapse_from n xs)

  pub collapse_adjacent : List Bytes → List Bytes
  collapse_adjacent = collapse_from 0

abbrev newline : Bytes
newline = codes "\n"

pub compress_repeated_lines : Bytes → Bytes
unfolding collapse_adjacent split join trim_space
compress_repeated_lines text =
    join (collapse_adjacent trim_space (codes "identical log lines") (split text newline)) newline

pub compress_repeated_paragraphs : Bytes → Bytes
unfolding collapse_adjacent split join fields
compress_repeated_paragraphs text =
    join
      (collapse_adjacent (λ p. join (fields p) (codes " ")) (codes "identical text blocks")
        (split text (codes "\n\n")))
      (codes "\n\n")

pub is_blank : Bytes → Bool
is_blank line = is_nil (trim_space line)

-- The loop of `collapseBlankRuns`; the flag is its variable `blank`.
pub collapse_blanks : Bool → List Bytes → List Bytes
collapse_blanks blank [] = []
collapse_blanks blank (l ∷ ls) = elim (is_blank l) [
  | true ↦ (let rest = collapse_blanks true ls in if blank then rest else l ∷ rest)
  | false ↦ l ∷ collapse_blanks false ls
]

pub collapse_blank_runs : List Bytes → List Bytes
collapse_blank_runs = collapse_blanks false

pub compress_code : Bytes → Bytes
unfolding collapse_adjacent collapse_blank_runs split join trim_space
compress_code text =
    join
      (collapse_blank_runs (
        collapse_adjacent (λ l. if is_nil (trim_space l) then [] else trim_space l)
          (codes "identical code lines") (split text newline)))
      newline
