-- ===== src/Compress/Native/Diff.antt =====
-- `compressDiff`.
use cachy.Base.{
  ℕ, ◌+◌, ◌≡◌, ap, ◌∙◌, Bool, true, false, ◌||◌, List, [], ◌∷◌, ◌++◌, arith, ltb, if◌then◌else◌,
  is_nil, keep, sym, append-nil,
}
use cachy.Text.{Bytes, codes, has_prefix, split, join}
use cachy.Text.Space.{trim_space}
use cachy.Text.Decimal.{print_nat}

pub keep_diff_line : Bytes → Bool
unfolding has_prefix
keep_diff_line line =
    has_prefix line (codes "diff --git ")
    || has_prefix line (codes "index ")
    || has_prefix line (codes "--- ")
    || has_prefix line (codes "+++ ")
    || has_prefix line (codes "@@ ")
    || has_prefix line (codes "+")
    || has_prefix line (codes "-")

-- fmt.Sprintf("[%d diff context lines omitted]", omitted)
unfoldable pub omitted_note : ℕ → Bytes
unfolding print_nat
omitted_note omitted = codes "[" ++ (print_nat omitted ++ codes " diff context lines omitted]")

-- What `flushOmitted` appends.
unfoldable pub flush_omitted : ℕ → List Bytes
flush_omitted omitted =
    if ltb 0 omitted then (if ltb 1 omitted then omitted_note omitted ∷ [] else []) else []

-- The loop of `compressDiff`, from the number of omitted lines.
pub compress_lines : ℕ → List Bytes → List Bytes
compress_lines omitted [] = flush_omitted omitted
compress_lines omitted (l ∷ ls) = elim (keep_diff_line l) [
  | true ↦ flush_omitted omitted ++ l ∷ compress_lines 0 ls
  | false ↦ compress_lines (if is_nil (trim_space l) then omitted else omitted + 1) ls
]

unfoldable pub compress_diff : Bytes → Bytes
unfolding compress_lines keep_diff_line trim_space split join
compress_diff text = join (compress_lines 0 (split text (codes "\n"))) (codes "\n")

keep-flush_omitted :
    (n : ℕ) (rest : List Bytes)
    → keep keep_diff_line (flush_omitted n ++ rest) ≡ keep keep_diff_line rest
unfolding flush_omitted keep_diff_line omitted_note
keep-flush_omitted n rest = ground arith

-- `compressDiff` works on the lines of the text; every line that marks a change or a header stays,
-- in order, and no other line of its output looks like one.
pub keep-compress_lines :
    (n : ℕ) (ls : List Bytes) → keep keep_diff_line (compress_lines n ls) ≡ keep keep_diff_line ls
unfolding compress_lines
keep-compress_lines n [] =
    ap (keep keep_diff_line) (sym (append-nil (flush_omitted n))) ∙ keep-flush_omitted n []
keep-compress_lines n (l ∷ ls) = ground (
  arith,
  keep-flush_omitted n (l ∷ compress_lines 0 ls),
  keep-compress_lines 0 ls,
  keep-compress_lines n ls,
  keep-compress_lines (n + 1) ls,
)
