-- ===== src/Compress/Tests.antt =====
-- Runs of the pipeline, the native compressors and the detection of live zones.
use cachy.Base.{ok, ◌≡◌, refl, true, false, ◌≤◌, none, some, List, [], ◌∷◌, length, keep, err}
use cachy.Text.{equal, codes}
use cachy.Text.Ascii.{plain_tables}
use cachy.Tokens.{ProviderModel, new_counter_set}
use cachy.Compress.Block.{
  is_live, other_stability, other_content, openai, stable, live, log, Block, tool_result,
}
use cachy.Compress.Pipeline.{Compressor, PipelineOptions, Pipeline, new_pipeline, apply}
use cachy.Compress.Pipeline.Outcome.{AllSafe, apply-AllSafe}
use cachy.Compress.Native.Collapse.{collapse_adjacent}
use cachy.Compress.Native.Collapse.Runs.{
  Run, items, AllRuns, AreMaximal, shown, collapse_adjacent-runs,
}
use cachy.Compress.Native.Diff.{
  compress_diff, flush_omitted, omitted_note, keep_diff_line, compress_lines, keep-compress_lines,
}
use cachy.Compress.Native.Dispatch.{native}

abbrev no_model : ProviderModel
no_model = record { provider = []; model = [] }

abbrev lines : Block
lines = record {
  id = codes "b1";
  provider = openai;
  path = [];
  role = codes "tool";
  source = tool_result;
  stability = live;
  content_type = log;
  content =
      codes
        "one two three\none two three\none two three\none two three\none two three\none two three";
  selected = true;
}

abbrev typed : Block
typed = record lines { id = codes "b2"; stability = stable; selected = false }

abbrev failing : Compressor
failing b = err (codes "no wasm")

abbrev compressing : Compressor
compressing b = native (λ t. none) b

abbrev options : PipelineOptions
options = record {
  compressor = some compressing;
  compressors = failing ∷ compressing ∷ [];
  counters = none;
  provider_model = no_model;
}

abbrev pipeline : Pipeline
pipeline = record {
  compressors = failing ∷ compressing ∷ [];
  counters = record { exact_counters = [] };
  provider_model = no_model;
}

new_pipeline_run : new_pipeline options ≡ pipeline
unfolding new_pipeline new_counter_set
new_pipeline_run = refl

apply-AllSafe_example :
    AllSafe plain_tables pipeline
      (lines ∷ typed ∷ [])
      (apply plain_tables pipeline (lines ∷ typed ∷ [])).blocks
      (apply plain_tables pipeline (lines ∷ typed ∷ [])).decisions
apply-AllSafe_example = apply-AllSafe plain_tables pipeline (lines ∷ typed ∷ [])

collapse_adjacent-runs_example :
    (rs : List Run) × (items rs ≡ codes "a" ∷ codes "a" ∷ codes "b" ∷ [])
    × AllRuns (λ l. l) (codes "lines") rs
    × AreMaximal (λ l. l) (codes "lines") [] rs
    × (collapse_adjacent (λ l. l) (codes "lines") (codes "a" ∷ codes "a" ∷ codes "b" ∷ [])
        ≡ shown (λ l. l) (codes "lines") rs)
    × (length (collapse_adjacent (λ l. l) (codes "lines") (codes "a" ∷ codes "a" ∷ codes "b" ∷ []))
        ≤ 3)
collapse_adjacent-runs_example =
    collapse_adjacent-runs (λ l. l) (codes "lines") (codes "a" ∷ codes "a" ∷ codes "b" ∷ [])

keep-compress_lines_example :
    keep keep_diff_line (compress_lines 0 (codes "+a" ∷ codes " b" ∷ codes " c" ∷ codes "-d" ∷ []))
    ≡ keep keep_diff_line (codes "+a" ∷ codes " b" ∷ codes " c" ∷ codes "-d" ∷ [])
keep-compress_lines_example =
    keep-compress_lines 0 (codes "+a" ∷ codes " b" ∷ codes " c" ∷ codes "-d" ∷ [])

compress_diff_run :
    compress_diff (codes "+a\n b\n c\n-d") ≡ codes "+a\n[2 diff context lines omitted]\n-d"
unfolding compress_diff flush_omitted omitted_note
compress_diff_run = refl

native_run :
    native (λ t. none) (record lines { content_type = other_content (codes "xml") })
    ≡ ok (record { text = lines.content; bytes = none })
unfolding native
native_run = refl

is_live_run : is_live (other_stability (codes "live")) ≡ true
unfolding is_live equal
is_live_run = refl
