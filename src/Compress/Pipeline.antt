-- ===== src/Compress/Pipeline.antt =====
-- internal/compress/pipeline.go. A compressor is a function from a block to a proposal or an error;
-- `none` in `Proposal.bytes` is a nil slice.
pub mod Attempted
pub mod Outcome
use cachy.Base.{
  ℕ, ◌+◌, Bool, true, false, not, ◌&&◌, ◌||◌, Option, none, some, List, [], ◌∷◌, if◌then◌else◌,
  Result, ok, err, ◌>>=◌,
}
use cachy.Base.Int.{ℤ, pos, ◌+ℤ◌, wrap64}
use cachy.Text.{Bytes, codes}
use cachy.Text.Utf8.{valid}
use cachy.Text.Ascii.{UnicodeTables}
use cachy.Tokens.{Error, ProviderModel, Count, Savings, CounterSet, savings, new_counter_set}
use cachy.Compress.Block.{Block, is_live}

pub data DecisionReason : Type 0 where
  unset applied_reason not_selected no_savings invalid_utf8 compressor_error : DecisionReason

pub record Proposal : Type 0 where
  pub text : Bytes
  pub bytes : Option Bytes

abbrev pub Compressor : Type 0
Compressor = Block → Result Error Proposal

pub record PipelineOptions : Type 0 where
  pub compressor : Option Compressor
  pub compressors : List Compressor
  pub counters : Option CounterSet
  pub provider_model : ProviderModel

pub record Pipeline : Type 0 where
  pub compressors : List Compressor
  pub counters : CounterSet
  pub provider_model : ProviderModel

pub record Decision : Type 0 where
  pub block_id : Bytes
  pub applied : Bool
  pub reason : DecisionReason
  pub savings : Savings
  pub error : Option Error

pub record PipelineStats : Type 0 where
  pub applied : ℕ
  pub skipped : ℕ
  pub token_delta : ℤ

pub record PipelineResult : Type 0 where
  pub blocks : List Block
  pub decisions : List Decision
  pub stats : PipelineStats

only_compressor : List Compressor → Option Compressor → List Compressor
only_compressor [] (some c) = c ∷ []
only_compressor cs _ = cs

unfoldable pub new_pipeline : PipelineOptions → Pipeline
unfolding only_compressor new_counter_set
new_pipeline options = record {
  compressors = only_compressor options.compressors options.compressor;
  counters = elim options.counters [ none ↦ new_counter_set | some s ↦ s ];
  provider_model = options.provider_model;
}

-- The value `tokens.Savings{}`.
abbrev no_count : Count
no_count = record { tokens = pos 0; exact = false; method = [] }

abbrev zero_savings : Savings
zero_savings = record { original = no_count; proposed = no_count; delta = pos 0; improved = false }

-- `none` where the code returns `"", false`
pub proposal_text : Proposal → Option Bytes
proposal_text p = elim p.bytes [
  | some b ↦ if valid b then some b else none
  | none ↦ if valid p.text then some p.text else none
]

pub record Evaluation : Type 0 where
  pub text : Bytes
  pub savings : Savings
  pub reason : DecisionReason

abbrev is_applied : DecisionReason → Bool
is_applied applied_reason = true
is_applied _ = false

-- `decision.Reason == ""`
require_reason : DecisionReason → Decision → Decision
require_reason unset d = record d {
  reason = compressor_error;
  error = some (codes "compressor is required");
}
require_reason _ d = d

pub tally : PipelineStats → Decision → PipelineStats
tally stats d =
    if d.applied
    then record stats {
      applied = stats.applied + 1;
      token_delta = wrap64 (stats.token_delta +ℤ d.savings.delta);
    }
    else record stats { skipped = stats.skipped + 1 }

abbrev pub zero_stats : PipelineStats
zero_stats = record { applied = 0; skipped = 0; token_delta = pos 0 }

-- `Decision{BlockID: block.ID}`
abbrev pub first_decision : Block → Decision
first_decision block = record {
  block_id = block.id;
  applied = false;
  reason = unset;
  savings = zero_savings;
  error = none;
}

-- What follows the loop over the compressors.
pub conclude : Block → Decision × Option Bytes → Block × Decision
unfolding require_reason
conclude block (d, none) = (block, require_reason d.reason d)
conclude block (d, some t) = (record block { content = t }, require_reason d.reason d)

-- The tables of package `unicode` are a parameter, which the estimator of token counts reads.
module _ (u : UnicodeTables) (p : Pipeline) where
  judge : Bytes → Result Error Savings → Result Error Evaluation
  judge text (err e) = err e
  judge text (ok s) = ok (record {
    text = text;
    savings = s;
    reason = if not s.improved then no_savings else applied_reason;
  })

  evaluate_text : Block → Option Bytes → Result Error Evaluation
  unfolding judge
  evaluate_text block none =
      ok (record { text = []; savings = zero_savings; reason = invalid_utf8 })
  evaluate_text block (some text) =
      judge text (savings u (some p.counters) p.provider_model block.content text)

  pub evaluate_proposal : Block → Proposal → Result Error Evaluation
  unfolding evaluate_text
  evaluate_proposal block proposal = evaluate_text block (proposal_text proposal)

  -- The body of the loop over the compressors, after `evaluateProposal`: the decision so far, and
  -- the block's new text if the loop breaks.
  pub settle : Decision → Result Error Evaluation → Decision × Option Bytes
  settle d (err e) = (record d { reason = compressor_error; error = some e }, none)
  settle d (ok ev) =
      if is_applied ev.reason
      then (
        record d { savings = ev.savings; applied = true; reason = applied_reason },
        some ev.text,
      )
      else (record d { savings = ev.savings; reason = ev.reason }, none)

  pub attempt : Block → Compressor → Decision → Decision × Option Bytes
  unfolding settle
  attempt block c d = settle d (do proposal ← c block; evaluate_proposal block proposal)

  pub try_compressors : Block → List Compressor → Decision → Decision × Option Bytes
  try_compressors block [] d = (d, none)
  try_compressors block (c ∷ cs) d =
      let (d', text) = attempt block c d in
      elim text [ some t ↦ (d', some t) | none ↦ try_compressors block cs d' ]

  -- One round of the loop over the blocks: the block and the decision at its index.
  pub apply_block : Block → Block × Decision
  apply_block block =
      if not block.selected || not (is_live block.stability)
      then (block, record (first_decision block) { reason = not_selected })
      else conclude block (try_compressors block p.compressors (first_decision block))

  pub apply_from : PipelineStats → List Block → PipelineResult
  unfolding tally
  apply_from stats [] = record { blocks = []; decisions = []; stats = stats }
  apply_from stats (b ∷ bs) =
      let (b', d) = apply_block b in
      let rest = apply_from (tally stats d) bs in
      record { blocks = b' ∷ rest.blocks; decisions = d ∷ rest.decisions; stats = rest.stats }

  -- Pipeline.Apply, whose error is always nil
  pub apply : List Block → PipelineResult
  unfolding apply_from
  apply = apply_from zero_stats
