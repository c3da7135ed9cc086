-- ===== src/Compress/Pipeline/Outcome.antt =====
-- What the pipeline may do to a block, and what its decisions say.
use cachy.Base.{
  All, ◌+◌, ◌≡◌, ◌≢◌, refl, inl, inr, true, false, not, Option, none, some, List, [], ◌∷◌, ◌++◌,
  arith, ◌||◌, length, keep, Bool-cases,
}
use cachy.Text.{Bytes}
use cachy.Text.Ascii.{UnicodeTables}
use cachy.Compress.Block.{Block, is_live}
use cachy.Compress.Pipeline.Attempted.{NoOffer, FirstOffers, Attempted, attempt-Attempted}
use cachy.Compress.Pipeline.{
  Pipeline, Compressor, Decision, PipelineStats, unset, applied_reason, attempt, try_compressors,
  conclude, apply_block, tally, apply_from, apply, first_decision, zero_stats,
}

module _ (u : UnicodeTables) (p : Pipeline) where
  -- What a decision and the block's text to be may be after some compressors were tried.
  abbrev Outcome : Block → List Compressor → Decision × Option Bytes → Type 0
  Outcome b cs (d, some t) =
      (d.applied ≡ true) × (d.reason ≡ applied_reason) × FirstOffers u p b cs t d.savings
  Outcome b cs (d, none) =
      (d.applied ≡ false) × (d.reason ≢ applied_reason) × All (NoOffer u p b) cs

  after :
      (b : Block) (c : Compressor) (cs : List Compressor) (x : Decision × Option Bytes)
      → NoOffer u p b c
      → Outcome b cs x
      → Outcome b (c ∷ cs) x
  after b c cs (d, some t) no_offer (applied, reason, first) =
      (applied, reason, inr (no_offer, first))
  after b c cs (d, none) no_offer (applied, reason, none_offers) =
      (applied, reason, (no_offer, none_offers))

  -- The loop breaks at `x`, or goes on.
  next-Outcome :
      (b : Block) (c : Compressor) (cs : List Compressor) (x : Decision × Option Bytes)
      → Attempted u p b c x
      → ((d : Decision)
          → d.applied ≡ false
          → d.reason ≢ applied_reason
          → Outcome b cs (try_compressors u p b cs d))
      → Outcome b
          (c ∷ cs)
          (elim x.1 [ some t ↦ (x.0, some t) | none ↦ try_compressors u p b cs x.0 ])
  next-Outcome b c cs (d, some t) (applied, reason, offers) later = (applied, reason, inl offers)
  next-Outcome b c cs (d, none) (applied, reason, no_offer) later =
      after b c cs (try_compressors u p b cs d) no_offer (later d applied reason)

  try_compressors-Outcome :
      (b : Block) (cs : List Compressor) (d : Decision)
      → d.applied ≡ false
      → d.reason ≢ applied_reason
      → Outcome b cs (try_compressors u p b cs d)
  unfolding try_compressors
  try_compressors-Outcome b [] d n r = (n, r, tt)
  try_compressors-Outcome b (c ∷ cs) d n r =
      next-Outcome b c cs (attempt u p b c d) (attempt-Attempted u p b c d n)
        (try_compressors-Outcome b cs)

  -- What `Apply` may make of a block, and what it says of it.
  pub record IsSafe (b b' : Block) (d : Decision) : Type 0 where
    pub same_but_content : b' ≡ record b { content = b'.content }
    pub changed_only_if_applied : d.applied ≡ false → b' ≡ b
    pub applied_only_if_eligible :
        d.applied ≡ true → (b.selected ≡ true) × (is_live b.stability ≡ true)
    pub applied_only_if_saving :
        d.applied ≡ true → FirstOffers u p b p.compressors b'.content d.savings
    pub skipped_only_if_none :
        b.selected ≡ true
        → is_live b.stability ≡ true
        → d.applied ≡ false
        → All (NoOffer u p b) p.compressors
    pub reason_if_applied : d.applied ≡ true → d.reason ≡ applied_reason
    pub reason_otherwise : d.applied ≡ false → (d.reason ≢ applied_reason) × (d.reason ≢ unset)

  conclude-IsSafe :
      (b : Block) (x : Decision × Option Bytes)
      → b.selected ≡ true
      → is_live b.stability ≡ true
      → Outcome b p.compressors x
      → IsSafe b (conclude b x).0 (conclude b x).1
  unfolding conclude
  conclude-IsSafe b (d, some t) sel liv h = ground arith
  conclude-IsSafe b (d, none) sel liv h = ground arith

  apply_block-IsSafe : (b : Block) → IsSafe b (apply_block u p b).0 (apply_block u p b).1
  unfolding apply_block
  apply_block-IsSafe b = elim (Bool-cases (not b.selected || not (is_live b.stability))) [
    | inl skip ↦ rw skip (ground arith)
    | inr eligible ↦ rw eligible (
        conclude-IsSafe b _ (ground arith) (ground arith)
          (try_compressors-Outcome b p.compressors (first_decision b) refl (λ e. cc)))
  ]

  -- The blocks, the blocks of the result and its decisions, index by index.
  abbrev pub AllSafe : List Block → List Block → List Decision → Type 0
  AllSafe [] [] [] = Unit
  AllSafe (b ∷ bs) (b' ∷ bs') (d ∷ ds) = IsSafe b b' d × AllSafe bs bs' ds
  AllSafe _ _ _ = ⊥

  apply_from-AllSafe :
      (bs : List Block) (stats : PipelineStats)
      → AllSafe bs (apply_from u p stats bs).blocks (apply_from u p stats bs).decisions
  unfolding apply_from
  apply_from-AllSafe [] stats = tt
  apply_from-AllSafe (b ∷ bs) stats = (apply_block-IsSafe b, apply_from-AllSafe bs _)

  -- `Apply` returns one block and one decision for each block. A block keeps every field but its
  -- text. Its text changes only if the block is selected and live, and it is then the proposal of the
  -- first compressor that proposes valid UTF-8 which the counters find shorter in tokens; the decision
  -- is `applied`. A selected live block whose decision is not `applied` is one for which no compressor
  -- proposes such a text. A decision that is not `applied` gives another reason.
  pub apply-AllSafe : (bs : List Block) → AllSafe bs (apply u p bs).blocks (apply u p bs).decisions
  unfolding apply
  apply-AllSafe bs = apply_from-AllSafe bs _

  apply_from-stats :
      (bs : List Block) (stats : PipelineStats)
      → let r = apply_from u p stats bs in
        (r.stats.applied ≡ stats.applied + length (keep (λ (d : Decision). d.applied) r.decisions))
        × (r.stats.applied + r.stats.skipped ≡ stats.applied + stats.skipped + length bs)
  unfolding apply_from tally
  apply_from-stats [] stats = omega arith
  apply_from-stats (b ∷ bs) stats =
      ground (arith, apply_from-stats bs (tally stats (apply_block u p b).1))

  -- The statistics of `Apply` count the applied decisions, and every other block as skipped.
  pub apply-stats :
      (bs : List Block)
      → let r = apply u p bs in
        (r.stats.applied ≡ length (keep (λ (d : Decision). d.applied) r.decisions))
        × (r.stats.applied + r.stats.skipped ≡ length bs)
  unfolding apply
  apply-stats bs = omega (arith, apply_from-stats bs zero_stats)

  -- Compressors that stand later in the list are asked only if no earlier proposal was applied, and
  -- then from the decision that the earlier ones left.
  try_compressors-append :
      (b : Block) (cs later : List Compressor) (d : Decision)
      → try_compressors u p b (cs ++ later) d ≡ (
          let x = try_compressors u p b cs d in
          elim x.1 [ some t ↦ (x.0, some t) | none ↦ try_compressors u p b later x.0 ])
  unfolding try_compressors
  try_compressors-append b [] later d = refl
  try_compressors-append b (c ∷ cs) later d =
      ground (arith, try_compressors-append b cs later (attempt u p b c d).0)
