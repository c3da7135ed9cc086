-- ===== src/Compress/Pipeline/Attempted.antt =====
-- What one compressor makes of a block: internal/compress/pipeline.go, evaluateProposal and the body of
-- the loop over the compressors.
use cachy.Base.{
  if◌then◌else◌, sym, ◌⊎◌, ◌≡◌, ◌≢◌, refl, inl, inr, true, false, Option, none, some, List, [], ◌∷◌,
  arith, Result, ok, err, ◌>>=◌, Bool-cases,
}
use cachy.Text.{Bytes}
use cachy.Text.Utf8.{valid}
use cachy.Text.Ascii.{UnicodeTables}
use cachy.Tokens.{Error, Savings, savings}
use cachy.Compress.Block.{Block}
use cachy.Compress.Pipeline.{
  no_savings, Pipeline, Proposal, Compressor, Decision, applied_reason, proposal_text, judge,
  evaluate_text, evaluate_proposal, settle, attempt,
}

module _ (u : UnicodeTables) (p : Pipeline) where
  -- The text is valid UTF-8, and the counters find it shorter in tokens than the block's text.
  abbrev pub Saves : Block → Bytes → Savings → Type 0
  Saves b t s =
      (valid t ≡ true)
      × (savings u (some p.counters) p.provider_model b.content t ≡ ok s)
      × (s.improved ≡ true)

  -- The text that a compressor proposes.
  abbrev proposed : Proposal → Bytes
  proposed q = elim q.bytes [ none ↦ q.text | some bytes ↦ bytes ]

  -- The compressor proposes the text for the block, and it saves.
  abbrev pub Offers : Block → Compressor → Bytes → Savings → Type 0
  Offers b c t s = (q : Proposal) × (c b ≡ ok q) × (proposed q ≡ t) × Saves b t s

  abbrev pub NoOffer : Block → Compressor → Type 0
  NoOffer b c = (t : Bytes) (s : Savings) → ¬ Offers b c t s

  -- The text is that of the first compressor whose proposal saves.
  abbrev pub FirstOffers : Block → List Compressor → Bytes → Savings → Type 0
  FirstOffers b [] t s = ⊥
  FirstOffers b (c ∷ cs) t s = Offers b c t s ⊎ (NoOffer b c × FirstOffers b cs t s)

  -- What one compressor makes of a decision.
  abbrev pub Attempted : Block → Compressor → Decision × Option Bytes → Type 0
  Attempted b c (d, some t) =
      (d.applied ≡ true) × (d.reason ≡ applied_reason) × Offers b c t d.savings
  Attempted b c (d, none) = (d.applied ≡ false) × (d.reason ≢ applied_reason) × NoOffer b c

  module _ (b : Block) (c : Compressor) (d : Decision) (open_yet : d.applied ≡ false) where
    offered_text :
        (q : Proposal) (t : Bytes) (s : Savings)
        → c b ≡ ok q
        → Offers b c t s
        → (proposed q ≡ t) × Saves b t s
    offered_text q t s given (q', given', is_text, saves) =
        let same : q' ≡ q = cc (given, given') in (rw same at is_text, saves)

    no_offer :
        (q : Proposal) → c b ≡ ok q → ((s : Savings) → ¬ Saves b (proposed q) s) → NoOffer b c
    no_offer q given bad t s offer =
        let (is_text, saves) = offered_text q t s given offer in bad s (rw (sym is_text) at saves)

    settle-better :
        (t : Bytes) (s : Savings)
        → s.improved ≡ true
        → settle u p d (judge u p t (ok s))
          ≡ (record d { savings = s; applied = true; reason = applied_reason }, some t)
    unfolding judge settle
    settle-better t s better = ground (arith, better)

    settle-worse :
        (t : Bytes) (s : Savings)
        → s.improved ≡ false
        → settle u p d (judge u p t (ok s)) ≡ (record d { savings = s; reason = no_savings }, none)
    unfolding judge settle
    settle-worse t s worse = ground (arith, worse)

    judge-Attempted :
        (q : Proposal) (r : Result Error Savings)
        → c b ≡ ok q
        → valid (proposed q) ≡ true
        → savings u (some p.counters) p.provider_model b.content (proposed q) ≡ r
        → Attempted b c (settle u p d (judge u p (proposed q) r))
    unfolding judge settle
    judge-Attempted q (err e) given v saved =
        (open_yet, (λ r. cc r), no_offer q given (λ s saves. cc (saved, saves.1)))
    judge-Attempted q (ok s) given v saved = elim (Bool-cases s.improved) [
      | inl better ↦
          rw (settle-better (proposed q) s better)
            (refl, refl, (q, given, refl, (v, saved, better)))
      | inr worse ↦ rw (settle-worse (proposed q) s worse) (
        open_yet,
        (λ r. cc r),
        no_offer q given (λ s' saves. cc (saved, worse, saves.1, saves.2)),
      )
    ]

    invalid-Attempted :
        (q : Proposal)
        → c b ≡ ok q
        → valid (proposed q) ≡ false
        → Attempted b c (settle u p d (evaluate_text u p b none))
    unfolding evaluate_text settle
    invalid-Attempted q given bad =
        (open_yet, (λ r. cc r), no_offer q given (λ s saves. cc (bad, saves.0)))

    proposal_text-proposed :
        (q : Proposal) → proposal_text q ≡ (if valid (proposed q) then some (proposed q) else none)
    unfolding proposal_text
    proposal_text-proposed q = ground arith

    evaluate-Attempted :
        (q : Proposal) → c b ≡ ok q → Attempted b c (settle u p d (evaluate_proposal u p b q))
    unfolding evaluate_proposal evaluate_text
    evaluate-Attempted q given =
        rw (proposal_text-proposed q) (elim (Bool-cases (valid (proposed q))) [
          | inl v ↦ rw v (judge-Attempted q _ given v refl)
          | inr bad ↦ rw bad (invalid-Attempted q given bad)
        ])

    propose-Attempted :
        (r : Result Error Proposal)
        → c b ≡ r
        → Attempted b c (settle u p d (do q ← r; evaluate_proposal u p b q))
    unfolding settle
    propose-Attempted (ok q) given = evaluate-Attempted q given
    propose-Attempted (err e) given = (open_yet, (λ r. cc r), (λ t s offer. cc (given, offer.1)))

    pub attempt-Attempted : Attempted b c (attempt u p b c d)
    unfolding attempt
    attempt-Attempted = propose-Attempted (c b) refl
