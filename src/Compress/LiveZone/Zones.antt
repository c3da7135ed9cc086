-- ===== src/Compress/LiveZone/Zones.antt =====
-- Which blocks of a request are selected.
use cachy.Base.{
  is_nil, ◌>>=◌, ℕ, ◌+◌, ◌≡◌, ◌≢◌, refl, Bool, true, false, List, [], ◌∷◌, ◌++◌, arith, Result, ok,
  err, All, All-append, Bool-cases, inl, inr,
}
use cachy.Text.{Bytes, codes, equal}
use cachy.Text.Ascii.{UnicodeTables}
use cachy.Tokens.{Error}
use cachy.Compress.Block.{
  Provider, openai, anthropic, other_provider, stable, live, tool_result, Block,
}
use cachy.Compress.LiveZone.{
  JsonDecoder, AnthropicRequest, Request, Message, Part, classify_source, new_block, openai_texts,
  openai_blocks, detect_openai, system_block, system_blocks, part_block, part_blocks,
  anthropic_blocks, detect_anthropic, detect_for, detect_live_zones, assign_block_ids,
  anthropic_part_text, anthropic_system_texts,
}

-- A block has a text. It is selected exactly if it is live, and exactly if it is a tool result, and
-- the others are stable.
pub record IsZoned (b : Block) : Type 0 where
  pub has_text : b.content ≢ []
  pub selected_is_live : b.selected ≡ true → (b.stability ≡ live) × (b.source ≡ tool_result)
  pub other_is_stable : b.selected ≡ false → (b.stability ≡ stable) × (b.source ≢ tool_result)

module _ (u : UnicodeTables) (j : JsonDecoder) where
  new_block-IsZoned :
      (p : Provider) (path role t : Bytes) → t ≢ [] → IsZoned (new_block u j p path role t)
  unfolding new_block classify_source
  new_block-IsZoned p path role t h = ground arith

  openai_texts-IsZoned :
      (role : Bytes) (i : ℕ) (several : Bool) (k : ℕ) (ts : List Bytes)
      → All IsZoned (openai_texts u j role i several k ts)
  unfolding openai_texts
  openai_texts-IsZoned role i several k [] = tt
  openai_texts-IsZoned role i several k ([] ∷ ts) = openai_texts-IsZoned role i several (k + 1) ts
  openai_texts-IsZoned role i several k ((c ∷ cs) ∷ ts) = (
    new_block-IsZoned openai _ role (c ∷ cs) (λ e. cc),
    openai_texts-IsZoned role i several (k + 1) ts,
  )

  openai_blocks-IsZoned : (i : ℕ) (ms : List Message) → All IsZoned (openai_blocks u j i ms)
  unfolding openai_blocks
  openai_blocks-IsZoned i [] = tt
  openai_blocks-IsZoned i (m ∷ ms) =
      All-append IsZoned _ _ (openai_texts-IsZoned m.role i _ 0 _)
        (openai_blocks-IsZoned (i + 1) ms)

  system_blocks-IsZoned : (ts : List Bytes) → All IsZoned (system_blocks u j ts)
  unfolding system_blocks system_block
  system_blocks-IsZoned [] = tt
  system_blocks-IsZoned ([] ∷ ts) = system_blocks-IsZoned ts
  system_blocks-IsZoned ((c ∷ cs) ∷ ts) = (
    record {
      has_text = λ e. cc;
      selected_is_live = λ e. cc;
      other_is_stable = λ e. (refl, λ f. cc);
    },
    system_blocks-IsZoned ts,
  )

  part_block-IsZoned :
      (role : Bytes) (i k : ℕ) (p : Part) (t : Bytes)
      → t ≢ []
      → IsZoned (part_block u j role i k p t)
  unfolding part_block
  part_block-IsZoned role i k p t h = elim (Bool-cases (equal p.kind (codes "tool_result"))) [
    | inl yes' ↦ rw yes' (unfold new_block in ground arith)
    | inr no' ↦ rw no' (new_block-IsZoned anthropic _ role t h)
  ]

  part_blocks-IsZoned :
      (role : Bytes) (i k : ℕ) (ps : List Part) → All IsZoned (part_blocks u j role i k ps)
  unfolding part_blocks
  part_blocks-IsZoned role i k [] = tt
  part_blocks-IsZoned role i k (p ∷ ps) =
      let t = anthropic_part_text u j p in
      elim (Bool-cases (is_nil t)) [
        | inl empty ↦ rw empty (part_blocks-IsZoned role i (k + 1) ps)
        | inr full ↦
            rw full
              (part_block-IsZoned role i k p t (λ e. cc), part_blocks-IsZoned role i (k + 1) ps)
      ]

  assign_block_ids-IsZoned :
      (i : ℕ) (bs : List Block) → All IsZoned bs → All IsZoned (assign_block_ids i bs)
  unfolding assign_block_ids
  assign_block_ids-IsZoned i [] h = tt
  assign_block_ids-IsZoned i (b ∷ bs) (h, hs) = (
    record {
      has_text = h.has_text;
      selected_is_live = h.selected_is_live;
      other_is_stable = h.other_is_stable;
    },
    assign_block_ids-IsZoned (i + 1) bs hs,
  )

  -- Of a call that succeeds.
  abbrev AllOf : Result Error (List Block) → Type 0
  AllOf (ok bs) = All IsZoned bs
  AllOf (err e) = Unit

  with_parts-IsZoned :
      (m : Message) (i : ℕ) (r : Result Error (List Part)) (later : Result Error (List Block))
      → AllOf later
      → AllOf (do ps ← r; rest ← later; ok (part_blocks u j m.role i 0 ps ++ rest))
  with_parts-IsZoned m i (err e) later h = tt
  with_parts-IsZoned m i (ok ps) (err e) h = tt
  with_parts-IsZoned m i (ok ps) (ok rest) h =
      All-append IsZoned _ rest (part_blocks-IsZoned m.role i 0 ps) h

  anthropic_blocks-IsZoned : (i : ℕ) (ms : List Message) → AllOf (anthropic_blocks u j i ms)
  unfolding anthropic_blocks
  anthropic_blocks-IsZoned i [] = tt
  anthropic_blocks-IsZoned i (m ∷ ms) =
      with_parts-IsZoned m i _ _ (anthropic_blocks-IsZoned (i + 1) ms)

  number-IsZoned :
      (front : List Block) (r : Result Error (List Block))
      → All IsZoned front
      → AllOf r
      → AllOf (do bs ← r; ok (assign_block_ids 0 (front ++ bs)))
  number-IsZoned front (err e) hf h = tt
  number-IsZoned front (ok bs) hf h =
      assign_block_ids-IsZoned 0 _ (All-append IsZoned front bs hf h)

  openai-IsZoned :
      (r : Result Error (List Message))
      → AllOf (do ms ← r; ok (assign_block_ids 0 (openai_blocks u j 0 ms)))
  openai-IsZoned (err e) = tt
  openai-IsZoned (ok ms) = assign_block_ids-IsZoned 0 _ (openai_blocks-IsZoned 0 ms)

  anthropic-IsZoned :
      (r : Result Error AnthropicRequest)
      → AllOf (do
        request ← r
        blocks ← anthropic_blocks u j 0 request.messages
        ok (
            assign_block_ids 0
              (system_blocks u j (anthropic_system_texts u j request.request_system) ++ blocks)))
  anthropic-IsZoned (err e) = tt
  anthropic-IsZoned (ok q) =
      number-IsZoned _ _ (system_blocks-IsZoned _) (anthropic_blocks-IsZoned 0 q.messages)

  detect_for-AllOf : (p : Provider) (body : Bytes) → AllOf (detect_for u j p body)
  unfolding detect_for detect_openai detect_anthropic
  detect_for-AllOf openai body = openai-IsZoned (j.openai_messages body)
  detect_for-AllOf anthropic body = anthropic-IsZoned (j.anthropic_request body)
  detect_for-AllOf (other_provider p) body = tt

  -- Every block that `DetectLiveZones` returns has a text. Where it is selected it is live and a
  -- tool result, and where it is not it is stable and no tool result.
  pub detect_live_zones-IsZoned :
      (q : Request) (bs : List Block) → detect_live_zones u j q ≡ ok bs → All IsZoned bs
  unfolding detect_live_zones
  detect_live_zones-IsZoned q bs h = rw h at (detect_for-AllOf q.provider q.body)
