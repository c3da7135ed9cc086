-- ===== src/Compress/LiveZone.antt =====
-- internal/compress/livezone.go: the blocks of a request, and which of them may be compressed.
-- encoding/json is a parameter: each field of `JsonDecoder` is one call of it.
pub mod Classify
pub mod Zones
mod Tests
use cachy.Base.{
  ℕ, ◌+◌, Bool, true, false, not, ◌&&◌, ◌||◌, Option, none, some, List, [], ◌∷◌, ◌++◌, ltb,
  if◌then◌else◌, is_nil, length, keep, map, Result, ok, err, ◌>>=◌,
}
use cachy.Text.{Bytes, codes, equal, join}
use cachy.Text.Decimal.{print_nat}
use cachy.Text.Ascii.{UnicodeTables}
use cachy.Tokens.{Error}
use cachy.Compress.Block.{
  Provider, openai, anthropic, other_provider, Stability, stable, live, Source, system,
  user_message, assistant_message, tool_result, ContentType, text, Block,
}
use cachy.Compress.LiveZone.Classify.{classify_content}

-- A message, with its undecoded content; an empty one is a missing field.
pub record Message : Type 0 where
  pub role : Bytes
  pub content : Bytes

pub record Part : Type 0 where
  pub kind : Bytes
  pub part_text : Bytes
  pub part_content : Bytes

pub record AnthropicRequest : Type 0 where
  pub request_system : Bytes
  pub messages : List Message

pub record JsonDecoder : Type 0 where
  pub openai_messages : Bytes → Result Error (List Message)
  pub anthropic_request : Bytes → Result Error AnthropicRequest
  pub string_value : Bytes → Result Error Bytes
  pub parts : Bytes → Result Error (List Part)
  pub json_valid : Bytes → Bool

pub record Request : Type 0 where
  pub provider : Provider
  pub body : Bytes

pub classify_source : Bytes → Source × Stability × Bool
classify_source role =
    if equal role (codes "system") || equal role (codes "developer")
    then (system, stable, false)
    else if equal role (codes "assistant")
    then (assistant_message, stable, false)
    else if equal role (codes "tool")
    then (tool_result, live, true)
    else (user_message, stable, false)

-- The texts of the parts that have one.
part_texts : List Part → List Bytes
part_texts [] = []
part_texts (p ∷ ps) =
    let rest = part_texts ps in if is_nil p.part_text then rest else p.part_text ∷ rest

-- fmt.Sprintf("$.messages[%d].content", i), and the same with a part's index and field
pub content_path : ℕ → Bytes
content_path i = codes "$.messages[" ++ (print_nat i ++ codes "].content")

part_path : ℕ → ℕ → Bytes → Bytes
part_path i j field = content_path i ++ (codes "[" ++ (print_nat j ++ (codes "]." ++ field)))

pub block_id : ℕ → Bytes
block_id index = codes "block_" ++ print_nat (index + 1)

-- `assignBlockIDs`, from an index on
pub assign_block_ids : ℕ → List Block → List Block
assign_block_ids i [] = []
assign_block_ids i (b ∷ bs) = record b { id = block_id i } ∷ assign_block_ids (i + 1) bs

module _ (u : UnicodeTables) (j : JsonDecoder) where
  pub new_block : Provider → Bytes → Bytes → Bytes → Block
  new_block provider path role content =
      let (source, stability, selected) = classify_source role in
      record {
        id = [];
        provider = provider;
        path = path;
        role = role;
        source = source;
        stability = stability;
        content_type = classify_content u j.json_valid content;
        content = content;
        selected = selected;
      }

  pub openai_content_text : Bytes → List Bytes
  openai_content_text raw = elim (j.string_value raw) [
    | ok t ↦ t ∷ []
    | err _ ↦ elim (j.parts raw) [ ok ps ↦ part_texts ps | err _ ↦ [] ]
  ]

  -- The inner loop of `detectOpenAI`, from the index `k` of the text; `several` is `len(texts) > 1`.
  pub openai_texts : Bytes → ℕ → Bool → ℕ → List Bytes → List Block
  openai_texts role i several k [] = []
  openai_texts role i several k (t ∷ ts) =
      let rest = openai_texts role i several (k + 1) ts in
      let path = if several then part_path i k (codes "text") else content_path i in
      if is_nil t then rest else new_block openai path role t ∷ rest

  pub openai_blocks : ℕ → List Message → List Block
  openai_blocks i [] = []
  openai_blocks i (m ∷ ms) =
      let texts = openai_content_text m.content in
      openai_texts m.role i (ltb 1 (length texts)) 0 texts ++ openai_blocks (i + 1) ms

  pub detect_openai : Bytes → Result Error (List Block)
  detect_openai body = do
    messages ← j.openai_messages body
    ok (assign_block_ids 0 (openai_blocks 0 messages))

  pub anthropic_system_texts : Bytes → List Bytes
  anthropic_system_texts raw = if is_nil raw then [] else elim (j.string_value raw) [
    | ok t ↦ t ∷ []
    | err _ ↦ elim (j.parts raw) [ ok ps ↦ part_texts ps | err _ ↦ [] ]
  ]

  anthropic_content_parts : Bytes → Result Error (List Part)
  anthropic_content_parts raw = elim (j.string_value raw) [
    | ok t ↦ ok (record { kind = codes "text"; part_text = t; part_content = [] } ∷ [])
    | err _ ↦ j.parts raw
  ]

  pub anthropic_part_text : Part → Bytes
  anthropic_part_text p =
      if not (is_nil p.part_text)
      then p.part_text
      else if is_nil p.part_content
      then []
      else elim (j.string_value p.part_content) [
        | ok t ↦ t
        | err _ ↦ elim (j.parts p.part_content) [
          | ok ps ↦ join (part_texts ps) (codes "\n")
          | err _ ↦ p.part_content
        ]
      ]

  pub system_block : Bytes → Block
  system_block t = record {
    id = codes "block_1";
    provider = anthropic;
    path = codes "$.system";
    role = codes "system";
    source = system;
    stability = stable;
    content_type = text;
    content = t;
    selected = false;
  }

  pub system_blocks : List Bytes → List Block
  system_blocks [] = []
  system_blocks (t ∷ ts) =
      let rest = system_blocks ts in if is_nil t then rest else system_block t ∷ rest

  -- One round of the inner loop of `detectAnthropic`, for a text that is not empty.
  pub part_block : Bytes → ℕ → ℕ → Part → Bytes → Block
  part_block role i k p t =
      if equal p.kind (codes "tool_result")
      then record (new_block anthropic (part_path i k (codes "content")) role t) {
        source = tool_result;
        stability = live;
        selected = true;
        content_type = classify_content u j.json_valid t;
      }
      else new_block anthropic (part_path i k (codes "text")) role t

  pub part_blocks : Bytes → ℕ → ℕ → List Part → List Block
  part_blocks role i k [] = []
  part_blocks role i k (p ∷ ps) =
      let rest = part_blocks role i (k + 1) ps in
      let t = anthropic_part_text p in if is_nil t then rest else part_block role i k p t ∷ rest

  pub anthropic_blocks : ℕ → List Message → Result Error (List Block)
  anthropic_blocks i [] = ok []
  anthropic_blocks i (m ∷ ms) = do
    ps ← anthropic_content_parts m.content
    rest ← anthropic_blocks (i + 1) ms
    ok (part_blocks m.role i 0 ps ++ rest)

  pub detect_anthropic : Bytes → Result Error (List Block)
  detect_anthropic body = do
    request ← j.anthropic_request body
    blocks ← anthropic_blocks 0 request.messages
    ok (
        assign_block_ids 0
          (system_blocks (anthropic_system_texts request.request_system) ++ blocks))

  pub detect_for : Provider → Bytes → Result Error (List Block)
  detect_for openai body = detect_openai body
  detect_for anthropic body = detect_anthropic body
  detect_for (other_provider p) body = err (codes "unsupported provider")

  pub detect_live_zones : Request → Result Error (List Block)
  detect_live_zones request = detect_for request.provider request.body
