-- ===== src/Install/Codex/Present.antt =====
-- What a text has after an installation.
use cachy.Base.{true, Bool-cases, inl, inr, ◌≡◌, ap, [], ◌∷◌, ◌++◌, All, is_nil, ok}
use cachy.Text.{Bytes, codes, contains, trim_right}
use cachy.Text.Lines.{contains-append}
use cachy.Install.{Tools}
use cachy.Install.Codex.{
  CodexOptions, is_line_end, managed_codex_begin, managed_codex_end, append_block,
  render_codex_managed_block, has_top_level_model_provider, remove_managed_block, plan_codex_config,
}
use cachy.Install.Codex.Block.{contains-block}
use cachy.Install.Codex.Removed.{Installs, plan-Installs, with_block}

contains-append_block :
    (s block m : Bytes) → contains block m ≡ true → contains (append_block s block) m ≡ true
unfolding append_block
contains-append_block s block m h = elim (Bool-cases (is_nil (trim_right is_line_end s))) [
  | inl blank ↦ rw blank h
  | inr some_text ↦ rw some_text (
      contains-append (trim_right is_line_end s) (codes "\n\n" ++ block) m
        (contains-append (codes "\n\n") block m h))
]

-- Both markers and the settings of the provider.
abbrev pub HasBlock : Bytes → Type 0
HasBlock text =
    (contains text managed_codex_begin ≡ true)
    × (contains text managed_codex_end ≡ true)
    × All (λ m. contains text m ≡ true)
        (codes "[model_providers.cachy]"
          ∷ codes "base_url ="
          ∷ codes "env_key = \"OPENAI_API_KEY\""
          ∷ codes "wire_api = \"responses\""
          ∷ [])

with_block-has : (t : Tools) (url s : Bytes) → HasBlock (with_block t url s).0
with_block-has t url s =
    let preserve = has_top_level_model_provider s in
    let block = render_codex_managed_block t url preserve in
    let (first, last, all) = contains-block t url preserve in
    let there = contains-append_block s block in
    (
      there managed_codex_begin first,
      there managed_codex_end last,
      (there _ all.0, (there _ all.1.0, (there _ all.1.1.0, (there _ all.1.1.1.0, tt)))),
    )

pub plan-HasBlock :
    (t : Tools) (text : Bytes) (options : CodexOptions) (next message : Bytes)
    → Installs options.action
    → plan_codex_config t text options ≡ ok (next, message)
    → HasBlock next
plan-HasBlock t text options next message installs planned =
    let same : (next, message) ≡ with_block t options.proxy_base_url (remove_managed_block text) =
      cc (planned, plan-Installs t text options installs) in
    rw (ap (λ (p : Bytes × Bytes). p.0) same)
      (with_block-has t options.proxy_base_url (remove_managed_block text))
