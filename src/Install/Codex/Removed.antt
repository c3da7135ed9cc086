-- ===== src/Install/Codex/Removed.antt =====
-- Installing, repairing and uninstalling, one after the other, as edits of the text.
use cachy.Base.{
  ◌≡◌, refl, ap, ◌∙◌, sym, Bool, true, false, ◌||◌, some, [], ◌∷◌, ◌++◌, Bool-cases, inl, inr,
  if◌then◌else◌, is_nil, append-nil, append_assoc, ok,
}
use cachy.Text.{Bytes, codes, equal, trim_right, trim_left, find, contains, drop-append}
use cachy.Text.Quote.{quote}
use cachy.Text.Lines.{find-line, contains-prefix}
use cachy.Text.Space.{trim_space}
use cachy.Install.{Tools}
use cachy.Install.Codex.{
  trim_space, CodexOptions, is_line_end, trailing_newline, managed_codex_begin, managed_codex_end,
  joined, skip_byte, remove_managed_block, from_begin, from_end, append_block,
  render_codex_managed_block, has_top_level_model_provider, plan_codex_config, preserved,
  configured, removed,
}
use cachy.Install.Codex.Settled.{
  settled, joined_settled, trim_right-ends, ends, trim_right-settled, settled-nil,
  has_top_level-settled,
}
use cachy.Install.Codex.Block.{
  text_of, body_lines, block_text, body_lines-end, find-text_of, find-block_begin,
}

contains-nothing : contains [] managed_codex_begin ≡ false
unfolding contains
contains-nothing = refl

joined-nil : joined [] [] ≡ []
unfolding joined trailing_newline trim_right trim_left trim_space
joined-nil = refl

is_nil-eq : (s : Bytes) → is_nil s ≡ true → s ≡ []
is_nil-eq [] h = refl
is_nil-eq (c ∷ s) h = cc

module _ (t : Tools) (url : Bytes) (preserve : Bool)
    (clean : contains (quote t.is_print url) managed_codex_end ≡ false) where
  joined_end : (s : Bytes) → joined (trim_right is_line_end s ++ codes "\n\n") [] ≡ settled s
  unfolding joined trim_left
  joined_end s = rw append-nil (joined_settled s)

  find-block_end :
      find (render_codex_managed_block t url preserve) managed_codex_end
      ≡ some (text_of (body_lines t url preserve), managed_codex_end ++ codes "\n")
  find-block_end = rw (block_text t url preserve) (
      find-text_of (body_lines t url preserve) managed_codex_end (codes "\n") refl
        (body_lines-end t url clean preserve))

  remove-behind :
      (before : Bytes)
      → find (before ++ render_codex_managed_block t url preserve) managed_codex_begin
        ≡ some (before, render_codex_managed_block t url preserve)
      → remove_managed_block (before ++ render_codex_managed_block t url preserve)
        ≡ joined before []
  unfolding remove_managed_block from_begin from_end skip_byte
  remove-behind before found =
      ap (from_begin (before ++ render_codex_managed_block t url preserve)) found
      ∙ ap (from_end before) find-block_end
      ∙ ap (λ (rest : Bytes). joined before (skip_byte 10 (skip_byte 13 rest)))
          (drop-append managed_codex_end (codes "\n"))

  trim_right-free :
      (s : Bytes)
      → contains s managed_codex_begin ≡ false
      → contains (trim_right is_line_end s) managed_codex_begin ≡ false
  trim_right-free s free =
      elim (Bool-cases (contains (trim_right is_line_end s) managed_codex_begin)) [
        | inr h ↦ h
        | inl h ↦
            let found =
              contains-prefix (trim_right is_line_end s) (ends is_line_end s) managed_codex_begin
                h in
            cc (free, rw (trim_right-ends is_line_end s) at found)
      ]

  find-behind :
      (before : Bytes)
      → contains before managed_codex_begin ≡ false
      → find
          ((before ++ codes "\n\n") ++ render_codex_managed_block t url preserve)
          managed_codex_begin
        ≡ some (before ++ codes "\n\n", render_codex_managed_block t url preserve)
  find-behind before free =
      let block = render_codex_managed_block t url preserve in
      rw
        (
          append_assoc before (codes "\n\n") block,
          find-line before (10 ∷ block) managed_codex_begin refl free,
          find-line [] block managed_codex_begin refl contains-nothing,
          find-block_begin t url preserve,
        )
        refl

  -- Removing the block from a text that it was appended to gives the text back, but for line ends.
  remove-append_block :
      (s : Bytes)
      → contains s managed_codex_begin ≡ false
      → remove_managed_block (append_block s (render_codex_managed_block t url preserve))
        ≡ settled s
  unfolding append_block
  remove-append_block s free = elim (Bool-cases (is_nil (trim_right is_line_end s))) [
    | inl blank ↦
        rw
          (
            blank,
            remove-behind [] (find-block_begin t url preserve),
            settled-nil s (is_nil-eq (trim_right is_line_end s) blank),
          )
          joined-nil
    | inr some_text ↦ rw some_text (
        rw
          (sym (
            append_assoc (trim_right is_line_end s) (codes "\n\n")
              (render_codex_managed_block t url preserve)))
          (remove-behind (trim_right is_line_end s ++ codes "\n\n")
              (find-behind (trim_right is_line_end s) (trim_right-free s free))
            ∙ joined_end s))
  ]

-- The text with the block, and the message.
abbrev pub with_block : Tools → Bytes → Bytes → Bytes × Bytes
with_block t url cleaned = (
  append_block cleaned (render_codex_managed_block t url (has_top_level_model_provider cleaned)),
  if has_top_level_model_provider cleaned then preserved else configured,
)

abbrev pub Installs : Bytes → Type 0
Installs action = (equal action (codes "install") || equal action (codes "repair")) ≡ true

pub plan-Installs :
    (t : Tools) (text : Bytes) (options : CodexOptions)
    → Installs options.action
    → plan_codex_config t text options
      ≡ ok (with_block t options.proxy_base_url (remove_managed_block text))
unfolding plan_codex_config
plan-Installs t text options h = rw h refl

append_block-settled : (s block : Bytes) → append_block (settled s) block ≡ append_block s block
unfolding append_block
append_block-settled s block = rw (trim_right-settled s) refl

with_block-settled : (t : Tools) (url s : Bytes) → with_block t url (settled s) ≡ with_block t url s
with_block-settled t url s =
    rw
      (
        has_top_level-settled s,
        append_block-settled s (render_codex_managed_block t url (has_top_level_model_provider s)),
      )
      refl

module _ (t : Tools) (text : Bytes) (options : CodexOptions)
    (free : contains (remove_managed_block text) managed_codex_begin ≡ false)
    (clean : contains (quote t.is_print options.proxy_base_url) managed_codex_end ≡ false)
    (installs : Installs options.action) (next message : Bytes)
    (planned : plan_codex_config t text options ≡ ok (next, message)) where
  planned_block : (next, message) ≡ with_block t options.proxy_base_url (remove_managed_block text)
  planned_block = cc (planned, plan-Installs t text options installs)

  -- What an installation leaves when its block is removed: the user's text, with one line feed at its end.
  remove-planned : remove_managed_block next ≡ settled (remove_managed_block text)
  remove-planned = rw (ap (λ (p : Bytes × Bytes). p.0) planned_block) (
      remove-append_block t options.proxy_base_url
        (has_top_level_model_provider (remove_managed_block text)) clean (remove_managed_block text)
        free)

  pub plan-again :
      (again : CodexOptions)
      → Installs again.action
      → again.proxy_base_url ≡ options.proxy_base_url
      → plan_codex_config t next again ≡ ok (next, message)
  plan-again again h same =
      plan-Installs t next again h
      ∙ rw
          (
            same,
            remove-planned,
            with_block-settled t options.proxy_base_url (remove_managed_block text),
          )
          (ap ok (sym planned_block))

  pub plan-uninstall :
      (again : CodexOptions)
      → again.action ≡ codes "uninstall"
      → plan_codex_config t next again ≡ ok (settled (remove_managed_block text), removed)
  unfolding plan_codex_config equal
  plan-uninstall again h = rw (h, remove-planned) refl
