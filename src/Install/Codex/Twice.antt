-- ===== src/Install/Codex/Twice.antt =====
-- Two runs on the same file, one after the other.
use cachy.Base.{
  ◌≡◌, refl, ◌∙◌, sym, true, false, Option, none, some, arith, Bool-cases, inl, inr, is_nil, Result,
  ok,
}
use cachy.Text.{trim_right, Bytes, codes, equal, equal_iff, equal_refl, contains}
use cachy.Text.Quote.{quote}
use cachy.Tokens.{Error}
use cachy.Install.{contents, Tools, FileCalls, read_optional_file, write_file}
use cachy.Install.Codex.{
  CodexOptions, CodexResult, managed_codex_begin, managed_codex_end, remove_managed_block,
  plan_codex_config, removed, with_defaults, validated, plan_result, outcome_of, carry_out, applied,
  prepare, apply_codex_integration,
}
use cachy.Install.Codex.Settled.{settled}
use cachy.Install.Codex.Removed.{Installs, plan-again, plan-uninstall}
use cachy.Install.Codex.Applied.{Reported, apply_codex_integration-Reported}

Installs-set : (a : Bytes) → Installs a → (is_nil a ≡ false) × (equal a (codes "uninstall") ≡ false)
unfolding equal
Installs-set a h = elim (Bool-cases (equal a (codes "install"))) [
  | inl e ↦ rw ((equal_iff a (codes "install")).0 e) (refl, refl)
  | inr other ↦
      let repair : equal a (codes "repair") ≡ true = ground arith in
      rw ((equal_iff a (codes "repair")).0 repair) (refl, refl)
]

prepare-succeeds :
    (t : Tools) (calls : FileCalls) (options : CodexOptions) (file : Option Bytes)
    (plan : Bytes × Bytes)
    → validated t options ≡ none
    → calls.read_error ≡ none
    → plan_codex_config t (contents file) options ≡ ok plan
    → prepare t calls file options ≡ ok (plan_result options (contents file) plan)
unfolding prepare read_optional_file
prepare-succeeds t calls options none plan valid readable planned =
    rw (valid, readable, planned) refl
prepare-succeeds t calls options (some text) plan valid readable planned =
    rw (valid, readable, planned) refl

prepare-validated :
    (t : Tools) (calls : FileCalls) (options : CodexOptions) (file : Option Bytes) (r : CodexResult)
    → prepare t calls file options ≡ ok r
    → validated t options ≡ none
unfolding prepare
prepare-validated t calls options file r h = ground arith

-- A run that succeeds has checked its options.
pub apply-checked :
    (t : Tools) (calls : FileCalls) (options : CodexOptions) (file file' : Option Bytes)
    (r : CodexResult)
    → apply_codex_integration t calls file options ≡ (file', ok r)
    → (is_nil options.config_path ≡ false) × (validated t (with_defaults options) ≡ none)
unfolding apply_codex_integration applied prepare
apply-checked t calls options file file' r h = ground arith

abbrev pub acting : Bytes → CodexOptions → CodexOptions
acting action options = record options { action = action }

-- The second run, once its plan is known.
apply-planned :
    (t : Tools) (calls : FileCalls) (options : CodexOptions) (file : Option Bytes)
    (plan : Bytes × Bytes)
    → is_nil options.config_path ≡ false
    → validated t (with_defaults options) ≡ none
    → calls.read_error ≡ none
    → plan_codex_config t (contents file) (with_defaults options) ≡ ok plan
    → apply_codex_integration t calls file options
      ≡ carry_out calls file (plan_result (with_defaults options) (contents file) plan)
unfolding apply_codex_integration applied
apply-planned t calls options file plan named valid readable planned =
    rw (named, prepare-succeeds t calls (with_defaults options) file plan valid readable planned)
      refl

validated-Installs :
    (t : Tools) (options : CodexOptions) (a : Bytes)
    → Installs options.action
    → Installs a
    → validated t options ≡ none
    → validated t (record options { action = a }) ≡ none
unfolding validated
validated-Installs t options a h k valid =
    rw (Installs-set a k).1 (rw (Installs-set options.action h).1 at valid)

validated-uninstall :
    (t : Tools) (options : CodexOptions)
    → validated t (record options { action = codes "uninstall" }) ≡ none
unfolding validated equal
validated-uninstall t options = refl

carry_out-unchanged :
    (calls : FileCalls) (file : Option Bytes) (r : CodexResult)
    → r.changed ≡ false
    → carry_out calls file r ≡ (file, ok r)
unfolding carry_out
carry_out-unchanged calls file r h = ground (arith, h)

carry_out_sound :
    (calls : FileCalls) (file : Option Bytes) (r : CodexResult)
    → calls.mkdir_error ≡ none
    → calls.write_error ≡ none
    → r.dry_run ≡ false
    → (r.changed ≡ false → r.preview ≡ contents file)
    → (file' : Option Bytes) × (carry_out calls file r ≡ (file', ok r))
      × (contents file' ≡ r.preview)
unfolding carry_out write_file outcome_of
carry_out_sound calls file r writable sound wet same = elim (Bool-cases r.changed) [
  | inl changed ↦ (some r.preview, ground arith, refl)
  | inr unchanged ↦ (file, ground arith, sym (same unchanged))
]

plan_result_dry :
    (options : CodexOptions) (current : Bytes) (plan : Bytes × Bytes)
    → (plan_result (with_defaults options) current plan).dry_run ≡ options.dry_run
unfolding plan_result with_defaults
plan_result_dry options current (next, message) = refl

plan_result_unchanged :
    (options : CodexOptions) (current : Bytes) (plan : Bytes × Bytes)
    → (plan_result (with_defaults options) current plan).changed ≡ false
    → (plan_result (with_defaults options) current plan).preview ≡ current
unfolding plan_result
plan_result_unchanged options current (next, message) h = ground (arith, equal_iff next current)

module _ (t : Tools) (calls : FileCalls) (options : CodexOptions) (file file' : Option Bytes)
    (result : CodexResult)
    (free : contains (remove_managed_block (contents file)) managed_codex_begin ≡ false)
    (clean : contains (quote t.is_print (with_defaults options).proxy_base_url) managed_codex_end
      ≡ false)
    (installs : Installs (with_defaults options).action) (wet : options.dry_run ≡ false)
    (first : apply_codex_integration t calls file options ≡ (file', ok result)) where
  reported : Reported t options file file' result
  reported = apply_codex_integration-Reported t calls options file file' result first

  left_behind : contents file' ≡ result.preview
  left_behind = rw wet at reported.written

  defaults-acting :
      (a : Bytes)
      → is_nil a ≡ false
      → with_defaults (acting a options) ≡ record (with_defaults options) { action = a }
  unfolding with_defaults
  defaults-acting a set = rw set refl

  checked : (is_nil options.config_path ≡ false) × (validated t (with_defaults options) ≡ none)
  checked = apply-checked t calls options file file' result first

  second_plan :
      (a : Bytes)
      → Installs a
      → plan_codex_config t (contents file') (with_defaults (acting a options))
        ≡ ok (result.preview, result.message)
  second_plan a h =
      let set = (Installs-set a h).0 in
      rw (left_behind, defaults-acting a set)
        (plan-again t (contents file) (with_defaults options) free clean installs result.preview
          result.message reported.planned (record (with_defaults options) { action = a }) h refl)

  changed_again :
      (again : CodexOptions)
      → (plan_result
          (with_defaults again)
          (contents file')
          (result.preview, result.message)).changed
        ≡ false
  unfolding plan_result
  changed_again again = rw (left_behind, equal_refl result.preview) refl

  same_result :
      (a : Bytes)
      → is_nil a ≡ false
      → ◌≡◌ {A = Option Bytes × Result Error CodexResult}
          (
            file',
            ok (
                plan_result
                  (with_defaults (acting a options))
                  (contents file')
                  (result.preview, result.message)),
          )
          (file', ok (record result { action = a; changed = false }))
  unfolding plan_result with_defaults
  same_result a set =
      rw (set, left_behind, equal_refl result.preview, reported.same_path.0, reported.same_path.1)
        refl

  -- After an installation or a repair that succeeded and was no dry run, installing or repairing again
  -- with the same options, if the file can be read, changes nothing: it succeeds, reports no change, and
  -- has the same preview and message. This holds where the file without its first managed
  -- block had no begin marker any more, and the quoted base URL does not contain the end marker.
  pub apply-apply_install :
      (calls' : FileCalls) (a : Bytes)
      → Installs a
      → calls'.read_error ≡ none
      → apply_codex_integration t calls' file' (acting a options)
        ≡ (file', ok (record result { action = a; changed = false }))
  apply-apply_install calls' a h readable =
      let set = (Installs-set a h).0 in
      let valid : validated t (with_defaults (acting a options)) ≡ none =
        rw (defaults-acting a set)
          (validated-Installs t (with_defaults options) a installs h checked.1) in
      let again =
        plan_result (with_defaults (acting a options)) (contents file')
          (result.preview, result.message) in
      apply-planned t calls' (acting a options) file' (result.preview, result.message) checked.0
        valid readable (second_plan a h)
      ∙ carry_out-unchanged calls' file' again (changed_again (acting a options))
      ∙ same_result a set

  -- After an installation or a repair that succeeded and was no dry run, uninstalling, if no call of the
  -- operating system fails, leaves the text that was there, without its first managed block and with one
  -- line feed in place of the line ends at its end, or none if it is blank. This holds where the file
  -- without that block had no begin marker any more, and the quoted base URL does not contain the end
  -- marker.
  pub apply-apply_uninstall :
      (calls' : FileCalls)
      → calls'.read_error ≡ none
      → calls'.mkdir_error ≡ none
      → calls'.write_error ≡ none
      → (file'' : Option Bytes) × (r : CodexResult) × (apply_codex_integration t calls' file'
            (acting (codes "uninstall") options)
          ≡ (file'', ok r))
        × (contents file'' ≡ settled (remove_managed_block (contents file)))
  unfolding trim_right plan_result
  apply-apply_uninstall calls' readable writable sound =
      let options' = acting (codes "uninstall") options in
      let plan : Bytes × Bytes = (settled (remove_managed_block (contents file)), removed) in
      let again = plan_result (with_defaults options') (contents file') plan in
      let planned : plan_codex_config t (contents file') (with_defaults options') ≡ ok plan =
        rw (left_behind, defaults-acting (codes "uninstall") refl)
          (plan-uninstall t (contents file) (with_defaults options) free clean installs
            result.preview result.message reported.planned
            (record (with_defaults options) { action = codes "uninstall" }) refl) in
      let (file'', carried, left) =
        carry_out_sound calls' file' again writable sound
          (plan_result_dry options' (contents file') plan ∙ wet)
          (plan_result_unchanged options' (contents file') plan) in
      (
        file'',
        again,
        apply-planned t calls' options' file' plan checked.0
              (rw (defaults-acting (codes "uninstall") refl)
                (validated-uninstall t (with_defaults options)))
              readable planned
            ∙ carried,
        left,
      )
