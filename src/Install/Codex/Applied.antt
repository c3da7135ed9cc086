-- ===== src/Install/Codex/Applied.antt =====
-- What `ApplyCodexIntegration` does to the file, and what a second run then does.
use cachy.Base.{
  refused, through, ◌≡◌, ◌↔◌, refl, false, not, Option, none, arith, if◌then◌else◌, is_nil, Result,
  ok, err,
}
use cachy.Text.{Bytes, equal, equal_iff}
use cachy.Tokens.{Error}
use cachy.Install.{contents, read-contents, Tools, FileCalls, read_optional_file, write_file}
use cachy.Install.Codex.{
  CodexOptions, CodexResult, plan_codex_config, with_defaults, validated, plan_result, outcome_of,
  carry_out, applied, prepare, apply_codex_integration,
}

-- What a run reports, and what the file has then.
pub record Reported (t : Tools) (options : CodexOptions) (file file' : Option Bytes)
    (result : CodexResult) : Type 0 where
  pub planned :
      plan_codex_config t (contents file) (with_defaults options)
      ≡ ok (result.preview, result.message)
  pub changed_iff : (result.changed ≡ false) ↔ (result.preview ≡ contents file)
  pub written : contents file' ≡ (if options.dry_run then contents file else result.preview)
  pub same_path : (result.path ≡ options.config_path) × (result.dry_run ≡ options.dry_run)

module _ (t : Tools) (calls : FileCalls) (options : CodexOptions) where
  prepare-ok :
      (file : Option Bytes) (result : CodexResult)
      → prepare t calls file options ≡ ok result
      → (next message : Bytes) × (plan_codex_config t (contents file) options ≡ ok (next, message))
        × (result ≡ plan_result options (contents file) (next, message))
  unfolding prepare read_optional_file
  prepare-ok file result h =
      let (checked, valid, h1) = through (refused (validated t options)) _ h in
      let (current, read, h2) = through (read_optional_file calls file) _ h1 in
      let ((next, message), planned, h3) = through (plan_codex_config t current options) _ h2 in
      let same = read-contents calls file current read in
      (next, message, rw (← same) planned, cc (h3, same))

  carry_out-written :
      (file file' : Option Bytes) (result r : CodexResult)
      → (result.changed ≡ false → result.preview ≡ contents file)
      → carry_out calls file result ≡ (file', ok r)
      → (r ≡ result) × (contents file' ≡ (if result.dry_run then contents file else result.preview))
  unfolding carry_out write_file outcome_of
  carry_out-written file file' result r same h = ground (arith, same)

  changed_lem : (current next : Bytes) → (not (equal next current) ≡ false) ↔ (next ≡ current)
  changed_lem current next = ground (arith, equal_iff next current)

  applied-ok :
      (file file' : Option Bytes) (p : Result Error CodexResult) (r : CodexResult)
      → applied calls file p ≡ (file', ok r)
      → (result : CodexResult) × (p ≡ ok result) × (carry_out calls file result ≡ (file', ok r))
  unfolding applied
  applied-ok file file' (err e) r h = cc
  applied-ok file file' (ok result) r h = (result, refl, h)

  from_plan :
      (file file' : Option Bytes) (next message : Bytes) (r : CodexResult)
      → carry_out calls file (plan_result options (contents file) (next, message)) ≡ (file', ok r)
      → (r ≡ plan_result options (contents file) (next, message))
        × (contents file' ≡ (if options.dry_run then contents file else next))
        × ((r.changed ≡ false) ↔ (r.preview ≡ contents file))
  unfolding plan_result
  from_plan file file' next message r h =
      let result = plan_result options (contents file) (next, message) in
      let changed = changed_lem (contents file) next in
      let (same, written) = carry_out-written file file' result r changed.0 h in
      (same, written, rw same changed)

-- A run that succeeds has planned its preview from the file's contents. It reports a change exactly
-- if the preview differs from them, and leaves the preview in the file, or on a dry run what was there.
pub apply_codex_integration-Reported :
    (t : Tools) (calls : FileCalls) (options : CodexOptions) (file file' : Option Bytes)
    (result : CodexResult)
    → apply_codex_integration t calls file options ≡ (file', ok result)
    → Reported t options file file' result
unfolding apply_codex_integration with_defaults plan_result
apply_codex_integration-Reported t calls options file file' result h =
    let named : is_nil options.config_path ≡ false = ground arith in
    let (r, prepared, carried) =
      applied-ok t calls options file file' (prepare t calls file (with_defaults options)) result
        (rw named at h) in
    let (next, message, planned, is_plan) =
      prepare-ok t calls (with_defaults options) file r prepared in
    let (same, written, changed) =
      from_plan t calls (with_defaults options) file file' next message result
        (rw is_plan at carried) in
    record {
      planned = rw same planned;
      changed_iff = changed;
      written = rw same written;
      same_path = rw same (refl, refl);
    }

-- A run that fails leaves the file as it was, unless it is the write that failed.
pub apply_codex_integration-fails :
    (t : Tools) (calls : FileCalls) (options : CodexOptions) (file file' : Option Bytes) (e : Error)
    → calls.write_error ≡ none
    → apply_codex_integration t calls file options ≡ (file', err e)
    → file' ≡ file
unfolding apply_codex_integration applied carry_out write_file outcome_of
apply_codex_integration-fails t calls options file file' e sound h = ground arith
