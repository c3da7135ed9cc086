-- ===== src/Doctor/Configured.antt =====
-- After an installation the doctor finds the client configured.
use cachy.Base.{
  none, Bool, true, false, not, ◌&&◌, ◌||◌, ◌≡◌, refl, ap, ◌∙◌, Option, some, arith, if◌then◌else◌,
  is_nil, ok,
}
use cachy.Text.{contains, has_prefix, Bytes, equal, equal_refl}
use cachy.Install.{Tools, FileCalls, contents}
use cachy.Install.Codex.{CodexOptions, CodexResult, with_defaults, apply_codex_integration}
use cachy.Install.Codex.Present.{HasBlock, plan-HasBlock}
use cachy.Install.Codex.Removed.{Installs}
use cachy.Install.Codex.Applied.{apply_codex_integration-Reported}
use cachy.Install.Codex.Twice.{apply-checked}
use cachy.Install.Json.{
  Json, JsonFields, get, set, string, object, string_or_empty, as_bool, as_object,
}
use cachy.Install.Json.Fields.{get-set}
use cachy.Install.Claude.{
  env_key, cachy_key, url_key, managed_url_key, child_map, with_metadata, is_foreign, plan_with,
  plan_install,
}
use cachy.Install.Claude.Planned.{
  with_metadata_managed, string_or_empty-some, get-planned, foreign_some, plan_install_lem,
}
use cachy.Doctor.{
  codex_missing, found_file, check_claude_settings, child_of, map_or_nil, Environment, status_ok,
  status_warn, read, check_codex_integration, check_codex_read, check_codex_text,
}

-- The doctor finds the integration configured in a text with the block.
codex_text_ok :
    (path text : Bytes) → HasBlock text → (check_codex_text path text).status ≡ status_ok
unfolding check_codex_text
codex_text_ok path text (first, last, all) =
    rw (first, last, all.0, all.1.0, all.1.1.0, all.1.1.1.0) refl

module _ (e : Environment) (t : Tools) (calls : FileCalls) (options : CodexOptions)
    (file file' : Option Bytes) (result : CodexResult) where
  -- After an installation or a repair, the doctor finds the integration with Codex configured.
  pub check_codex_integration-apply :
      Installs (with_defaults options).action
      → options.dry_run ≡ false
      → apply_codex_integration t calls file options ≡ (file', ok result)
      → e.read_file options.config_path ≡ read (contents file')
      → (check_codex_integration e options.config_path).status ≡ status_ok
  unfolding check_codex_integration check_codex_read
  check_codex_integration-apply installs wet applied readable =
      let reported = apply_codex_integration-Reported t calls options file file' result applied in
      let left : contents file' ≡ result.preview = rw wet at reported.written in
      let named = (apply-checked t calls options file file' result applied).0 in
      rw (named, readable)
        (codex_text_ok options.config_path (contents file') (
          rw left (
            plan-HasBlock t (contents file) (with_defaults options) result.preview result.message
              installs reported.planned)))

-- An installed text is never that of a file that is missing.
check_codex_found :
    (path : Bytes) (file : Option Bytes)
    → (check_codex_text path (contents file)).status ≡ status_ok
    → (check_codex_read path (found_file file)).status ≡ status_ok
unfolding check_codex_read found_file check_codex_text contains has_prefix codex_missing
check_codex_found path none configured = cc configured
check_codex_found path (some text) configured = configured

-- It finds it so in the file that the run left.
pub check_codex_integration-found :
    (e : Environment) (t : Tools) (calls : FileCalls) (options : CodexOptions)
    (file file' : Option Bytes) (result : CodexResult)
    → Installs (with_defaults options).action
    → options.dry_run ≡ false
    → apply_codex_integration t calls file options ≡ (file', ok result)
    → e.read_file options.config_path ≡ found_file file'
    → (check_codex_integration e options.config_path).status ≡ status_ok
unfolding check_codex_integration check_codex_read
check_codex_integration-found e t calls options file file' result installs wet applied readable =
    let named = (apply-checked t calls options file file' result applied).0 in
    let after = record e { read_file = λ path. read (contents file') } in
    let there =
      check_codex_integration-apply after t calls options file file' result installs wet applied
        refl in
    rw (named, readable) (check_codex_found options.config_path file' (rw named at there))

child_of-some :
    (key : Bytes) (n child : JsonFields) → get key n ≡ some (object child) → child_of key n ≡ child
unfolding child_of map_or_nil as_object
child_of-some key n child h = ap (λ (v : Option Json). map_or_nil (as_object v)) h

-- Settings with Cachy's metadata.
module _ (path url : Bytes) (n env metadata : JsonFields)
    (has_env : get env_key n ≡ some (object env))
    (has_metadata : get cachy_key n ≡ some (object (with_metadata url metadata)))
    (set_url : is_nil url ≡ false) where
  claude_lem : (check_claude_settings path n).status ≡ (
      if is_nil (string_or_empty url_key env) || not (equal (string_or_empty url_key env) url)
      then status_warn
      else status_ok)
  unfolding check_claude_settings as_bool
  claude_lem =
      rw
        (
          child_of-some env_key n env has_env,
          child_of-some cachy_key n (with_metadata url metadata) has_metadata,
          (with_metadata_managed url metadata).0,
          string_or_empty-some managed_url_key (with_metadata url metadata) url
              (with_metadata_managed url metadata).1,
          set_url,
        )
        (ground arith)

module _ (path url : Bytes) (m : JsonFields) (set_url : is_nil url ≡ false) where
  after_plan :
      (env metadata : JsonFields) (foreign : Bool)
      → is_foreign env metadata ≡ foreign
      → (check_claude_settings path (plan_with url env metadata m foreign).0).status ≡ (
          if foreign && not (equal (string_or_empty url_key env) url)
          then status_warn
          else status_ok)
  unfolding plan_with
  after_plan env metadata true eq =
      let planned = get-planned url m env metadata env in
      claude_lem path url _ env metadata planned.0 planned.1 set_url
      ∙ rw (foreign_some env metadata eq) refl
  after_plan env metadata false eq =
      let env' = set url_key (string url) env in
      let planned = get-planned url m env metadata env' in
      let current : string_or_empty url_key env' ≡ url =
        string_or_empty-some url_key env' url (rw (get-set, equal_refl url_key) refl) in
      claude_lem path url _ env' metadata planned.0 planned.1 set_url
      ∙ rw (current, set_url, equal_refl url) refl

  -- After an installation the doctor finds the integration with Claude configured, unless the settings
  -- had another URL that is not the managed one: then it warns.
  pub check_claude_settings-plan_install :
      (check_claude_settings path (plan_install m url).0).status ≡ (
        if is_foreign (child_map m env_key) (child_map m cachy_key)
          && not (equal (string_or_empty url_key (child_map m env_key)) url)
        then status_warn
        else status_ok)
  check_claude_settings-plan_install = rw (plan_install_lem m url) (
      after_plan (child_map m env_key) (child_map m cachy_key)
        (is_foreign (child_map m env_key) (child_map m cachy_key)) refl)
