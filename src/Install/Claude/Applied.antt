-- ===== src/Install/Claude/Applied.antt =====
-- What `ApplyClaudeIntegration` does to the file.
use cachy.Base.{
  ◌≡◌, ◌↔◌, sym, false, not, ◌||◌, Option, none, arith, if◌then◌else◌, is_nil, Result, ok, err,
  refused, through,
}
use cachy.Text.{Bytes, equal_iff}
use cachy.Tokens.{Error}
use cachy.Install.{Tools, FileCalls, read_optional_file, write_file, contents, read-contents}
use cachy.Install.Json.{JsonFields}
use cachy.Install.Claude.{
  JsonCodec, ClaudeOptions, ClaudeResult, plan_claude_settings, parse_json_map, marshal_settings,
  normalize_json, with_defaults, validated, plan_result, outcome_of, carry_out, applied, prepare,
  apply_claude_integration,
}

-- What a run reports, and what the file has then.
pub record Reported (c : JsonCodec) (t : Tools) (options : ClaudeOptions)
    (file file' : Option Bytes) (result : ClaudeResult) : Type 0 where
  pub current : JsonFields
  pub next : JsonFields
  pub parsed : parse_json_map c (contents file) ≡ ok current
  pub planned : plan_claude_settings t current (with_defaults options) ≡ ok (next, result.message)
  pub marshalled : marshal_settings c next ≡ ok result.preview
  pub changed_iff :
      (result.changed ≡ false)
      ↔ (normalize_json c (contents file) ≡ normalize_json c result.preview)
  pub written :
      contents file'
      ≡ (if options.dry_run || not result.changed then contents file else result.preview)

module _ (c : JsonCodec) (t : Tools) (calls : FileCalls) where
  applied-ok :
      (file file' : Option Bytes) (p : Result Error ClaudeResult) (r : ClaudeResult)
      → applied calls file p ≡ (file', ok r)
      → (p ≡ ok r)
        × (contents file' ≡ (if r.dry_run || not r.changed then contents file else r.preview))
  unfolding applied carry_out write_file outcome_of
  applied-ok file file' (err e) r h = cc
  applied-ok file file' (ok result) r h = ground arith

  plan_result_changed :
      (options : ClaudeOptions) (current next message : Bytes)
      → ((plan_result c options current next message).changed ≡ false)
        ↔ (normalize_json c current ≡ normalize_json c next)
  unfolding plan_result
  plan_result_changed options current next message =
      ground (arith, equal_iff (normalize_json c current) (normalize_json c next))

  Reported-from :
      (options : ClaudeOptions) (file file' : Option Bytes) (result : ClaudeResult) (text : Bytes)
      (current next : JsonFields) (preview message : Bytes)
      → text ≡ contents file
      → parse_json_map c text ≡ ok current
      → plan_claude_settings t current (with_defaults options) ≡ ok (next, message)
      → marshal_settings c next ≡ ok preview
      → plan_result c (with_defaults options) text preview message ≡ result
      → contents file'
        ≡ (if result.dry_run || not result.changed then contents file else result.preview)
      → Reported c t options file file' result
  unfolding plan_result with_defaults
  Reported-from options file file' result text current next preview message same parsed planned
        printed is_result written =
      record {
        current = current;
        next = next;
        parsed = rw same at parsed;
        planned = rw (sym is_result) planned;
        marshalled = rw (sym is_result) printed;
        changed_iff =
            rw (sym is_result, sym same)
              (plan_result_changed (with_defaults options) text preview message);
        written = rw (sym is_result) (rw (sym is_result) at written);
      }

  -- A run that succeeds has parsed the file's contents, planned the new settings and printed them as
  -- its preview. It reports a change exactly if the two texts differ as JSON, and leaves the preview in
  -- the file, or what was there on a dry run and where nothing changes.
  pub apply_claude_integration-Reported :
      (options : ClaudeOptions) (file file' : Option Bytes) (result : ClaudeResult)
      → apply_claude_integration c t calls file options ≡ (file', ok result)
      → Reported c t options file file' result
  unfolding apply_claude_integration prepare
  apply_claude_integration-Reported options file file' result h =
      let named : is_nil options.settings_path ≡ false = ground arith in
      let (prepared, written) =
        applied-ok file file' (prepare c t calls file (with_defaults options)) result
          (rw named at h) in
      let (checked, valid, h1) =
        through (refused (validated t (with_defaults options))) _ prepared in
      let (text, read, h2) = through (read_optional_file calls file) _ h1 in
      let (current, parsed, h3) = through (parse_json_map c text) _ h2 in
      let (plan, planned, h4) =
        through (plan_claude_settings t current (with_defaults options)) _ h3 in
      let (next_text, printed, h5) = through (marshal_settings c plan.0) _ h4 in
      let same = read-contents calls file text read in
      Reported-from options file file' result text current plan.0 next_text plan.1 same parsed
        planned printed (cc h5) written

  -- A run that fails leaves the file as it was, unless it is the write that failed.
  pub apply_claude_integration-fails :
      (options : ClaudeOptions) (file file' : Option Bytes) (e : Error)
      → calls.write_error ≡ none
      → apply_claude_integration c t calls file options ≡ (file', err e)
      → file' ≡ file
  unfolding apply_claude_integration applied carry_out write_file outcome_of
  apply_claude_integration-fails options file file' e sound h = ground arith
