-- ===== src/Install/Claude.antt =====
-- internal/install/claude.go: Cachy's entries in the settings of Claude. encoding/json is a parameter.
pub mod Planned
pub mod Restored
pub mod Kept
pub mod Applied
mod Tests
use cachy.Base.{
  Bool, true, false, not, ◌&&◌, ◌||◌, Option, none, some, List, [], ◌∷◌, ◌++◌, if◌then◌else◌,
  is_nil, Result, ok, err, ◌>>=◌, ◌>>◌, refused, map_err,
}
use cachy.Text.{Bytes, codes, equal}
use cachy.Text.Quote.{quote}
use cachy.Tokens.{Error}
use cachy.Install.{Tools, FileCalls, validate_base_url, read_optional_file, write_file}
use cachy.Install.Json.{
  Json, JsonFields, empty, boolean, string, object, get, set, delete, is_empty, as_object,
  as_string, string_or_empty, clone_json_map,
}

-- json.Unmarshal into a map, with `none` for the nil map of `null`, and json.MarshalIndent.
pub record JsonCodec : Type 0 where
  pub unmarshal : Bytes → Result Error (Option JsonFields)
  pub marshal_indent : JsonFields → Result Error Bytes

abbrev pub default_claude_anthropic_base_url : Bytes
default_claude_anthropic_base_url = codes "http://127.0.0.1:8787"

pub record ClaudeOptions : Type 0 where
  pub action : Bytes
  pub settings_path : Bytes
  pub anthropic_base_url : Bytes
  pub dry_run : Bool

pub record ClaudeResult : Type 0 where
  pub action : Bytes
  pub dry_run : Bool
  pub changed : Bool
  pub path : Bytes
  pub preview : Bytes
  pub message : Bytes

pub default_claude_settings_path : Tools → Bytes → Bytes → Result Error Bytes
default_claude_settings_path t home_dir claude_home =
    if not (is_nil claude_home)
    then ok (t.join_path claude_home (codes "settings.json"))
    else if is_nil home_dir
    then err (codes "home directory is required to resolve Claude settings")
    else ok (t.join_path (t.join_path home_dir (codes ".claude")) (codes "settings.json"))

abbrev pub env_key : Bytes
env_key = codes "env"

abbrev pub cachy_key : Bytes
cachy_key = codes "cachy"

abbrev pub url_key : Bytes
url_key = codes "ANTHROPIC_BASE_URL"

abbrev pub managed_key : Bytes
managed_key = codes "managed"

abbrev pub managed_url_key : Bytes
managed_url_key = codes "anthropic_base_url"

pub map_or_empty : Option JsonFields → JsonFields
map_or_empty none = empty
map_or_empty (some m) = m

-- childMap: the map at a key, and a new one where the value is no map.
pub child_map : JsonFields → Bytes → JsonFields
child_map parent key = map_or_empty (as_object (get key parent))

-- `metadata` as the plan leaves it.
pub with_metadata : Bytes → JsonFields → JsonFields
with_metadata url metadata =
    set managed_url_key (string url) (set managed_key (boolean true) metadata)

-- `hasCurrentURL && currentURL != "" && currentURL != previousManagedURL`
pub is_foreign : JsonFields → JsonFields → Bool
is_foreign env metadata =
    let current = string_or_empty url_key env in
    not (is_nil current) && not (equal current (string_or_empty managed_url_key metadata))

abbrev pub preserved : Bytes
preserved = codes "Claude Cachy metadata configured; existing ANTHROPIC_BASE_URL preserved"

abbrev pub configured : Bytes
configured = codes "Claude Cachy integration configured"

abbrev pub removed : Bytes
removed = codes "Claude Cachy integration removed"

-- Both maps are in `next` from `childMap` on; what is written to them then shows in `next`.
unfoldable pub plan_with : Bytes → JsonFields → JsonFields → JsonFields → Bool → JsonFields × Bytes
plan_with url env metadata next true =
    (set cachy_key (object (with_metadata url metadata)) (set env_key (object env) next), preserved)
plan_with url env metadata next false = (
  set cachy_key (object (with_metadata url metadata))
      (set env_key (object (set url_key (string url) env)) next),
  configured,
)

pub plan_install : JsonFields → Bytes → JsonFields × Bytes
plan_install next url =
    let env = child_map next env_key in
    let metadata = child_map (set env_key (object env) next) cachy_key in
    plan_with url env metadata next (is_foreign env metadata)

-- `env` without the URL that Cachy manages, and no `env` at all where it is then empty.
without_url : Bytes → JsonFields → JsonFields → JsonFields
without_url previous next env =
    let env' = if equal (string_or_empty url_key env) previous then delete url_key env else env in
    if is_empty env' then delete env_key next else set env_key (object env') next

-- The type assertion of `env`, and of `metadata`.
on_env : Bytes → JsonFields → Option JsonFields → JsonFields
on_env previous next none = next
on_env previous next (some env) = without_url previous next env

on_metadata : JsonFields → Option JsonFields → JsonFields
on_metadata next none = next
on_metadata next (some metadata) =
    let previous = string_or_empty managed_url_key metadata in
    if not (is_nil previous) then on_env previous next (as_object (get env_key next)) else next

pub plan_uninstall : JsonFields → JsonFields
plan_uninstall next = delete cachy_key (on_metadata next (as_object (get cachy_key next)))

pub plan_claude_settings : Tools → JsonFields → ClaudeOptions → Result Error (JsonFields × Bytes)
plan_claude_settings t settings options =
    let next = clone_json_map settings in
    if equal options.action (codes "install") || equal options.action (codes "repair")
    then ok (plan_install next options.anthropic_base_url)
    else if equal options.action (codes "uninstall")
    then ok (plan_uninstall next, removed)
    else err (codes "unsupported Claude integration action " ++ quote t.is_print options.action)

-- Where an error leaves the text.
pub text_or : Bytes → Result Error Bytes → Bytes
text_or text (ok normalized) = normalized
text_or text (err e) = text

pub with_defaults : ClaudeOptions → ClaudeOptions
with_defaults options = record options {
  action = if is_nil options.action then codes "install" else options.action;
  anthropic_base_url =
      if is_nil options.anthropic_base_url
      then default_claude_anthropic_base_url
      else options.anthropic_base_url;
}

pub validated : Tools → ClaudeOptions → Option Error
validated t options =
    if not (equal options.action (codes "uninstall"))
    then validate_base_url t options.anthropic_base_url (codes "Claude Anthropic base URL")
    else none

pub outcome_of : ClaudeResult → Option Error → Result Error ClaudeResult
outcome_of result none = ok result
outcome_of result (some e) = err e

pub carry_out : FileCalls → Option Bytes → ClaudeResult → Option Bytes × Result Error ClaudeResult
carry_out calls file result =
    if result.dry_run || not result.changed
    then (file, ok result)
    else let (file', outcome) = write_file calls result.preview file in
      (file', outcome_of result outcome)

pub applied :
    FileCalls → Option Bytes → Result Error ClaudeResult → Option Bytes × Result Error ClaudeResult
applied calls file (err e) = (file, err e)
applied calls file (ok result) = carry_out calls file result

module _ (c : JsonCodec) where
  pub parse_json_map : Bytes → Result Error JsonFields
  parse_json_map text = if is_nil text then ok empty else do
    value ← map_err (λ e. codes "parse Claude settings: " ++ e) (c.unmarshal text)
    ok (map_or_empty value)

  pub marshal_settings : JsonFields → Result Error Bytes
  marshal_settings value = do payload ← c.marshal_indent value; ok (payload ++ codes "\n")

  pub normalize_json : Bytes → Bytes
  normalize_json text = text_or text (parse_json_map text >>= marshal_settings)

  pub plan_result : ClaudeOptions → Bytes → Bytes → Bytes → ClaudeResult
  plan_result options current_text next_text message = record {
    action = options.action;
    dry_run = options.dry_run;
    changed = not (equal (normalize_json current_text) (normalize_json next_text));
    path = options.settings_path;
    preview = next_text;
    message = message;
  }

  pub prepare : Tools → FileCalls → Option Bytes → ClaudeOptions → Result Error ClaudeResult
  prepare t calls file options = do
    refused (validated t options)
    current_text ← read_optional_file calls file
    current ← parse_json_map current_text
    plan ← plan_claude_settings t current options
    next_text ← marshal_settings plan.0
    ok (plan_result options current_text next_text plan.1)

  pub apply_claude_integration :
      Tools → FileCalls → Option Bytes → ClaudeOptions → Option Bytes × Result Error ClaudeResult
  apply_claude_integration t calls file options =
      if is_nil options.settings_path
      then (file, err (codes "Claude settings path is required"))
      else applied calls file (prepare t calls file (with_defaults options))
