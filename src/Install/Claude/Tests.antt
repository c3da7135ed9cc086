-- ===== src/Install/Claude/Tests.antt =====
-- Runs of the integration with Claude.
use cachy.Base.{◌≡◌, refl, true, false, none, some, [], ◌++◌, ok, if◌then◌else◌}
use cachy.Text.{Bytes, codes, equal}
use cachy.Install.{Tools, FileCalls, validate_base_url, checked_url, read_optional_file, write_file}
use cachy.Install.Json.{
  as_object, JsonFields, empty, field, null, string, object, get, set, is_empty, string_or_empty,
  clone_json_map,
}
use cachy.Install.Claude.{
  JsonCodec, ClaudeOptions, ClaudeResult, env_key, cachy_key, url_key, child_map, plan_with,
  map_or_empty, is_foreign, plan_install, plan_uninstall, plan_claude_settings, preserved,
  configured, parse_json_map, marshal_settings, normalize_json, text_or, with_defaults, validated,
  plan_result, outcome_of, carry_out, applied, prepare, apply_claude_integration,
  default_claude_settings_path,
}
use cachy.Install.Claude.Restored.{no_env, plan_uninstall-plan_install, plan_uninstall_loses}
use cachy.Install.Claude.Kept.{get-plan_other}
use cachy.Install.Claude.Applied.{Reported, apply_claude_integration-Reported}

abbrev proxy : Bytes
proxy = codes "http://h"

abbrev theme : Bytes
theme = codes "theme"

abbrev settings : JsonFields
settings = field theme (string (codes "dark")) empty

-- The user has Cachy's URL already.
abbrev pointed : JsonFields
pointed = field env_key (object (field url_key (string proxy) empty)) empty

free : (get cachy_key settings ≡ none) × (get env_key settings ≡ none)
unfolding get equal
free = (refl, refl)

plan_uninstall-plan_install_example : plan_uninstall (plan_install settings proxy).0 ≡ settings
plan_uninstall-plan_install_example =
    plan_uninstall-plan_install proxy settings refl free.0 (no_env free.1)

pointed-free :
    (get cachy_key pointed ≡ none)
    × (get env_key pointed ≡ some (object (field url_key (string proxy) empty)))
    × (string_or_empty url_key (field url_key (string proxy) empty) ≡ proxy)
unfolding get equal string_or_empty
pointed-free = (refl, refl, refl)

plan_uninstall_loses_example :
    ((plan_install pointed proxy).1 ≡ preserved)
    × (string_or_empty url_key (child_map (plan_uninstall (plan_install pointed proxy).0) env_key)
        ≡ [])
plan_uninstall_loses_example =
    plan_uninstall_loses proxy pointed (field url_key (string proxy) empty) refl pointed-free.0
      pointed-free.1 pointed-free.2

other_key : (equal env_key theme ≡ false) × (equal cachy_key theme ≡ false)
unfolding equal
other_key = (refl, refl)

get-plan_other_example :
    (get theme (plan_install settings proxy).0 ≡ get theme settings)
    × (get theme (plan_uninstall settings) ≡ get theme settings)
get-plan_other_example = get-plan_other proxy theme other_key.0 other_key.1 settings

-- A codec that tells the empty map from the others.
abbrev codec : JsonCodec
codec = record {
  unmarshal =
      λ text. ok (some (if equal text (codes "{}\n") then empty else field cachy_key null empty));
  marshal_indent = λ m. ok (if is_empty m then codes "{}" else codes "{cachy}");
}

abbrev tools : Tools
tools = record {
  parse_url = λ raw. ok (record { scheme = codes "http"; host = raw; path = []; raw_query = [] });
  join_path = λ a b. a ++ (codes "/" ++ b);
  is_print = λ r. true;
}

abbrev sound : FileCalls
sound = record { read_error = none; mkdir_error = none; write_error = none }

abbrev options : ClaudeOptions
options = record {
  action = [];
  settings_path = codes "s";
  anthropic_base_url = proxy;
  dry_run = false;
}

abbrev result : ClaudeResult
result = record {
  action = codes "install";
  dry_run = false;
  changed = true;
  path = codes "s";
  preview = codes "{cachy}\n";
  message = configured;
}

install_run :
    apply_claude_integration codec tools sound (some (codes "{}\n")) options
    ≡ (some (codes "{cachy}\n"), ok result)
unfolding apply_claude_integration applied prepare validated with_defaults validate_base_url
    checked_url equal read_optional_file write_file parse_json_map map_or_empty plan_claude_settings
    clone_json_map plan_install plan_with is_foreign string_or_empty child_map get set is_empty
    marshal_settings normalize_json text_or plan_result carry_out outcome_of as_object
install_run = refl

apply_claude_integration-Reported_example :
    Reported codec tools options (some (codes "{}\n")) (some (codes "{cachy}\n")) result
apply_claude_integration-Reported_example =
    apply_claude_integration-Reported codec tools sound options (some (codes "{}\n"))
      (some (codes "{cachy}\n")) result install_run

default_claude_settings_path_run :
    default_claude_settings_path tools (codes "/h") [] ≡ ok (codes "/h/.claude/settings.json")
unfolding default_claude_settings_path
default_claude_settings_path_run = refl
