-- ===== src/Install/Codex/Sample.antt =====
-- A first installation: a file, the options and the run on it.
use cachy.Base.{◌≡◌, refl, true, false, none, some, [], ◌++◌, ok, Option}
use cachy.Text.{Bytes, codes, equal, has_prefix, contains, find, split, join, trim_left, trim_right}
use cachy.Text.Quote.{quote}
use cachy.Install.{Tools, FileCalls, validate_base_url, checked_url, read_optional_file, write_file}
use cachy.Text.Space.{trim_space}
use cachy.Install.Codex.{
  default_codex_proxy_base_url, default_codex_config_path, applied, prepare, validated,
  plan_codex_config, carry_out, outcome_of, plan_result, append_block, from_begin, from_end, joined,
  skip_byte, trailing_newline, render_codex_managed_block, block_lines,
  has_top_level_model_provider, sets_model_provider, CodexOptions, CodexResult,
  remove_managed_block, apply_codex_integration, configured, with_defaults,
}
use cachy.Install.Codex.Removed.{Installs}

-- Every address is one of a host, as these runs have it.
abbrev pub tools : Tools
tools = record {
  parse_url = λ raw. ok (record { scheme = codes "http"; host = raw; path = []; raw_query = [] });
  join_path = λ a b. a ++ (codes "/" ++ b);
  is_print = λ r. true;
}

abbrev pub sound : FileCalls
sound = record { read_error = none; mkdir_error = none; write_error = none }

abbrev pub file : Option Bytes
file = some (codes "model = 5\n\n")

abbrev pub options : CodexOptions
options = record {
  action = [];
  config_path = codes "c";
  proxy_base_url = codes "http://h";
  dry_run = false;
}

abbrev pub installed : Bytes
installed =
    codes
      "model = 5\n\n# BEGIN CACHY CODEX INTEGRATION\n# Managed by Cachy. Remove with: cachy integrations codex uninstall\nmodel_provider = \"cachy\"\n[model_providers.cachy]\nname = \"Cachy\"\nbase_url = \"http://h\"\nenv_key = \"OPENAI_API_KEY\"\nwire_api = \"responses\"\n# END CACHY CODEX INTEGRATION\n"

abbrev pub result : CodexResult
result = record {
  action = codes "install";
  dry_run = false;
  changed = true;
  path = codes "c";
  preview = installed;
  message = configured;
}

pub install_run : apply_codex_integration tools sound file options ≡ (some installed, ok result)
unfolding apply_codex_integration applied prepare validated equal with_defaults validate_base_url
    checked_url read_optional_file write_file plan_codex_config carry_out outcome_of plan_result
    append_block trim_right trim_left remove_managed_block from_begin from_end joined skip_byte
    trailing_newline find render_codex_managed_block block_lines has_top_level_model_provider
    sets_model_provider join quote trim_space contains has_prefix split
install_run = refl

pub installs : Installs (with_defaults options).action
unfolding with_defaults equal
installs = refl

-- A first installation of the defaults, where there is no file.
abbrev first_options : CodexOptions
first_options = record {
  action = codes "install";
  config_path = codes "/h/.codex/config.toml";
  proxy_base_url = default_codex_proxy_base_url;
  dry_run = false;
}

abbrev first_result : CodexResult
first_result = record {
  action = codes "install";
  dry_run = false;
  changed = true;
  path = codes "/h/.codex/config.toml";
  preview =
      codes
        "# BEGIN CACHY CODEX INTEGRATION\n# Managed by Cachy. Remove with: cachy integrations codex uninstall\nmodel_provider = \"cachy\"\n[model_providers.cachy]\nname = \"Cachy\"\nbase_url = \"http://127.0.0.1:8787/v1\"\nenv_key = \"OPENAI_API_KEY\"\nwire_api = \"responses\"\n# END CACHY CODEX INTEGRATION\n";
  message = configured;
}

pub first_run : (apply_codex_integration tools sound none first_options).1 ≡ ok first_result
unfolding apply_codex_integration applied prepare validated equal with_defaults validate_base_url
    checked_url read_optional_file write_file plan_codex_config carry_out outcome_of plan_result
    append_block trim_right trim_left remove_managed_block from_begin from_end joined skip_byte
    trailing_newline find render_codex_managed_block block_lines has_top_level_model_provider
    sets_model_provider join quote trim_space contains has_prefix split
first_run = refl

pub first_path :
    default_codex_config_path tools (codes "/h") [] ≡ ok (codes "/h/.codex/config.toml")
unfolding default_codex_config_path
first_path = refl
