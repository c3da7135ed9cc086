-- ===== src/Install/Codex/Tests.antt =====
-- Runs of the integration with Codex.
use cachy.Install.Codex.Sample.{
  tools, sound, file, options, installed, result, install_run, installs,
}
use cachy.Base.{◌≡◌, refl, false, none, some, [], ok, err, Option}
use cachy.Text.{Bytes, codes, equal, has_prefix, contains, find, split, join, trim_left, trim_right}
use cachy.Text.Quote.{quote}
use cachy.Install.{
  contents, FileCalls, validate_base_url, checked_url, read_optional_file, write_file,
}
use cachy.Text.Space.{trim_space}
use cachy.Install.Codex.{
  applied, prepare, validated, plan_codex_config, carry_out, outcome_of, plan_result, append_block,
  from_begin, from_end, joined, skip_byte, trailing_newline, render_codex_managed_block,
  block_lines, has_top_level_model_provider, sets_model_provider, CodexResult,
  default_codex_config_path, remove_managed_block, apply_codex_integration, managed_codex_begin,
  managed_codex_end, with_defaults,
}
use cachy.Install.Codex.Settled.{settled}
use cachy.Install.Codex.Removed.{Installs}
use cachy.Install.Codex.Applied.{
  Reported, apply_codex_integration-Reported, apply_codex_integration-fails,
}
use cachy.Install.Codex.Twice.{acting, apply-apply_install, apply-apply_uninstall}

apply_codex_integration-Reported_example : Reported tools options file (some installed) result
apply_codex_integration-Reported_example =
    apply_codex_integration-Reported tools sound options file (some installed) result install_run

abbrev locked : FileCalls
locked = record { read_error = none; mkdir_error = some (codes "denied"); write_error = none }

locked_run : apply_codex_integration tools locked file options ≡ (file, err (codes "denied"))
unfolding apply_codex_integration applied prepare validated equal with_defaults validate_base_url
    checked_url read_optional_file write_file plan_codex_config carry_out outcome_of plan_result
    append_block trim_right trim_left remove_managed_block from_begin from_end joined skip_byte
    trailing_newline find render_codex_managed_block block_lines has_top_level_model_provider
    sets_model_provider join quote trim_space contains has_prefix split
locked_run = refl

apply_codex_integration-fails_example : ◌≡◌ {A = Option Bytes} file file
apply_codex_integration-fails_example =
    apply_codex_integration-fails tools locked options file file (codes "denied") refl locked_run

nothing_managed : contains (remove_managed_block (contents file)) managed_codex_begin ≡ false
unfolding remove_managed_block contains from_begin find
nothing_managed = refl

plain_url :
    contains (quote tools.is_print (with_defaults options).proxy_base_url) managed_codex_end ≡ false
unfolding with_defaults quote contains has_prefix
plain_url = refl

repair : Installs (codes "repair")
unfolding equal
repair = refl

apply-apply_install_example :
    apply_codex_integration tools sound (some installed) (acting (codes "repair") options)
    ≡ (some installed, ok (record result { action = codes "repair"; changed = false }))
apply-apply_install_example =
    apply-apply_install tools sound options file (some installed) result nothing_managed plain_url
      installs refl install_run sound (codes "repair") repair refl

apply-apply_uninstall_example :
    (file'' : Option Bytes) × (r : CodexResult) × (apply_codex_integration tools sound
        (some installed)
        (acting (codes "uninstall") options)
      ≡ (file'', ok r))
    × (contents file'' ≡ settled (remove_managed_block (contents file)))
apply-apply_uninstall_example =
    apply-apply_uninstall tools sound options file (some installed) result nothing_managed plain_url
      installs refl install_run sound refl refl refl

remove_managed_block_run :
    remove_managed_block (codes "a\n# BEGIN CACHY CODEX INTEGRATION\nb") ≡ codes "a\n"
unfolding remove_managed_block from_begin find from_end
remove_managed_block_run = refl

default_codex_config_path_run :
    default_codex_config_path tools (codes "/h") [] ≡ ok (codes "/h/.codex/config.toml")
unfolding default_codex_config_path
default_codex_config_path_run = refl
