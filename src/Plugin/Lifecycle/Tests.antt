-- ===== src/Plugin/Lifecycle/Tests.antt =====
-- Runs of the plugin lifecycle.
use cachy.Text.Space.{trim_space}
use cachy.Plugin.{
  limit_problem, limit_problems, is_supported, compress_problems, capability_problems,
  matches_suffix, after_digits, after_part, matches_version, version_problems, last_byte,
  matches_name, name_problems, validate_manifest,
}
use cachy.Base.{err, ◌≡◌, ◌≢◌, refl, true, false, some, [], ◌∷◌, ◌++◌, if◌then◌else◌, ok}
use cachy.Text.{Bytes, codes, equal}
use cachy.Plugin.Tests.{manifest}
use cachy.Plugin.Compressor.{Info}
use cachy.Plugin.Lifecycle.{
  no_failure, Files, exists, missing, manifest_file, enabled_file, load_manifest, accept,
  with_marker, found, named, named_plugin, inspect_plugin_dir, inspect_plugin, set_enabled,
  list_plugins, list_dir, list_entries, listed,
}
use cachy.Plugin.Lifecycle.Fixture.{Bench, plugin_disabled, run_fixture, test_plugin}
use cachy.Plugin.Lifecycle.Fixture.Tested.{test_plugin-set_enabled}

abbrev slashed : Bytes → Bytes → Bytes
slashed dir name = dir ++ (codes "/" ++ name)

abbrev files : Files
files = record {
  stat = λ path. if equal path (codes "/p/log-trim/manifest.toml") then exists else missing;
  entries = λ root. ok (
      some (
        record { name = codes "log-trim"; is_dir = true }
        ∷ record { name = codes "empty"; is_dir = true }
        ∷ record { name = codes "notes"; is_dir = false }
        ∷ []));
  decode_file = λ path. some manifest;
}

abbrev info : Info
info = record { manifest = manifest; dir = codes "/p/log-trim"; enabled = false }

accept_run : load_manifest (some manifest) ≡ ok manifest
unfolding load_manifest accept validate_manifest name_problems trim_space matches_name last_byte
    version_problems matches_version after_part after_digits matches_suffix equal
    capability_problems compress_problems is_supported limit_problems limit_problem
accept_run = refl

inspect_plugin_run : inspect_plugin slashed files (codes "/p") (codes "log-trim") ≡ ok info
unfolding inspect_plugin inspect_plugin_dir named_plugin named found with_marker equal matches_name
    last_byte
inspect_plugin_run = rw accept_run refl

list_plugins_run : list_plugins slashed (λ infos. infos) files (codes "/p") ≡ ok (info ∷ [])
unfolding list_plugins list_dir list_entries listed inspect_plugin_dir found with_marker equal
list_plugins_run = rw accept_run refl

apart : slashed (codes "/p/log-trim") manifest_file ≢ slashed (codes "/p/log-trim") enabled_file
apart e = cc e

abbrev bench : Bench
bench = record {
  runner = λ m wasm input. ok (record {
    action = codes "keep";
    text = wasm ++ input.block.text;
    summary = [];
    confidence = [];
    lossiness = [];
  });
  read_file = λ path. ok path;
}

test_plugin-set_enabled_example :
    test_plugin slashed bench
      (set_enabled slashed no_failure files (codes "/p") (codes "log-trim") true).0
      (codes "/p")
      (codes "log-trim")
      (codes "f")
    ≡ (if true
        then run_fixture slashed bench (codes "f") (record info { enabled = true })
        else err plugin_disabled)
test_plugin-set_enabled_example =
    test_plugin-set_enabled slashed bench (codes "/p") (codes "log-trim") (codes "f") files info
      apart inspect_plugin_run true
