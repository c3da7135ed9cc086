-- ===== src/Plugin/Lifecycle/Fixture/Tested.antt =====
-- What a command leaves for `TestPlugin`.
use cachy.Base.{◌≡◌, ◌≢◌, refl, Bool, true, false, if◌then◌else◌, ok, err}
use cachy.Text.{Bytes}
use cachy.Plugin.Compressor.{Info}
use cachy.Plugin.Lifecycle.{
  no_failure, Files, manifest_file, enabled_file, inspect_plugin, set_enabled,
}
use cachy.Plugin.Lifecycle.Enabled.{inspect_plugin-set_enabled}
use cachy.Plugin.Lifecycle.Fixture.{plugin_disabled, Bench, run_fixture, test_plugin}

module _ (join : Bytes → Bytes → Bytes) (bench : Bench) (root name path : Bytes) (files : Files)
    (info : Info) (apart : join (join root name) manifest_file ≢ join (join root name) enabled_file)
    (inspected : inspect_plugin join files root name ≡ ok info) where
  run_marked :
      (on : Bool)
      → run_fixture join bench path (record info { enabled = on }) ≡ (
          if on
          then run_fixture join bench path (record info { enabled = true })
          else err plugin_disabled)
  unfolding run_fixture
  run_marked true = refl
  run_marked false = refl

  -- After a plugin that is found is enabled, its test is a run of it on the fixture, and after it is
  -- disabled, its test is refused, whatever it was before, if the marker could be written or removed and
  -- is not the manifest.
  pub test_plugin-set_enabled :
      (on : Bool)
      → test_plugin join bench (set_enabled join no_failure files root name on).0 root name path ≡ (
          if on
          then run_fixture join bench path (record info { enabled = true })
          else err plugin_disabled)
  unfolding test_plugin
  test_plugin-set_enabled on =
      rw (inspect_plugin-set_enabled join root name files on info apart inspected) (run_marked on)
