-- ===== src/Plugin/Lifecycle/Fixture.antt =====
-- `TestPlugin` of internal/plugin/lifecycle.go: one run of an enabled plugin on a fixture.
pub mod Tested
use cachy.Base.{
  Bool, true, false, not, List, [], ◌∷◌, if◌then◌else◌, Result, ok, err, ◌>>=◌, map_err,
}
use cachy.Text.{Bytes, codes}
use cachy.Tokens.{Error}
use cachy.Plugin.{Manifest}
use cachy.Plugin.Host.{RunInput, PluginOutput}
use cachy.Plugin.Compressor.{Info}
use cachy.Plugin.Lifecycle.{Files, LifecycleError, inspect_plugin}

pub data TestError : Type 0 where
  not_inspected : LifecycleError → TestError
  plugin_disabled : TestError
  unreadable failed_run : Error → TestError

pub record TestResult : Type 0 where
  pub plugin : Info
  pub output : PluginOutput

-- The runner, and os.ReadFile.
pub record Bench : Type 0 where
  pub runner : Manifest → Bytes → RunInput → Result Error PluginOutput
  pub read_file : Bytes → Result Error Bytes

abbrev wasm_file : Bytes
wasm_file = codes "plugin.wasm"

first_of : List Bytes → Bytes
first_of [] = codes "text"
first_of (c ∷ cs) = c

pub first_compress_capability : Manifest → Bytes
unfolding first_of
first_compress_capability m = first_of m.capabilities.compress

-- The input; the runner fills in the version of the interface.
pub fixture_input : Manifest → Bytes → RunInput
fixture_input m fixture = record {
  api_version = [];
  request_id = codes "plugin-test";
  provider = codes "fixture";
  model = codes "fixture";
  content_type = first_compress_capability m;
  block = record { id = codes "fixture"; role = codes "tool"; text = fixture };
  metadata = (codes "source", codes "fixture") ∷ [];
}

module _ (join : Bytes → Bytes → Bytes) (bench : Bench) where
  pub run_fixture : Bytes → Info → Result TestError TestResult
  run_fixture path info = if not info.enabled then err plugin_disabled else do
    fixture ← map_err unreadable (bench.read_file path)
    wasm ← map_err unreadable (bench.read_file (join info.dir wasm_file))
    output ←
        map_err failed_run (bench.runner info.manifest wasm (fixture_input info.manifest fixture))
    ok (record { plugin = info; output = output })

  pub test_plugin : Files → Bytes → Bytes → Bytes → Result TestError TestResult
  test_plugin files root name path = do
    info ← map_err not_inspected (inspect_plugin join files root name)
    run_fixture path info
