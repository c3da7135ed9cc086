-- ===== src/Plugin/Host/Tests.antt =====
-- Runs of one plugin.
use cachy.Base.{◌≡◌, ◌↔◌, refl, Option, none, some, true, Result, ok, [], ◌∷◌}
use cachy.Tokens.{Error}
use cachy.Text.{Bytes, codes, equal}
use cachy.Text.Utf8.{valid}
use cachy.Plugin.Accepted.{IsAccepted}
use cachy.Plugin.Tests.{manifest}
use cachy.Plugin.Host.{
  run_valid, send_input, execute, output_after, write_payload, read_output, check_output,
  validate_plugin_output, RunInput, PluginOutput, Execution, with_version, run_wasm, memory_pages,
}
use cachy.Plugin.Host.Limited.{InputFits, IsLimited, run_wasm_iff}

abbrev by_text : RunInput → Result Error Bytes
by_text input = ok input.block.text

abbrev replacing : Bytes → PluginOutput
replacing t = record {
  action = codes "replace";
  text = t;
  summary = [];
  confidence = [];
  lossiness = [];
}

abbrev as_text : Bytes → Option PluginOutput
as_text t = some (replacing t)

abbrev execution : Execution
execution = record {
  host_error = none;
  module_error = none;
  exports_run = true;
  run_error = none;
  writes =
      record { byte_count = 3; payload = some (codes "log") }
      ∷ record { byte_count = 70000; payload = none }
      ∷ [];
}

abbrev input : RunInput
input = record {
  api_version = [];
  request_id = [];
  provider = codes "openai";
  model = [];
  content_type = codes "log";
  block = record { id = codes "b1"; role = codes "tool"; text = codes "log log" };
  metadata = [];
}

run_wasm_iff_example :
    (run_wasm by_text as_text manifest execution input ≡ ok (replacing (codes "log"))) ↔ (
      IsAccepted manifest
      × InputFits by_text as_text manifest (by_text (with_version input))
      × IsLimited by_text as_text manifest execution (replacing (codes "log")))
run_wasm_iff_example =
    run_wasm_iff by_text as_text manifest execution input (replacing (codes "log"))

run_valid_run : run_valid by_text as_text manifest execution input [] ≡ ok (replacing (codes "log"))
unfolding run_valid send_input with_version execute output_after write_payload read_output
    check_output validate_plugin_output valid equal
run_valid_run = refl

memory_pages_run : memory_pages 128 ≡ 2048
unfolding memory_pages
memory_pages_run = refl
