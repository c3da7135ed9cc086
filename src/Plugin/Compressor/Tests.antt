-- ===== src/Plugin/Compressor/Tests.antt =====
-- Runs of the compressor that asks plugins.
use cachy.Base.{◌≡◌, refl, none, true, false, ok, [], ◌∷◌}
use cachy.Text.{equal, codes}
use cachy.Compress.Block.{Block, openai, tool_result, live, log}
use cachy.Plugin.Tests.{manifest}
use cachy.Plugin.Compressor.{Info, Host, can_plugin_compress, ask, block_input, compress}
use cachy.Plugin.Compressor.Asked.{Asked, compress-Asked}

abbrev host : Host
host = record {
  runner = λ m wasm i. ok (record {
    action = codes "replace";
    text = codes "short";
    summary = [];
    confidence = [];
    lossiness = [];
  });
  read_wasm = λ info. ok [];
  request_id = [];
  model = [];
}

abbrev info : Info
info = record { manifest = manifest; dir = []; enabled = true }

abbrev disabled : Info
disabled = record info { enabled = false }

abbrev block : Block
block = record {
  id = codes "b1";
  provider = openai;
  path = [];
  role = codes "tool";
  source = tool_result;
  stability = live;
  content_type = log;
  content = codes "log log";
  selected = true;
}

disabled-cannot : can_plugin_compress disabled log ≡ false
unfolding can_plugin_compress
disabled-cannot = refl

info_can : can_plugin_compress info log ≡ true
unfolding can_plugin_compress equal
info_can = refl

ask_run : ask host info block ≡ ok (record { text = codes "short"; bytes = none })
unfolding ask block_input equal
ask_run = refl

compress-Asked_example :
    Asked host block (disabled ∷ info ∷ []) (compress host (disabled ∷ info ∷ []) block)
compress-Asked_example = compress-Asked host block (disabled ∷ info ∷ [])
