-- ===== src/Plugin/Compressor.antt =====
-- internal/plugin/wasm_compressor.go: the compressor that asks plugins. The host runner and the reading
-- of a plugin's file are parameters, as they are fields of the compressor.
pub mod Asked
mod Tests
use cachy.Base.{
  Bool, true, false, not, ◌&&◌, Option, none, some, List, [], ◌∷◌, if◌then◌else◌, any, keep, Result,
  ok, err, ◌>>=◌,
}
use cachy.Text.{Bytes, codes, equal}
use cachy.Tokens.{Error}
use cachy.Compress.Block.{
  Provider, openai, anthropic, other_provider, Stability, stable, live, other_stability, Source,
  system, user_message, assistant_message, tool_result, ContentType, text, log, code, diff, json,
  other_content, Block,
}
use cachy.Compress.Pipeline.{Proposal, Compressor}
use cachy.Plugin.{Manifest, supported_api_version}
use cachy.Plugin.Host.{RunInput, PluginOutput}

-- internal/plugin/lifecycle.go
pub record Info : Type 0 where
  pub manifest : Manifest
  pub dir : Bytes
  pub enabled : Bool

pub record Host : Type 0 where
  pub runner : Manifest → Bytes → RunInput → Result Error PluginOutput
  pub read_wasm : Info → Result Error Bytes
  pub request_id : Bytes
  pub model : Bytes

abbrev provider_text : Provider → Bytes
provider_text openai = codes "openai"
provider_text anthropic = codes "anthropic"
provider_text (other_provider p) = p

abbrev stability_text : Stability → Bytes
stability_text stable = codes "stable"
stability_text live = codes "live"
stability_text (other_stability s) = s

abbrev source_text : Source → Bytes
source_text system = codes "system"
source_text user_message = codes "user_message"
source_text assistant_message = codes "assistant_message"
source_text tool_result = codes "tool_result"

abbrev pub content_type_text : ContentType → Bytes
content_type_text text = codes "text"
content_type_text log = codes "log"
content_type_text code = codes "code"
content_type_text diff = codes "diff"
content_type_text json = codes "json"
content_type_text (other_content c) = c

pub can_plugin_compress : Info → ContentType → Bool
can_plugin_compress info kind =
    if not info.enabled
    then false
    else any (λ c. equal c (content_type_text kind)) info.manifest.capabilities.compress

abbrev pub unchanged : Block → Proposal
unchanged block = record { text = block.content; bytes = none }

-- The input of the runner for a block.
pub block_input : Host → Block → RunInput
block_input host block = record {
  api_version = supported_api_version;
  request_id = host.request_id;
  provider = provider_text block.provider;
  model = host.model;
  content_type = content_type_text block.content_type;
  block = record { id = block.id; role = block.role; text = block.content };
  metadata =
      (codes "path", block.path)
      ∷ (codes "source", source_text block.source)
      ∷ (codes "stability", stability_text block.stability)
      ∷ [];
}

abbrev pub proposed : Block → PluginOutput → Proposal
proposed block output =
    if equal output.action (codes "replace")
    then record { text = output.text; bytes = none }
    else unchanged block

pub ask : Host → Info → Block → Result Error Proposal
ask host info block = do
  wasm ← host.read_wasm info
  output ← host.runner info.manifest wasm (block_input host block)
  ok (proposed block output)

-- WASMCompressor.Compress over its plugins
pub compress : Host → List Info → Compressor
compress host [] block = ok (unchanged block)
compress host (info ∷ infos) block =
    let later = compress host infos block in
    if not (can_plugin_compress info block.content_type) then later else ask host info block

-- The plugins that LoadWASMCompressor keeps of those that are listed.
pub load_plugins : List Info → List Info
load_plugins = keep (λ (info : Info). info.enabled)
