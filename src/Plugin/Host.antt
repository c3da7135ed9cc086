-- ===== src/Plugin/Host.antt =====
-- internal/plugin/host.go: one run of a plugin. The WebAssembly runtime is a parameter: an `Execution` is
-- what it does, with the calls that the plugin makes of `output_write`. encoding/json is one too.
pub mod Limited
mod Tests
use cachy.Base.{
  ◌*◌, ℕ, Bool, true, false, not, Option, none, some, List, [], ◌∷◌, ltb, ◌==◌, if◌then◌else◌,
  is_nil, any, length, Result, ok, err, ◌>>=◌,
}
use cachy.Base.Int.{pos, ltb_ℤ, pos_part}
use cachy.Text.{Bytes, codes, equal}
use cachy.Text.Utf8.{valid}
use cachy.Tokens.{Error}
use cachy.Plugin.{Manifest, Problem, supported_api_version, validate_manifest}

pub record BlockInput : Type 0 where
  pub id : Bytes
  pub role : Bytes
  pub text : Bytes

-- The metadata are the pairs of their names and values.
pub record RunInput : Type 0 where
  pub api_version : Bytes
  pub request_id : Bytes
  pub provider : Bytes
  pub model : Bytes
  pub content_type : Bytes
  pub block : BlockInput
  pub metadata : List (Bytes × Bytes)

-- The confidence, a float64, stands as the text that was decoded.
pub record PluginOutput : Type 0 where
  pub action : Bytes
  pub text : Bytes
  pub summary : Bytes
  pub confidence : Bytes
  pub lossiness : Bytes

-- ErrInvalidManifest, and ErrPluginExecution with its causes.
pub data PluginError : Type 0 where
  invalid_manifest : List Problem → PluginError
  encode_input : Error → PluginError
  input_too_large : PluginError
  instantiate_host instantiate_module : Error → PluginError
  run_required : PluginError
  run_failed : Error → PluginError
  no_output output_too_large invalid_output undecodable : PluginError
  unsupported_action : Bytes → PluginError

-- A call of output_write: the count, and what the memory holds there, if it reaches so far.
pub record Write : Type 0 where
  pub byte_count : ℕ
  pub payload : Option Bytes

-- The outcomes of the runtime's calls in their order; `none` is no error.
pub record Execution : Type 0 where
  pub host_error : Option Error
  pub module_error : Option Error
  pub exports_run : Bool
  pub run_error : Option Error
  pub writes : List Write

-- math.Ceil(bytes / 65536) of whole mebibytes
pub memory_pages : ℕ → ℕ
memory_pages memory_mb = memory_mb * 16

write_payload : Bytes → Option Bytes → Bytes
write_payload output none = output
write_payload output (some payload) = payload

-- The buffer after the calls of output_write, each of which replaces it or leaves it.
pub output_after : ℕ → Bytes → List Write → Bytes
output_after most output [] = output
output_after most output (w ∷ ws) =
    output_after most (if ltb most w.byte_count then output else write_payload output w.payload) ws

abbrev actions : List Bytes
actions = codes "keep" ∷ codes "replace" ∷ codes "annotate" ∷ codes "reject" ∷ []

pub validate_plugin_output : PluginOutput → Bool
validate_plugin_output output = any (λ action. equal action output.action) actions

abbrev without_error : PluginError → Bool → Result PluginError Bool
without_error e failed = if failed then err e else ok true

abbrev no_failure : (Error → PluginError) → Option Error → Result PluginError Bool
no_failure f none = ok true
no_failure f (some e) = err (f e)

pub with_version : RunInput → RunInput
with_version input =
    if is_nil input.api_version then record input { api_version = supported_api_version } else input

module _ (marshal : RunInput → Result Error Bytes) (decode : Bytes → Option PluginOutput) where
  pub check_output : Option PluginOutput → Result PluginError PluginOutput
  check_output none = err undecodable
  check_output (some output) =
      if not (validate_plugin_output output)
      then err (unsupported_action output.action)
      else ok output

  -- What follows the run, from the buffer on.
  pub read_output : ℕ → Bytes → Result PluginError PluginOutput
  read_output most output =
      if length output == 0
      then err no_output
      else if ltb most (length output)
      then err output_too_large
      else if not (valid output)
      then err invalid_output
      else check_output (decode output)

  pub execute : Manifest → Execution → Result PluginError PluginOutput
  execute m x = do
    host ← no_failure instantiate_host x.host_error
    module' ← no_failure instantiate_module x.module_error
    run ← without_error run_required (not x.exports_run)
    called ← no_failure run_failed x.run_error
    let most = pos_part m.limits.max_output_bytes
    read_output most (output_after most [] x.writes)

  pub send_input : Manifest → Execution → Result Error Bytes → Result PluginError PluginOutput
  send_input m x (err e) = err (encode_input e)
  send_input m x (ok payload) =
      if ltb_ℤ m.limits.max_input_bytes (pos (length payload))
      then err input_too_large
      else execute m x

  pub run_valid : Manifest → Execution → RunInput → List Problem → Result PluginError PluginOutput
  run_valid m x input [] = send_input m x (marshal (with_version input))
  run_valid m x input (p ∷ ps) = err (invalid_manifest (p ∷ ps))

  pub run_wasm : Manifest → Execution → RunInput → Result PluginError PluginOutput
  run_wasm m x input = run_valid m x input (validate_manifest m)
