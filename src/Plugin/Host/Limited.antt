-- ===== src/Plugin/Host/Limited.antt =====
-- What a run that succeeds has been held to.
use cachy.Base.{
  ◌↔◌, ℕ, ◌≡◌, ◌≤◌, refl, true, Option, none, some, List, [], ◌∷◌, arith, length, Result, ok, err,
}
use cachy.Base.Int.{pos, pos_part, ◌≤ℤ◌}
use cachy.Text.{Bytes}
use cachy.Text.Utf8.{valid}
use cachy.Tokens.{Error}
use cachy.Plugin.{Manifest, Problem, validate_manifest}
use cachy.Plugin.Accepted.{IsAccepted, validate_manifest-IsAccepted}
use cachy.Plugin.Host.{
  RunInput, PluginOutput, Execution, output_after, validate_plugin_output, with_version,
  check_output, read_output, execute, send_input, run_valid, run_wasm,
}

module _ (marshal : RunInput → Result Error Bytes) (decode : Bytes → Option PluginOutput) where
  -- The payload that the plugin wrote, and what was decoded from it.
  pub record IsLimited (m : Manifest) (x : Execution) (output : PluginOutput) : Type 0 where
    pub not_empty : 1 ≤ length (output_after (pos_part m.limits.max_output_bytes) [] x.writes)
    pub fits :
        length (output_after (pos_part m.limits.max_output_bytes) [] x.writes)
        ≤ pos_part m.limits.max_output_bytes
    pub is_text : valid (output_after (pos_part m.limits.max_output_bytes) [] x.writes) ≡ true
    pub decoded :
        decode (output_after (pos_part m.limits.max_output_bytes) [] x.writes) ≡ some output
    pub supported : validate_plugin_output output ≡ true
    pub ran : (x.exports_run ≡ true) × (x.run_error ≡ none)
    pub instantiated : (x.host_error ≡ none) × (x.module_error ≡ none)

  check_output-some :
      (found : Option PluginOutput) (output : PluginOutput)
      → check_output marshal decode found ≡ ok output
      → (found ≡ some output) × (validate_plugin_output output ≡ true)
  unfolding check_output
  check_output-some none output h = cc h
  check_output-some (some o) output h = ground arith

  execute-IsLimited :
      (m : Manifest) (x : Execution) (output : PluginOutput)
      → execute marshal decode m x ≡ ok output
      → IsLimited m x output
  unfolding execute read_output
  execute-IsLimited m x output h = ground (
    arith,
    check_output-some (decode (output_after (pos_part m.limits.max_output_bytes) [] x.writes))
        output,
  )

  read_output_ok :
      (most : ℕ) (buffer : Bytes) (output : PluginOutput)
      → 1 ≤ length buffer
      → length buffer ≤ most
      → valid buffer ≡ true
      → decode buffer ≡ some output
      → validate_plugin_output output ≡ true
      → read_output marshal decode most buffer ≡ ok output
  unfolding read_output check_output
  read_output_ok most buffer output some_output fits is_text decoded supported =
      rw decoded (ground (arith, is_text, supported))

  execute_ok :
      (m : Manifest) (x : Execution) (output : PluginOutput)
      → IsLimited m x output
      → execute marshal decode m x ≡ ok output
  unfolding execute
  execute_ok m x output h = ground (
    arith,
    h.ran,
    h.instantiated,
    read_output_ok (pos_part m.limits.max_output_bytes)
        (output_after (pos_part m.limits.max_output_bytes) [] x.writes) output h.not_empty h.fits
        h.is_text h.decoded h.supported,
  )

  -- The input, with its version put in, is encoded in at most `MaxInputBytes` bytes.
  abbrev pub InputFits : Manifest → Result Error Bytes → Type 0
  InputFits m (ok payload) = pos (length payload) ≤ℤ m.limits.max_input_bytes
  InputFits m (err e) = ⊥

  send_input_iff :
      (m : Manifest) (x : Execution) (payload : Result Error Bytes) (output : PluginOutput)
      → (send_input marshal decode m x payload ≡ ok output)
        ↔ (InputFits m payload × IsLimited m x output)
  unfolding send_input
  send_input_iff m x (err e) output = ((λ h. cc h), (λ h. elim h.0 [ ]))
  send_input_iff m x (ok payload) output = (
    (λ h. (ground arith, execute-IsLimited m x output (ground arith))),
    (λ h. ground (arith, execute_ok m x output h.1, h.0)),
  )

  run_valid_iff :
      (m : Manifest) (x : Execution) (input : RunInput) (problems : List Problem)
      (output : PluginOutput)
      → (run_valid marshal decode m x input problems ≡ ok output)
        ↔ ((problems ≡ []) × InputFits m (marshal (with_version input)) × IsLimited m x output)
  unfolding run_valid
  run_valid_iff m x input [] output =
      let (to, from) = send_input_iff m x (marshal (with_version input)) output in
      ((λ h. (refl, (to h).0, (to h).1)), (λ h. from (h.1, h.2)))
  run_valid_iff m x input (p ∷ ps) output = ((λ h. cc h), (λ h. cc (h.0)))

  -- `RunWASM` returns an output exactly if the manifest is accepted, the encoded input is within its
  -- limit, the runtime reports no error, and what the plugin wrote is not empty, within the output
  -- limit, valid UTF-8, and decodes to this output with one of the four actions.
  pub run_wasm_iff :
      (m : Manifest) (x : Execution) (input : RunInput) (output : PluginOutput)
      → (run_wasm marshal decode m x input ≡ ok output)
        ↔ (IsAccepted m × InputFits m (marshal (with_version input)) × IsLimited m x output)
  unfolding run_wasm
  run_wasm_iff m x input output =
      let (to, from) = run_valid_iff m x input (validate_manifest m) output in
      let accepted = validate_manifest-IsAccepted m in
      (
        (λ h. let (quiet, fits, limited) = to h in (accepted.0 quiet, fits, limited)),
        (λ h. from (accepted.1 h.0, h.1, h.2)),
      )
