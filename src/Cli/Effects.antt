-- ===== src/Cli/Effects.antt =====
-- What `cachy integrations codex install` leaves for `cachy doctor`.
use cachy.Base.{false, ◌≡◌, refl, ap, [], ◌∷◌, is_nil, Result, ok, err}
use cachy.Text.{Bytes, codes, equal, equal_refl}
use cachy.Tokens.{Error}
use cachy.Platform.{lookup}
use cachy.Install.Codex.{
  CodexResult, with_defaults, apply_codex_integration, default_codex_config_path,
}
use cachy.Install.Codex.Removed.{Installs}
use cachy.Doctor.{status_ok, check_codex_integration}
use cachy.Doctor.Configured.{check_codex_integration-found}
use cachy.Cli.Flags.{Values, parse, parse_from, value_of, is_set}
use cachy.Cli.Environment.{World, Deps, set_file, read_world, collect_doctor_env}
use cachy.Cli.Integrations.{
  codex_options, codex_output, codex_at, codex_with, path_or, run_codex_integration_command,
  run_integrations_command,
}
use cachy.Cli.Run.{doctor_env, doctor_config, home_from_env, path_or_empty, run_with_deps}

codex_output-ok :
    (outcome : Result Error CodexResult)
    → (codex_output outcome).code ≡ 0
    → (result : CodexResult) × (outcome ≡ ok result)
unfolding codex_output
codex_output-ok (ok result) zero = (result, refl)
codex_output-ok (err e) zero = cc zero

-- What a run on the file of a path leaves there.
module _ (d : Deps) (w : World) (values : Values) (action path : Bytes) where
  codex_at-found :
      Installs (with_defaults (codex_options action path values)).action
      → is_set (codes "dry-run") values ≡ false
      → (codex_at d w action values (ok path)).1.code ≡ 0
      → (check_codex_integration
          (doctor_env d (codex_at d w action values (ok path)).0)
          path).status
        ≡ status_ok
  unfolding codex_at read_world set_file doctor_env codex_options is_set
  codex_at-found installs wet zero =
      let options = codex_options action path values in
      let run = apply_codex_integration d.tools d.calls (w.files path) options in
      let (result, succeeded) = codex_output-ok run.1 zero in
      check_codex_integration-found (doctor_env d (set_file w path run.0)) d.tools d.calls options
        (w.files path) run.0 result installs wet
        (ap (λ (r : Result Error CodexResult). (run.0, r)) succeeded) (rw (equal_refl path) refl)

-- Both commands take the same path.
module _ (d : Deps) (values : Values) where
  doctor_path :
      is_nil (d.getenv (codes "HOME")) ≡ false
      → (doctor_config d values).codex_config_path
        ≡ path_or_empty (
            default_codex_config_path d.tools
              (d.getenv (codes "HOME"))
              (d.getenv (codes "CODEX_HOME")))
  unfolding doctor_config home_from_env collect_doctor_env lookup equal
  doctor_path home = rw home refl

module _ (d : Deps) (w : World) (values : Values) where
  codex_default-found :
      (default : Result Error Bytes)
      → (codex_at d w (codes "install") [] default).1.code ≡ 0
      → (check_codex_integration
          (doctor_env d (codex_at d w (codes "install") [] default).0)
          (path_or_empty default)).status
        ≡ status_ok
  unfolding codex_at path_or_empty is_set with_defaults codex_options
  codex_default-found (err e) zero = cc zero
  codex_default-found (ok path) zero = codex_at-found d w [] (codes "install") path refl refl zero

  -- If `cachy integrations codex install` succeeds, then in the world that it leaves the doctor finds
  -- the integration at the path it looks at, whatever its flags, provided that HOME is set.
  pub check_codex_integration-run_with_deps :
      is_nil (d.getenv (codes "HOME")) ≡ false
      → (run_with_deps d w (codes "integrations" ∷ codes "codex" ∷ codes "install" ∷ [])).1.code ≡ 0
      → (check_codex_integration
          (doctor_env d
            (run_with_deps d w (codes "integrations" ∷ codes "codex" ∷ codes "install" ∷ [])).0)
          (doctor_config d values).codex_config_path).status
        ≡ status_ok
  unfolding run_with_deps run_integrations_command run_codex_integration_command codex_with path_or
      parse parse_from value_of equal
  check_codex_integration-run_with_deps home zero = rw (doctor_path d values home) (
      codex_default-found
        (default_codex_config_path d.tools (d.getenv (codes "HOME"))
          (d.getenv (codes "CODEX_HOME")))
        zero)
