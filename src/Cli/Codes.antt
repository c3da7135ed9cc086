-- ===== src/Cli/Codes.antt =====
-- How a run of `cachy` ends.
-- internal/cli/cli.go: exit codes and failing commands.
use cachy.Cli.Plugins.{
  test_output, info_output, run_plugin_command, test_with, listed_output, with_name, inspect_with,
  enabled_output, list_with, enable_with,
}
use std.Path.{fun_ext}
use cachy.Base.{
  Bool, true, false, ◌≡◌, leb, refl, ap, ◌⊎◌, inl, inr, ◌||◌, Option, none, List, [], ◌∷◌, Result,
  ok, err, arith, if◌then◌else◌,
}
use cachy.Text.{Bytes, codes, equal, equal_iff}
use cachy.Tokens.{Error}
use cachy.Install.Codex.Applied.{apply_codex_integration-fails}
use cachy.Install.Claude.Applied.{apply_claude_integration-fails}
use cachy.Plugin.Lifecycle.Enabled.{set_enabled-fails}
use cachy.Cli.Flags.{FlagError, Values}
use cachy.Cli.Environment.{World, Deps, Output, set_file}
use cachy.Cli.Integrations.{
  claude_with, run_claude_integration_command, claude_options, claude_output, claude_at,
  codex_options, rendered, recipe_with, mcp_with, run_recipe_command, run_mcp_command, codex_output,
  codex_at, codex_with, run_codex_integration_command, run_integrations_command,
}
use cachy.Cli.Run.{
  is_help, run_with_deps, run_proxy, proxy_with, served, doctor_with, run_doctor_command,
}

-- The exit code is 0, 1 or 2; unless it is 0, the world is as it was.
pub record Ended (w : World) (r : World × Output) : Type 0 where
  pub bounded : leb r.1.code 2 ≡ true
  pub careful : (r.1.code ≡ 0) ⊎ (r.0 ≡ w)

keeps : (w : World) (o : Output) → leb o.code 2 ≡ true → Ended w (w, o)
keeps w o bounded = record { bounded = bounded; careful = inr refl }

branch-Ended :
    {w : World} (b : Bool) {x y : World × Output}
    → Ended w x
    → Ended w y
    → Ended w (if b then x else y)
branch-Ended true x y = x
branch-Ended false x y = y

proxy_bounded : (d : Deps) (args : List Bytes) → leb (run_proxy d args).code 2 ≡ true
unfolding run_proxy proxy_with served
proxy_bounded d args = ground arith

doctor_bounded :
    (d : Deps) (w : World) (args : List Bytes) → leb (run_doctor_command d w args).code 2 ≡ true
unfolding run_doctor_command doctor_with
doctor_bounded d w args = ground arith

recipe_bounded : (d : Deps) (args : List Bytes) → leb (run_recipe_command d args).code 2 ≡ true
unfolding run_recipe_command recipe_with rendered
recipe_bounded d args = ground arith

mcp_bounded : (d : Deps) (args : List Bytes) → leb (run_mcp_command d args).code 2 ≡ true
unfolding run_mcp_command mcp_with rendered
mcp_bounded d args = ground arith

-- Setting a file to what it is.
set_same : (w : World) (path : Bytes) → set_file w path (w.files path) ≡ w
unfolding set_file
set_same w path =
    ap (λ (files : Bytes → Option Bytes). record w { files = files })
      (fun_ext (λ p. ground (arith, ap w.files ((equal_iff p path).0 _))))

-- A call that changes a part of the world, and an output by its outcome.
module _ {S E A : Type 0} (w : World) (put : S → World) (s : S) (same : put s ≡ w)
    (print : Result E A → Output) (good : (a : A) → (print (ok a)).code ≡ 0)
    (bad : (e : E) → leb (print (err e)).code 2 ≡ true) where
  call-Ended :
      (run : S × Result E A)
      → ((s' : S) (e : E) → run ≡ (s', err e) → s' ≡ s)
      → Ended w (put run.0, print run.1)
  call-Ended (s', ok a) failing = record { bounded = rw (good a) refl; careful = inl (good a) }
  call-Ended (s', err e) failing = record {
    bounded = bad e;
    careful = inr (rw (failing s' e refl) same);
  }

module _ (d : Deps) (w : World) where
  list_with-Ended : (parsed : Result FlagError Values) → Ended w (list_with d w parsed)
  unfolding list_with listed_output
  list_with-Ended (err e) = keeps w _ refl
  list_with-Ended (ok values) = keeps w _ (ground arith)

  inspect_with-Ended :
      (name : Bytes) (parsed : Result FlagError Values) → Ended w (inspect_with d w name parsed)
  unfolding inspect_with info_output
  inspect_with-Ended name (err e) = keeps w _ refl
  inspect_with-Ended name (ok values) = keeps w _ (ground arith)

  test_with-Ended :
      (name : Bytes) (parsed : Result FlagError Values) → Ended w (test_with d w name parsed)
  unfolding test_with test_output
  test_with-Ended name (err e) = keeps w _ refl
  test_with-Ended name (ok values) = branch-Ended _ (keeps w _ refl) (keeps w _ (ground arith))

  with_name-Ended :
      (command : Bytes) (args : List Bytes) (run : Bytes → List Bytes → World × Output)
      → ((name : Bytes) (rest : List Bytes) → Ended w (run name rest))
      → Ended w (with_name w command args run)
  unfolding with_name
  with_name-Ended command [] run all = keeps w _ refl
  with_name-Ended command (name ∷ rest) run all = all name rest

  enable_with-Ended :
      (command name : Bytes) (parsed : Result FlagError Values)
      → d.marks.write_error ≡ none
      → Ended w (enable_with d w command name parsed)
  unfolding enable_with enabled_output
  enable_with-Ended command name (err e) mark_write = keeps w _ refl
  enable_with-Ended command name (ok values) mark_write =
      call-Ended w (λ plugins. record w { plugins = plugins }) w.plugins refl
        (enabled_output d command name _) (λ a. refl) (λ e. refl) _
        (λ plugins e refused.
          set_enabled-fails d.tools.join_path d.marks w.plugins _ _ name plugins e mark_write
            refused)

  run_plugin_command-Ended :
      (args : List Bytes) → d.marks.write_error ≡ none → Ended w (run_plugin_command d w args)
  unfolding run_plugin_command
  run_plugin_command-Ended [] mark_write = keeps w _ refl
  run_plugin_command-Ended (command ∷ args) mark_write =
      branch-Ended (equal command (codes "list")) (list_with-Ended _) (
        branch-Ended (equal command (codes "inspect"))
          (with_name-Ended command args _ (λ name rest. inspect_with-Ended name _))
          (branch-Ended (equal command (codes "enable") || equal command (codes "disable"))
            (with_name-Ended command args _
              (λ name rest. enable_with-Ended command name _ mark_write))
            (branch-Ended (equal command (codes "test"))
              (with_name-Ended command args _ (λ name rest. test_with-Ended name _))
              (keeps w _ refl))))

module _ (d : Deps) (w : World) (write : d.calls.write_error ≡ none)
    (mark_write : d.marks.write_error ≡ none) where
  codex_at-Ended :
      (action : Bytes) (values : Values) (p : Result Error Bytes)
      → Ended w (codex_at d w action values p)
  unfolding codex_at codex_output
  codex_at-Ended action values (err e) = keeps w _ refl
  codex_at-Ended action values (ok path) =
      let options = codex_options action path values in
      call-Ended w (set_file w path) (w.files path) (set_same w path) codex_output (λ a. refl)
        (λ e. refl) _
        (λ file' e failed.
          apply_codex_integration-fails d.tools d.calls options (w.files path) file' e write failed)

  claude_at-Ended :
      (action : Bytes) (values : Values) (p : Result Error Bytes)
      → Ended w (claude_at d w action values p)
  unfolding claude_at claude_output
  claude_at-Ended action values (err e) = keeps w _ refl
  claude_at-Ended action values (ok path) =
      let options = claude_options action path values in
      call-Ended w (set_file w path) (w.files path) (set_same w path) claude_output (λ a. refl)
        (λ e. refl) _
        (λ file' e failed.
          apply_claude_integration-fails d.codec d.tools d.calls options (w.files path) file' e
            write failed)

  codex_with-Ended :
      (action : Bytes) (parsed : Result FlagError Values) → Ended w (codex_with d w action parsed)
  unfolding codex_with
  codex_with-Ended action (err e) = keeps w _ refl
  codex_with-Ended action (ok values) = codex_at-Ended action values _

  run_codex_integration_command-Ended :
      (args : List Bytes) → Ended w (run_codex_integration_command d w args)
  unfolding run_codex_integration_command
  run_codex_integration_command-Ended [] = keeps w _ refl
  run_codex_integration_command-Ended (action ∷ args) = codex_with-Ended action _

  claude_with-Ended :
      (action : Bytes) (parsed : Result FlagError Values) → Ended w (claude_with d w action parsed)
  unfolding claude_with
  claude_with-Ended action (err e) = keeps w _ refl
  claude_with-Ended action (ok values) = claude_at-Ended action values _

  run_claude_integration_command-Ended :
      (args : List Bytes) → Ended w (run_claude_integration_command d w args)
  unfolding run_claude_integration_command
  run_claude_integration_command-Ended [] = keeps w _ refl
  run_claude_integration_command-Ended (action ∷ args) = claude_with-Ended action _

  run_integrations_command-Ended : (args : List Bytes) → Ended w (run_integrations_command d w args)
  unfolding run_integrations_command
  run_integrations_command-Ended [] = keeps w _ refl
  run_integrations_command-Ended (name ∷ []) = keeps w _ refl
  run_integrations_command-Ended (name ∷ arg ∷ args) =
      branch-Ended (equal name (codes "codex")) (run_codex_integration_command-Ended (arg ∷ args)) (
        branch-Ended (equal name (codes "claude"))
          (run_claude_integration_command-Ended (arg ∷ args))
          (branch-Ended (equal name (codes "recipe")) (keeps w _ (recipe_bounded d (arg ∷ args))) (
            branch-Ended (equal name (codes "mcp")) (keeps w _ (mcp_bounded d (arg ∷ args)))
              (keeps w _ refl))))

  -- Where no os.WriteFile fails, of a client's file or of a plugin's marker, every run of `cachy` ends
  -- with exit code 0, 1 or 2, and a run whose code is not 0 leaves the clients' files and the plugins as
  -- they were, whatever other calls fail.
  pub run_with_deps-Ended : (args : List Bytes) → Ended w (run_with_deps d w args)
  unfolding run_with_deps
  run_with_deps-Ended [] = keeps w _ refl
  run_with_deps-Ended (command ∷ args) =
      branch-Ended (equal command (codes "proxy")) (keeps w _ (proxy_bounded d args)) (
        branch-Ended (equal command (codes "doctor")) (keeps w _ (doctor_bounded d w args)) (
          branch-Ended (equal command (codes "integrations")) (run_integrations_command-Ended args)
            (branch-Ended (equal command (codes "plugin"))
              (run_plugin_command-Ended d w args mark_write)
              (branch-Ended (is_help command) (keeps w _ refl) (keeps w _ refl)))))
