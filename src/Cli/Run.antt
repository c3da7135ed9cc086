-- ===== src/Cli/Run.antt =====
-- The commands of `cachy`, and the proxy and the doctor among them.
use cachy.Base.{
  Bool, ◌||◌, not, Option, none, some, List, [], ◌∷◌, ◌++◌, if◌then◌else◌, is_nil, Result, ok, err,
}
use cachy.Text.{Bytes, codes, equal}
use cachy.Text.Quote.{quote}
use cachy.Tokens.{Error}
use cachy.Platform.{lookup}
use cachy.Install.Codex.{default_codex_config_path}
use cachy.Install.Claude.{default_claude_settings_path}
use cachy.Doctor
use cachy.Doctor.{Config, run_checks, print_report, has_failures}
use cachy.Cli.Flags.{Flag, FlagError, Values, parse, value_of}
use cachy.Cli.Environment.{
  World, Deps, Output, exit, success, failure, default_listen_address, collect_doctor_env, resolved,
  read_world,
}
use cachy.Cli.Integrations.{text_flag, run_integrations_command}
use cachy.Cli.Plugins.{run_plugin_command}

abbrev proxy_flags : List Flag
proxy_flags = text_flag (codes "listen") ∷ text_flag (codes "target") ∷ []

unfoldable pub served : Option Error → Output
served none = exit 0
served (some e) = failure 1 (codes "proxy stopped: " ++ (e ++ codes "\n"))

abbrev target_of : Deps → Values → Bytes
target_of d values = value_of (codes "target") (d.getenv (codes "CACHY_TARGET_BASE_URL")) values

unfoldable pub proxy_with : Deps → Result FlagError Values → Output
proxy_with d (err e) = exit 2
proxy_with d (ok values) =
    if is_nil (target_of d values)
    then failure 2 (codes "missing upstream target: set --target or CACHY_TARGET_BASE_URL\n")
    else served (
        d.serve_proxy (record {
          listen = value_of (codes "listen") default_listen_address values;
          target_base_url = target_of d values;
        }))

unfoldable pub run_proxy : Deps → List Bytes → Output
run_proxy d args = proxy_with d (parse proxy_flags args)

-- `path, _ := …` leaves the empty path of an error.
unfoldable pub path_or_empty : Result Error Bytes → Bytes
path_or_empty (err e) = []
path_or_empty (ok path) = path

unfoldable pub home_from_env : List (Bytes × Bytes) → Bytes
home_from_env vars =
    if not (is_nil (lookup (codes "HOME") vars))
    then lookup (codes "HOME") vars
    else lookup (codes "USERPROFILE") vars

unfoldable pub doctor_config : Deps → Values → Config
doctor_config d values =
    let vars = collect_doctor_env d.getenv in
    record {
      version = codes "dev";
      target_url = target_of d values;
      listen_address = value_of (codes "listen") default_listen_address values;
      vars = vars;
      paths = resolved d;
      codex_config_path = path_or_empty (
          default_codex_config_path d.tools (home_from_env vars)
            (lookup (codes "CODEX_HOME") vars));
      claude_settings_path = path_or_empty (
          default_claude_settings_path d.tools (home_from_env vars)
            (lookup (codes "CLAUDE_HOME") vars));
    }

-- The doctor's functions, with the files of the world.
unfoldable pub doctor_env : Deps → World → Doctor.Environment
doctor_env d w = record d.doctor { read_file = read_world w }

unfoldable pub doctor_with : Deps → World → Result FlagError Values → Output
doctor_with d w (err e) = exit 2
doctor_with d w (ok values) =
    let checks = run_checks (doctor_env d w) (doctor_config d values) in
    record {
      code = if has_failures checks then 1 else 0;
      stdout = print_report checks;
      stderr = [];
    }

unfoldable pub run_doctor_command : Deps → World → List Bytes → Output
run_doctor_command d w args = doctor_with d w (parse proxy_flags args)

abbrev pub usage : Bytes
usage =
    codes
      "usage: cachy <command> [options]\n\ncommands:\n  proxy    start the transparent provider proxy\n  doctor   run local setup diagnostics\n  integrations <codex|claude|recipe|mcp> ...  manage agent setup\n  plugin <list|inspect|enable|disable|test> ...  manage WASM plugins\n"

pub is_help : Bytes → Bool
is_help arg = equal arg (codes "-h") || equal arg (codes "--help") || equal arg (codes "help")

-- RunWithDeps
unfoldable pub run_with_deps : Deps → World → List Bytes → World × Output
run_with_deps d w [] = (w, failure 2 usage)
run_with_deps d w (command ∷ args) =
    if equal command (codes "proxy")
    then (w, run_proxy d args)
    else if equal command (codes "doctor")
    then (w, run_doctor_command d w args)
    else if equal command (codes "integrations")
    then run_integrations_command d w args
    else if equal command (codes "plugin")
    then run_plugin_command d w args
    else if is_help command
    then (w, success usage)
    else (
      w,
      failure 2
          (codes "unknown command " ++ (quote d.tools.is_print command ++ (codes "\n" ++ usage))),
    )
