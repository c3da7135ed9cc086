-- ===== src/Cli/Tests.antt =====
-- Runs of the command line.
use cachy.Base.{◌≡◌, refl, false, none, [], ◌∷◌, ok, err, if◌then◌else◌, is_nil}
use cachy.Text.{codes, equal}
use cachy.Plugin.Lifecycle.{no_failure, missing}
use cachy.Install.Codex.Sample.{tools, sound, first_run, first_path}
use cachy.Doctor
use cachy.Doctor.{status_ok, check_codex_integration}
use cachy.Cli.Flags.{parse_bool, parse, parse_from, value_of, is_set}
use cachy.Cli.Environment.{World, Deps}
use cachy.Cli.Integrations.{
  codex_options, codex_output, codex_at, codex_with, path_or, run_codex_integration_command,
  run_integrations_command,
}
use cachy.Cli.Run.{doctor_env, doctor_config, run_with_deps}
use cachy.Cli.Effects.{check_codex_integration-run_with_deps}
use cachy.Cli.Codes.{Ended, run_with_deps-Ended}

abbrev environment : Doctor.Environment
environment = record {
  read_file = λ path. Doctor.missing;
  check_listen = λ address. none;
  check_reach = λ raw. none;
  parse_url = λ raw. err (codes "bad");
  print_url = λ target. target.host;
  unmarshal = λ text. none;
}

abbrev deps : Deps
deps = record {
  getenv = λ key. if equal key (codes "HOME") then codes "/h" else [];
  serve_proxy = λ config. none;
  machine = record { goos = codes "linux"; getenv = λ key. []; user_home_dir = ok (codes "/h") };
  tools = tools;
  tables = record {
    lower = λ text. text;
    upper = λ text. text;
    fold_equal = equal;
    is_punct = λ c. false;
    is_symbol = λ c. false;
  };
  codec = record { unmarshal = λ text. ok none; marshal_indent = λ fields. ok [] };
  calls = sound;
  doctor = environment;
  marks = no_failure;
  sort = λ infos. infos;
  bench = record {
    runner = λ m wasm input. err (codes "no runner");
    read_file = λ path. err (codes "no file");
  };
  print_error = λ e. [];
  print_test_error = λ e. [];
}

abbrev world : World
world = record {
  files = λ path. none;
  plugins = record {
    stat = λ path. missing;
    entries = λ root. ok none;
    decode_file = λ path. none;
  };
}

install_succeeds :
    (run_with_deps deps world (codes "integrations" ∷ codes "codex" ∷ codes "install" ∷ [])).1.code
    ≡ 0
unfolding run_with_deps run_integrations_command run_codex_integration_command codex_with path_or
    codex_at codex_output codex_options is_set parse parse_from value_of parse_bool equal
install_succeeds = rw first_path (rw first_run refl)

home_set : is_nil (deps.getenv (codes "HOME")) ≡ false
unfolding equal
home_set = refl

check_codex_integration-run_with_deps_example :
    (check_codex_integration
      (doctor_env deps
        (run_with_deps deps world (codes "integrations" ∷ codes "codex" ∷ codes "install" ∷ [])).0)
      (doctor_config deps []).codex_config_path).status
    ≡ status_ok
check_codex_integration-run_with_deps_example =
    check_codex_integration-run_with_deps deps world [] home_set install_succeeds

run_with_deps-Ended_example : Ended world (run_with_deps deps world (codes "proxy" ∷ []))
run_with_deps-Ended_example = run_with_deps-Ended deps world refl refl (codes "proxy" ∷ [])
