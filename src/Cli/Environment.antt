-- ===== src/Cli/Environment.antt =====
-- What the commands are run in, and what they leave and print. A text that package flag prints itself
-- is not in the output.
use cachy.Base.{ℕ, Option, some, List, [], ◌∷◌, if◌then◌else◌, is_nil, map, not, Result, ok, err}
use cachy.Text.{Bytes, codes, equal}
use cachy.Text.Ascii.{UnicodeTables}
use cachy.Tokens.{Error}
use cachy.Platform.{Machine, Paths, resolve_paths}
use cachy.Plugin.Compressor.{Info}
use cachy.Plugin.Lifecycle.{MarkCalls, Files, LifecycleError}
use cachy.Plugin.Lifecycle.Fixture.{Bench, TestError}
use cachy.Install.{Tools, FileCalls}
use cachy.Install.Claude.{JsonCodec}
use cachy.Doctor
use cachy.Doctor.{FileRead, found_file}

pub record ProxyConfig : Type 0 where
  pub listen : Bytes
  pub target_base_url : Bytes

-- The files of the clients, and the plugins on the disk.
pub record World : Type 0 where
  pub files : Bytes → Option Bytes
  pub plugins : Files

-- The functions that the commands get, and the outcomes of the calls of the operating system. The
-- doctor reads files from the world.
pub record Deps : Type 0 where
  pub getenv : Bytes → Bytes
  pub serve_proxy : ProxyConfig → Option Error
  pub machine : Machine
  pub tools : Tools
  pub tables : UnicodeTables
  pub codec : JsonCodec
  pub calls : FileCalls
  pub doctor : Doctor.Environment
  pub marks : MarkCalls
  pub sort : List Info → List Info
  pub bench : Bench
  pub print_error : LifecycleError → Bytes
  pub print_test_error : TestError → Bytes

pub record Output : Type 0 where
  pub code : ℕ
  pub stdout : Bytes
  pub stderr : Bytes

abbrev pub default_listen_address : Bytes
default_listen_address = codes "127.0.0.1:8787"

-- Exits without and with a message.
abbrev pub exit : ℕ → Output
exit code = record { code = code; stdout = []; stderr = [] }

abbrev pub success : Bytes → Output
success text = record { code = 0; stdout = text; stderr = [] }

abbrev pub failure : ℕ → Bytes → Output
failure code text = record { code = code; stdout = []; stderr = text }

abbrev pub doctor_keys : List Bytes
doctor_keys =
    codes "CACHY_TARGET_BASE_URL"
    ∷ codes "CACHY_PROVIDER_API_KEY"
    ∷ codes "OPENAI_API_KEY"
    ∷ codes "ANTHROPIC_API_KEY"
    ∷ codes "HOME"
    ∷ codes "USERPROFILE"
    ∷ codes "APPDATA"
    ∷ codes "LOCALAPPDATA"
    ∷ codes "XDG_CONFIG_HOME"
    ∷ codes "XDG_STATE_HOME"
    ∷ codes "XDG_CACHE_HOME"
    ∷ codes "CODEX_HOME"
    ∷ codes "CLAUDE_HOME"
    ∷ []

unfoldable pub collect_doctor_env : (Bytes → Bytes) → List (Bytes × Bytes)
collect_doctor_env getenv = map (λ key. (key, getenv key)) doctor_keys

pub resolved : Deps → Result Error Paths
resolved d =
    resolve_paths d.machine
      (record { goos = []; home_dir = []; vars = some (collect_doctor_env d.getenv) })

plugins_below : Deps → Result Error Paths → Bytes
plugins_below d (err e) = codes "plugins"
plugins_below d (ok paths) = d.tools.join_path paths.state_dir (codes "plugins")

pub default_plugin_dir : Deps → Bytes
default_plugin_dir d =
    if not (is_nil (d.getenv (codes "CACHY_PLUGIN_DIR")))
    then d.getenv (codes "CACHY_PLUGIN_DIR")
    else plugins_below d (resolved d)

-- A file with new contents.
unfoldable pub set_file : World → Bytes → Option Bytes → World
set_file w path file = record w { files = λ p. if equal p path then file else w.files p }

unfoldable pub read_world : World → Bytes → FileRead
read_world w path = found_file (w.files path)
