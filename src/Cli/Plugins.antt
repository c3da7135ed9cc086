-- ===== src/Cli/Plugins.antt =====
-- `cachy plugin`.
use cachy.Base.{
  Bool, true, false, List, [], ◌∷◌, ◌++◌, ◌||◌, if◌then◌else◌, is_nil, length, Result, ok, err,
}
use cachy.Base.Int.{pos}
use cachy.Text.{Bytes, codes, equal, join}
use cachy.Text.Decimal.{print_int}
use cachy.Text.Quote.{quote}
use cachy.Plugin.Compressor.{Info}
use cachy.Plugin.Lifecycle.{LifecycleError, list_plugins, inspect_plugin, set_enabled}
use cachy.Plugin.Lifecycle.Fixture.{TestError, TestResult, test_plugin}
use cachy.Cli.Flags.{Flag, FlagError, Values, parse, value_of}
use cachy.Cli.Environment.{World, Deps, Output, exit, success, failure, default_plugin_dir}

pub enabled_label : Bool → Bytes
enabled_label true = codes "enabled"
enabled_label false = codes "disabled"

unfoldable pub list_lines : List Info → Bytes
list_lines [] = []
list_lines (info ∷ infos) =
    (info.manifest.name
      ++ (codes "\t"
          ++ (enabled_label info.enabled
              ++ (codes "\t"
                  ++ (join info.manifest.capabilities.compress (codes ",") ++ codes "\n")))))
    ++ list_lines infos

unfoldable pub line : Bytes → Bytes → Bytes
line label value = label ++ (value ++ codes "\n")

pub print_plugin_info : Info → Bytes
print_plugin_info info =
    line (codes "name: ") info.manifest.name
    ++ (line (codes "version: ") info.manifest.version
        ++ (line (codes "api_version: ") info.manifest.api_version
            ++ (line (codes "status: ") (enabled_label info.enabled)
                ++ (line (codes "compress: ") (join info.manifest.capabilities.compress (codes ","))
                    ++ (line (codes "timeout_ms: ") (print_int info.manifest.limits.timeout_ms)
                        ++ line (codes "memory_mb: ")
                            (print_int info.manifest.limits.memory_mb))))))

abbrev dir_flag : Flag
dir_flag = record { name = codes "dir"; is_bool = false }

abbrev fixture_flag : Flag
fixture_flag = record { name = codes "fixture"; is_bool = false }

abbrev failed : Deps → Bytes → Bytes → Output
failed d what text =
    failure 1 (codes "plugin " ++ (what ++ (codes " failed: " ++ (text ++ codes "\n"))))

unfoldable pub listed_output : Deps → Result LifecycleError (List Info) → Output
listed_output d (err e) = failed d (codes "list") (d.print_error e)
listed_output d (ok infos) = success (list_lines infos)

unfoldable pub info_output : Deps → Result LifecycleError Info → Output
info_output d (err e) = failed d (codes "inspect") (d.print_error e)
info_output d (ok info) = success (print_plugin_info info)

unfoldable pub enabled_output : Deps → Bytes → Bytes → Bool → Result LifecycleError Bool → Output
enabled_output d command name on (err e) = failed d command (d.print_error e)
enabled_output d command name on (ok b) =
    success (name ++ (codes " " ++ (enabled_label on ++ codes "\n")))

unfoldable pub test_output : Deps → Result TestError TestResult → Output
test_output d (err e) = failed d (codes "test") (d.print_test_error e)
test_output d (ok r) = success (
    line (codes "plugin: ") r.plugin.manifest.name
    ++ (line (codes "action: ") r.output.action
        ++ (line (codes "text_bytes: ") (print_int (pos (length r.output.text)))
            ++ line (codes "summary: ") r.output.summary)))

unfoldable pub list_with : Deps → World → Result FlagError Values → World × Output
list_with d w (err e) = (w, exit 2)
list_with d w (ok values) =
    let dir = value_of (codes "dir") (default_plugin_dir d) values in
    (w, listed_output d (list_plugins d.tools.join_path d.sort w.plugins dir))

unfoldable pub inspect_with : Deps → World → Bytes → Result FlagError Values → World × Output
inspect_with d w name (err e) = (w, exit 2)
inspect_with d w name (ok values) =
    let dir = value_of (codes "dir") (default_plugin_dir d) values in
    (w, info_output d (inspect_plugin d.tools.join_path w.plugins dir name))

unfoldable pub enable_with : Deps → World → Bytes → Bytes → Result FlagError Values → World × Output
enable_with d w command name (err e) = (w, exit 2)
enable_with d w command name (ok values) =
    let dir = value_of (codes "dir") (default_plugin_dir d) values in
    let on = equal command (codes "enable") in
    let (plugins, outcome) = set_enabled d.tools.join_path d.marks w.plugins dir name on in
    (record w { plugins = plugins }, enabled_output d command name on outcome)

unfoldable pub test_with : Deps → World → Bytes → Result FlagError Values → World × Output
test_with d w name (err e) = (w, exit 2)
test_with d w name (ok values) =
    let dir = value_of (codes "dir") (default_plugin_dir d) values in
    let fixture = value_of (codes "fixture") [] values in
    if is_nil fixture
    then (w, failure 2 (codes "missing --fixture\n"))
    else (w, test_output d (test_plugin d.tools.join_path d.bench w.plugins dir name fixture))

-- pluginNameArg, and the rest of a command on its name and the arguments behind it.
unfoldable pub with_name :
    World → Bytes → List Bytes → (Bytes → List Bytes → World × Output) → World × Output
with_name w command [] run =
    (w, failure 2 (codes "usage: cachy plugin " ++ (command ++ codes " <name> [options]\n")))
with_name w command (name ∷ rest) run = run name rest

unfoldable pub run_plugin_command : Deps → World → List Bytes → World × Output
run_plugin_command d w [] =
    (w, failure 2 (codes "usage: cachy plugin <list|inspect|enable|disable|test> [options]\n"))
run_plugin_command d w (command ∷ args) =
    if equal command (codes "list")
    then list_with d w (parse (dir_flag ∷ []) args)
    else if equal command (codes "inspect")
    then with_name w command args (λ name rest. inspect_with d w name (parse (dir_flag ∷ []) rest))
    else if equal command (codes "enable") || equal command (codes "disable")
    then with_name w command args
        (λ name rest. enable_with d w command name (parse (dir_flag ∷ []) rest))
    else if equal command (codes "test")
    then with_name w command args
        (λ name rest. test_with d w name (parse (dir_flag ∷ fixture_flag ∷ []) rest))
    else (
      w,
      failure 2 (codes "unknown plugin command " ++ (quote d.tools.is_print command ++ codes "\n")),
    )
