-- ===== src/Cli/Integrations.antt =====
-- `cachy integrations`.
use cachy.Base.{
  Bool, true, false, List, [], ◌∷◌, ◌++◌, if◌then◌else◌, is_nil, Result, ok, err, ◌>>=◌,
}
use cachy.Text.{Bytes, codes, equal}
use cachy.Text.Quote.{quote}
use cachy.Tokens.{Error}
use cachy.Install.Codex.{
  CodexOptions, CodexResult, apply_codex_integration, default_codex_config_path,
  default_codex_proxy_base_url,
}
use cachy.Install.Claude.{
  ClaudeOptions, ClaudeResult, apply_claude_integration, default_claude_settings_path,
  default_claude_anthropic_base_url,
}
use cachy.Install.Recipes.{
  EndpointRecipe, endpoint_recipe_by_name, custom_endpoint_recipe, render_endpoint_recipe,
  render_mcp_registration,
}
use cachy.Cli.Flags.{Flag, FlagError, Values, parse, value_of, is_set}
use cachy.Cli.Environment.{
  World, Deps, Output, exit, success, failure, default_listen_address, set_file,
}

abbrev pub text_flag : Bytes → Flag
text_flag name = record { name = name; is_bool = false }

abbrev pub dry_run_flag : Flag
dry_run_flag = record { name = codes "dry-run"; is_bool = true }

unfoldable pub bool_text : Bool → Bytes
bool_text true = codes "true"
bool_text false = codes "false"

-- What both commands print of a result.
unfoldable pub changes : Bytes → Bytes → Bool → Bool → Bytes → Bytes
changes message path changed dry_run preview =
    message
    ++ (codes "\npath: "
        ++ (path
            ++ (codes "\nchanged: "
                ++ (bool_text changed
                    ++ (codes "\n" ++ (if dry_run then codes "\n" ++ preview else []))))))

unfoldable pub codex_output : Result Error CodexResult → Output
codex_output (err e) = failure 1 (codes "Codex integration failed: " ++ (e ++ codes "\n"))
codex_output (ok r) = success (changes r.message r.path r.changed r.dry_run r.preview)

unfoldable pub claude_output : Result Error ClaudeResult → Output
claude_output (err e) = failure 1 (codes "Claude integration failed: " ++ (e ++ codes "\n"))
claude_output (ok r) = success (changes r.message r.path r.changed r.dry_run r.preview)

-- The path of a flag, or the default one.
unfoldable pub path_or : Bytes → Result Error Bytes → Result Error Bytes
path_or path default = if is_nil path then default else ok path

unfoldable pub codex_options : Bytes → Bytes → Values → CodexOptions
codex_options action path values = record {
  action = action;
  config_path = path;
  proxy_base_url = value_of (codes "proxy-base-url") default_codex_proxy_base_url values;
  dry_run = is_set (codes "dry-run") values;
}

unfoldable pub codex_at : Deps → World → Bytes → Values → Result Error Bytes → World × Output
codex_at d w action values (err e) =
    (w, failure 2 (codes "resolve Codex config: " ++ (e ++ codes "\n")))
codex_at d w action values (ok path) =
    let (file, result) =
      apply_codex_integration d.tools d.calls (w.files path) (codex_options action path values) in
    (set_file w path file, codex_output result)

unfoldable pub codex_with : Deps → World → Bytes → Result FlagError Values → World × Output
codex_with d w action (err e) = (w, exit 2)
codex_with d w action (ok values) = codex_at d w action values (
    path_or (value_of (codes "config") [] values)
      (default_codex_config_path d.tools (d.getenv (codes "HOME")) (d.getenv (codes "CODEX_HOME"))))

unfoldable pub run_codex_integration_command : Deps → World → List Bytes → World × Output
run_codex_integration_command d w [] =
    (w, failure 2 (codes "usage: cachy integrations codex <install|repair|uninstall> [options]\n"))
run_codex_integration_command d w (action ∷ args) = codex_with d w action (
    parse (text_flag (codes "config") ∷ text_flag (codes "proxy-base-url") ∷ dry_run_flag ∷ [])
      args)

pub claude_options : Bytes → Bytes → Values → ClaudeOptions
claude_options action path values = record {
  action = action;
  settings_path = path;
  anthropic_base_url =
      value_of (codes "anthropic-base-url") default_claude_anthropic_base_url values;
  dry_run = is_set (codes "dry-run") values;
}

unfoldable pub claude_at : Deps → World → Bytes → Values → Result Error Bytes → World × Output
claude_at d w action values (err e) =
    (w, failure 2 (codes "resolve Claude settings: " ++ (e ++ codes "\n")))
claude_at d w action values (ok path) =
    let (file, result) =
      apply_claude_integration d.codec d.tools d.calls (w.files path)
        (claude_options action path values) in
    (set_file w path file, claude_output result)

unfoldable pub claude_with : Deps → World → Bytes → Result FlagError Values → World × Output
claude_with d w action (err e) = (w, exit 2)
claude_with d w action (ok values) = claude_at d w action values (
    path_or (value_of (codes "settings") [] values) (
      default_claude_settings_path d.tools (d.getenv (codes "HOME"))
        (d.getenv (codes "CLAUDE_HOME"))))

unfoldable pub run_claude_integration_command : Deps → World → List Bytes → World × Output
run_claude_integration_command d w [] =
    (w, failure 2 (codes "usage: cachy integrations claude <install|repair|uninstall> [options]\n"))
run_claude_integration_command d w (action ∷ args) = claude_with d w action (
    parse
      (text_flag (codes "settings") ∷ text_flag (codes "anthropic-base-url") ∷ dry_run_flag ∷ [])
      args)

unfoldable pub rendered : Bytes → Result Error Bytes → Output
rendered what (err e) = failure 1 (what ++ (codes " failed: " ++ (e ++ codes "\n")))
rendered what (ok text) = success text

unfoldable pub recipe_of : Deps → Bytes → Values → Result Error EndpointRecipe
recipe_of d name values =
    if equal name (codes "custom")
    then custom_endpoint_recipe d.tools (value_of (codes "target") [] values)
    else endpoint_recipe_by_name d.tables d.tools name

unfoldable pub recipe_with : Deps → Bytes → Result FlagError Values → Output
recipe_with d name (err e) = exit 2
recipe_with d name (ok values) = rendered (codes "recipe") (
    recipe_of d name values >>= λ recipe.
    render_endpoint_recipe d.tools recipe
      (value_of (codes "cachy-base-url") (codes "http://127.0.0.1:8787") values))

unfoldable pub run_recipe_command : Deps → List Bytes → Output
run_recipe_command d [] =
    failure 2 (codes "usage: cachy integrations recipe <name|custom> [options]\n")
run_recipe_command d (name ∷ args) =
    recipe_with d name
      (parse (text_flag (codes "cachy-base-url") ∷ text_flag (codes "target") ∷ []) args)

unfoldable pub mcp_with : Deps → Result FlagError Values → Output
mcp_with d (err e) = exit 2
mcp_with d (ok values) = rendered (codes "MCP registration") (
    render_mcp_registration d.tools d.codec.marshal_indent (record {
      command = value_of (codes "command") (codes "cachy") values;
      listen_address = value_of (codes "listen") default_listen_address values;
      target_base_url = value_of (codes "target") [] values;
    }))

unfoldable pub run_mcp_command : Deps → List Bytes → Output
run_mcp_command d args = mcp_with d (
    parse
      (text_flag (codes "command") ∷ text_flag (codes "listen") ∷ text_flag (codes "target") ∷ [])
      args)

unfoldable pub run_integrations_command : Deps → World → List Bytes → World × Output
run_integrations_command d w (name ∷ arg ∷ args) =
    if equal name (codes "codex")
    then run_codex_integration_command d w (arg ∷ args)
    else if equal name (codes "claude")
    then run_claude_integration_command d w (arg ∷ args)
    else if equal name (codes "recipe")
    then (w, run_recipe_command d (arg ∷ args))
    else if equal name (codes "mcp")
    then (w, run_mcp_command d (arg ∷ args))
    else (
      w,
      failure 2 (codes "unknown integration " ++ (quote d.tools.is_print name ++ codes "\n")),
    )
run_integrations_command d w args =
    (w, failure 2 (codes "usage: cachy integrations <codex|claude|recipe|mcp> ...\n"))
