-- ===== src/Install/Recipes.antt =====
-- internal/install/recipes.go: endpoints behind Cachy, and its registration as an MCP server.
pub mod Found
mod Tests
use cachy.Base.{
  Bool, Option, none, some, List, [], ◌∷◌, ◌++◌, ◌==◌, if◌then◌else◌, is_nil, Result, ok, err,
  ◌>>=◌, ◌>>◌, refused,
}
use cachy.Text.{Bytes, codes, equal, trim_right, join}
use cachy.Text.Ascii.{UnicodeTables, to_lower}
use cachy.Text.Space.{trim_space}
use cachy.Text.Quote.{quote}
use cachy.Tokens.{Error}
use cachy.Proxy.Handler.{Url}
use cachy.Install.{Tools, validate_base_url}
use cachy.Install.Json.{Json, JsonItems, JsonFields, empty, field, string, array, object, nil, item}

pub record EndpointRecipe : Type 0 where
  pub name : Bytes
  pub display_name : Bytes
  pub target_base_url : Bytes
  pub notes : List Bytes

pub record McpOptions : Type 0 where
  pub command : Bytes
  pub listen_address : Bytes
  pub target_base_url : Bytes

abbrev pub endpoint_recipes : List EndpointRecipe
endpoint_recipes =
    record {
      name = codes "ollama";
      display_name = codes "Ollama";
      target_base_url = codes "http://127.0.0.1:11434";
      notes = codes "Ollama exposes an OpenAI-compatible API under /v1." ∷ [];
    }
    ∷ record {
      name = codes "llama.cpp";
      display_name = codes "llama.cpp server";
      target_base_url = codes "http://127.0.0.1:8080";
      notes = codes "Start llama.cpp server with OpenAI-compatible HTTP support." ∷ [];
    }
    ∷ record {
      name = codes "lm-studio";
      display_name = codes "LM Studio";
      target_base_url = codes "http://127.0.0.1:1234";
      notes = codes "Enable LM Studio's local server before starting Cachy." ∷ [];
    }
    ∷ record {
      name = codes "vllm";
      display_name = codes "vLLM";
      target_base_url = codes "http://127.0.0.1:8000";
      notes = codes "Use vLLM's OpenAI-compatible server endpoint." ∷ [];
    }
    ∷ record {
      name = codes "localai";
      display_name = codes "LocalAI";
      target_base_url = codes "http://127.0.0.1:8080";
      notes = codes "Use LocalAI's OpenAI-compatible endpoint." ∷ [];
    }
    ∷ []

-- The loop over the recipes.
pub find_recipe : Bytes → List EndpointRecipe → Option EndpointRecipe
find_recipe name [] = none
find_recipe name (r ∷ rs) =
    let later = find_recipe name rs in if equal r.name name then some r else later

pub found_recipe : Tools → Bytes → Option EndpointRecipe → Result Error EndpointRecipe
found_recipe t name none = err (codes "unknown endpoint recipe " ++ quote t.is_print name)
found_recipe t name (some r) = ok r

pub endpoint_recipe_by_name : UnicodeTables → Tools → Bytes → Result Error EndpointRecipe
endpoint_recipe_by_name u t name =
    found_recipe t name (find_recipe (to_lower u (trim_space name)) endpoint_recipes)

pub custom_endpoint_recipe : Tools → Bytes → Result Error EndpointRecipe
custom_endpoint_recipe t target_base_url = do
  refused (validate_base_url t target_base_url (codes "custom endpoint target URL"))
  ok (record {
    name = codes "custom";
    display_name = codes "Custom OpenAI-compatible endpoint";
    target_base_url = target_base_url;
    notes = codes "Use this for any OpenAI-compatible HTTP backend." ∷ [];
  })

abbrev pub default_listen_address : Bytes
default_listen_address = codes "127.0.0.1:8787"

pub listen_from : Result Error Url → Bytes
listen_from (err e) = default_listen_address
listen_from (ok url) = if is_nil url.host then default_listen_address else url.host

pub listen_address_from_base_url : Tools → Bytes → Bytes
listen_address_from_base_url t raw = listen_from (t.parse_url raw)

-- The base URL without its last slashes, or the default one.
pub cachy_url : Bytes → Bytes
cachy_url raw =
    let trimmed = trim_right (λ c. c == b'/') raw in
    if is_nil trimmed then codes "http://127.0.0.1:8787" else trimmed

pub note_lines : List Bytes → List Bytes
note_lines [] = []
note_lines (note ∷ notes) = [] ∷ (codes "Note: " ++ note) ∷ note_lines notes

pub recipe_lines : Tools → EndpointRecipe → Bytes → List Bytes
recipe_lines t recipe url =
    (codes "# " ++ recipe.display_name)
    ∷ codes "Start Cachy:"
    ∷ (codes "cachy proxy --listen "
        ++ (listen_address_from_base_url t url ++ (codes " --target " ++ recipe.target_base_url)))
    ∷ []
    ∷ codes "Point OpenAI-compatible clients at Cachy:"
    ∷ (codes "OPENAI_BASE_URL=" ++ (url ++ codes "/v1"))
    ∷ (codes "CACHY_TARGET_BASE_URL=" ++ recipe.target_base_url)
    ∷ note_lines recipe.notes

pub render_endpoint_recipe : Tools → EndpointRecipe → Bytes → Result Error Bytes
render_endpoint_recipe t recipe cachy_base_url = do
  let url = cachy_url cachy_base_url
  refused (validate_base_url t url (codes "Cachy base URL"))
  refused (validate_base_url t recipe.target_base_url (codes "recipe target URL"))
  ok (join (recipe_lines t recipe url) (codes "\n") ++ codes "\n")

or_default : Bytes → Bytes → Bytes
or_default default value = if is_nil value then default else value

registration : Bytes → Bytes → Bytes → JsonFields
registration command listen target =
    field (codes "mcpServers")
      (object (
        field (codes "cachy")
          (object (
            field (codes "command") (string command) (
              field (codes "args")
                (array (
                  item (string (codes "proxy")) (
                    item (string (codes "--listen")) (
                      item (string listen)
                        (item (string (codes "--target")) (item (string target) nil))))))
                empty)))
          empty))
      empty

-- json.MarshalIndent is the parameter.
pub render_mcp_registration :
    Tools → (JsonFields → Result Error Bytes) → McpOptions → Result Error Bytes
render_mcp_registration t marshal_indent options = do
  refused (validate_base_url t options.target_base_url (codes "MCP target URL"))
  payload ← marshal_indent (
      registration (or_default (codes "cachy") options.command)
        (or_default default_listen_address options.listen_address) options.target_base_url)
  ok (payload ++ codes "\n")
