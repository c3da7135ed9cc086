-- ===== src/Install/Recipes/Tests.antt =====
-- Runs of the recipes.
use cachy.Base.{◌≡◌, refl, [], ◌∷◌, ◌++◌, ok, true}
use cachy.Text.{codes, equal, join, trim_right}
use cachy.Install.{Tools, validate_base_url, checked_url}
use cachy.Install.Recipes.{
  EndpointRecipe, custom_endpoint_recipe, cachy_url, recipe_lines, note_lines, listen_from,
  listen_address_from_base_url, render_endpoint_recipe, render_mcp_registration,
}

abbrev tools : Tools
tools = record {
  parse_url =
      λ raw. ok (record { scheme = codes "http"; host = codes "h"; path = []; raw_query = [] });
  join_path = λ a b. a ++ (codes "/" ++ b);
  is_print = λ r. true;
}

abbrev mine : EndpointRecipe
mine = record {
  name = codes "custom";
  display_name = codes "Custom OpenAI-compatible endpoint";
  target_base_url = codes "http://h";
  notes = codes "Use this for any OpenAI-compatible HTTP backend." ∷ [];
}

custom_endpoint_recipe_run : custom_endpoint_recipe tools (codes "http://h") ≡ ok mine
unfolding custom_endpoint_recipe validate_base_url checked_url equal
custom_endpoint_recipe_run = refl

render_endpoint_recipe_run :
    render_endpoint_recipe tools mine (codes "http://h/")
    ≡ ok (
        codes
          "# Custom OpenAI-compatible endpoint\nStart Cachy:\ncachy proxy --listen h --target http://h\n\nPoint OpenAI-compatible clients at Cachy:\nOPENAI_BASE_URL=http://h/v1\nCACHY_TARGET_BASE_URL=http://h\n\nNote: Use this for any OpenAI-compatible HTTP backend.\n")
unfolding render_endpoint_recipe validate_base_url checked_url equal cachy_url trim_right
    recipe_lines listen_address_from_base_url listen_from note_lines join
render_endpoint_recipe_run = refl

render_mcp_registration_run :
    render_mcp_registration tools
      (λ m. ok (codes "{}"))
      (record { command = []; listen_address = []; target_base_url = codes "http://h" })
    ≡ ok (codes "{}\n")
unfolding render_mcp_registration validate_base_url checked_url equal
render_mcp_registration_run = refl
