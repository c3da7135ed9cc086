-- ===== src/Install/Recipes/Found.antt =====
-- Which recipe a name finds, and when a recipe is rendered.
use cachy.Base.{
  sym, Bool-cases, inl, inr, ◌≡◌, ◌⊎◌, ◌↔◌, refl, Option, none, some, List, [], ◌∷◌, All, ok,
}
use cachy.Text.{Bytes, equal, equal_iff}
use cachy.Text.Ascii.{UnicodeTables, to_lower}
use cachy.Text.Space.{trim_space}
use cachy.Install.{Tools}
use cachy.Install.Recipes.{
  EndpointRecipe, endpoint_recipes, find_recipe, found_recipe, endpoint_recipe_by_name,
}

-- A recipe is in a list.
abbrev pub IsIn : EndpointRecipe → List EndpointRecipe → Type 0
IsIn r [] = ⊥
IsIn r (x ∷ xs) = (r ≡ x) ⊎ IsIn r xs

all_at :
    (P : EndpointRecipe → Type 0) (r : EndpointRecipe) (xs : List EndpointRecipe)
    → All P xs
    → IsIn r xs
    → P r
all_at P r [] h m = absurd m
all_at P r (x ∷ xs) h (inl e) = rw e h.0
all_at P r (x ∷ xs) h (inr later) = all_at P r xs h.1 later

find_recipe-some :
    (name : Bytes) (rs : List EndpointRecipe) (r : EndpointRecipe)
    → find_recipe name rs ≡ some r
    → IsIn r rs × (r.name ≡ name)
unfolding find_recipe
find_recipe-some name [] r h = cc
find_recipe-some name (x ∷ rs) r h = elim (Bool-cases (equal x.name name)) [
  | inl same ↦
      let here : r ≡ x = cc (rw same at h) in (inl here, rw here ((equal_iff x.name name).0 same))
  | inr other ↦ let (m, named) = find_recipe-some name rs r (rw other at h) in (inr m, named)
]

-- No two recipes have one name.
find_own_name :
    All (λ (r : EndpointRecipe). find_recipe r.name endpoint_recipes ≡ some r) endpoint_recipes
unfolding find_recipe equal
find_own_name = (refl, (refl, (refl, (refl, (refl, tt)))))

found_recipe-ok :
    (t : Tools) (name : Bytes) (found : Option EndpointRecipe) (r : EndpointRecipe)
    → found_recipe t name found ≡ ok r
    → found ≡ some r
unfolding found_recipe
found_recipe-ok t name none r h = cc
found_recipe-ok t name (some x) r h = cc

-- A name finds a recipe exactly if the recipe is in the list and has that name, without the spaces
-- around it and in lower case; every other name is an error.
pub endpoint_recipe_by_name_iff :
    (u : UnicodeTables) (t : Tools) (name : Bytes) (r : EndpointRecipe)
    → (endpoint_recipe_by_name u t name ≡ ok r)
      ↔ (IsIn r endpoint_recipes × (r.name ≡ to_lower u (trim_space name)))
unfolding endpoint_recipe_by_name found_recipe
endpoint_recipe_by_name_iff u t name r = (
  (λ h.
      find_recipe-some (to_lower u (trim_space name)) endpoint_recipes r
        (found_recipe-ok t name (find_recipe (to_lower u (trim_space name)) endpoint_recipes) r h)),
  (λ h.
      rw
        (
          sym h.1,
          all_at (λ (x : EndpointRecipe). find_recipe x.name endpoint_recipes ≡ some x) r
              endpoint_recipes find_own_name h.0,
        )
        refl),
)
