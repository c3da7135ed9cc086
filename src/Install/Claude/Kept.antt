-- ===== src/Install/Claude/Kept.antt =====
-- What installing and uninstalling leave alone.
use cachy.Base.{
  Bool, true, false, Option, none, some, ◌≡◌, inl, inr, Bool-cases, refl, if◌then◌else◌, is_nil,
}
use cachy.Text.{Bytes, equal}
use cachy.Install.Json.{JsonFields, get, delete, is_empty, as_object, string_or_empty}
use cachy.Install.Json.Fields.{get-set, get-delete}
use cachy.Install.Claude.{
  env_key, cachy_key, url_key, managed_url_key, child_map, is_foreign, plan_with, plan_install,
  plan_uninstall, on_env, on_metadata, without_url,
}
use cachy.Install.Claude.Planned.{plan_install_lem}

module _ (url key : Bytes) (not_env : equal env_key key ≡ false)
    (not_cachy : equal cachy_key key ≡ false) where
  get-plan_with :
      (env metadata m : JsonFields) (foreign : Bool)
      → get key (plan_with url env metadata m foreign).0 ≡ get key m
  unfolding plan_with
  get-plan_with env metadata m true = rw (get-set, not_cachy, get-set, not_env) refl
  get-plan_with env metadata m false = rw (get-set, not_cachy, get-set, not_env) refl

  get-without_url :
      (previous : Bytes) (m env : JsonFields) → get key (without_url previous m env) ≡ get key m
  unfolding without_url
  get-without_url previous m env =
      let env' = if equal (string_or_empty url_key env) previous then delete url_key env else env in
      elim (Bool-cases (is_empty env')) [
        | inl gone ↦ rw (gone, get-delete, not_env) refl
        | inr kept ↦ rw (kept, get-set, not_env) refl
      ]

  get-on_env :
      (previous : Bytes) (m : JsonFields) (env : Option JsonFields)
      → get key (on_env previous m env) ≡ get key m
  unfolding on_env
  get-on_env previous m none = refl
  get-on_env previous m (some env) = get-without_url previous m env

  get-on_metadata :
      (m : JsonFields) (metadata : Option JsonFields) → get key (on_metadata m metadata) ≡ get key m
  unfolding on_metadata
  get-on_metadata m none = refl
  get-on_metadata m (some metadata) =
      elim (Bool-cases (is_nil (string_or_empty managed_url_key metadata))) [
        | inl unknown ↦ rw unknown refl
        | inr known ↦
            rw known
              (get-on_env (string_or_empty managed_url_key metadata) m (as_object (get env_key m)))
      ]

  -- Every other key of the settings keeps its value, whatever is planned.
  pub get-plan_other :
      (m : JsonFields)
      → (get key (plan_install m url).0 ≡ get key m) × (get key (plan_uninstall m) ≡ get key m)
  unfolding plan_uninstall
  get-plan_other m = (
    rw (plan_install_lem m url) (
        get-plan_with (child_map m env_key) (child_map m cachy_key) m
          (is_foreign (child_map m env_key) (child_map m cachy_key))),
    rw (get-delete, not_cachy) (get-on_metadata m (as_object (get cachy_key m))),
  )
