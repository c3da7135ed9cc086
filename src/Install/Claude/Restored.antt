-- ===== src/Install/Claude/Restored.antt =====
-- Uninstalling after an installation.
use cachy.Base.{
  true, false, Option, none, some, [], ◌≡◌, inl, inr, Bool-cases, refl, ap, sym, ◌∙◌, is_nil, arith,
}
use cachy.Text.{Bytes, equal, equal_iff, equal_refl}
use cachy.Install.Json.{
  Json, JsonFields, empty, field, string, object, get, set, delete, is_empty, as_object, as_string,
  string_or_empty, text_or_empty,
}
use cachy.Install.Json.Fields.{
  get-set, get-delete, delete-set, set-get, set-set, set-set_comm, delete-set_other,
}
use cachy.Install.Claude.{
  preserved, env_key, cachy_key, url_key, managed_url_key, child_map, map_or_empty, with_metadata,
  is_foreign, plan_with, plan_install, plan_uninstall, on_env, on_metadata, without_url,
}
use cachy.Install.Claude.Planned.{
  distinct, with_metadata_managed, string_or_empty-some, child_map-some, plan_install_lem,
}

-- Settings without Cachy, and an `env` that is not there, has other entries only, or another URL.
pub data IsOther (url : Bytes) (m : JsonFields) : Type 0 where
  no_env : get env_key m ≡ none → IsOther url m
  other_entries :
      (env : JsonFields)
      → get env_key m ≡ some (object env)
      → get url_key env ≡ none
      → is_empty env ≡ false
      → IsOther url m
  other_url :
      (env : JsonFields)
      → get env_key m ≡ some (object env)
      → is_nil (string_or_empty url_key env) ≡ false
      → equal (string_or_empty url_key env) url ≡ false
      → IsOther url m

-- The metadata of a first installation.
abbrev first_metadata : Bytes → JsonFields
first_metadata url = with_metadata url empty

child_map-none : (m : JsonFields) (key : Bytes) → get key m ≡ none → child_map m key ≡ empty
unfolding child_map as_object map_or_empty
child_map-none m key h = ap (λ (v : Option Json). map_or_empty (as_object v)) h

-- What uninstalling makes of settings with the metadata of a first installation.
uninstall-managed :
    (url : Bytes) (m : JsonFields) (env : JsonFields)
    → is_nil url ≡ false
    → get cachy_key m ≡ some (object (first_metadata url))
    → get env_key m ≡ some (object env)
    → plan_uninstall m ≡ delete cachy_key (without_url url m env)
unfolding plan_uninstall on_metadata on_env as_object
uninstall-managed url m env named has_metadata has_env =
    ap (λ (v : Option Json). delete cachy_key (on_metadata m (as_object v))) has_metadata
    ∙ rw
        (
          string_or_empty-some managed_url_key (first_metadata url) url
              (with_metadata_managed url empty).1,
          named,
        )
        (ap (λ (v : Option Json). delete cachy_key (on_env url m (as_object v))) has_env)

no_string : (env : JsonFields) → get url_key env ≡ none → string_or_empty url_key env ≡ []
unfolding string_or_empty
no_string env h = ap (λ (v : Option Json). text_or_empty (as_string v)) h

absent : get url_key empty ≡ none
unfolding get
absent = refl

nothing : string_or_empty url_key empty ≡ []
nothing = no_string empty absent

not_foreign : (env : JsonFields) → string_or_empty url_key env ≡ [] → is_foreign env empty ≡ false
unfolding is_foreign
not_foreign env h = rw h refl

foreign :
    (env : JsonFields) → is_nil (string_or_empty url_key env) ≡ false → is_foreign env empty ≡ true
unfolding is_foreign string_or_empty get
foreign env own = ground (arith, own, unmanaged, equal_iff (string_or_empty url_key env) [])
  where
    unmanaged : string_or_empty managed_url_key empty ≡ []
    unmanaged = refl

is_empty-eq : (m : JsonFields) → is_empty m ≡ true → m ≡ empty
unfolding is_empty
is_empty-eq empty h = refl
is_empty-eq (field k v m) h = cc

own_entries :
    (env : JsonFields) → is_nil (string_or_empty url_key env) ≡ false → is_empty env ≡ false
unfolding is_empty string_or_empty get
own_entries empty own = cc
own_entries (field k v m) own = refl

url_set :
    (url : Bytes) (env : JsonFields)
    → equal (string_or_empty url_key (set url_key (string url) env)) url ≡ true
url_set url env =
    rw
      (string_or_empty-some url_key (set url_key (string url) env) url
        (rw (get-set, equal_refl url_key) refl))
      (equal_refl url)

module _ (url : Bytes) (next env : JsonFields) where
  without_url-emptied :
      equal (string_or_empty url_key env) url ≡ true
      → delete url_key env ≡ empty
      → without_url url next env ≡ delete env_key next
  unfolding without_url is_empty
  without_url-emptied same gone = rw (same, gone) refl

  without_url-kept :
      (old : JsonFields)
      → equal (string_or_empty url_key env) url ≡ true
      → delete url_key env ≡ old
      → is_empty old ≡ false
      → without_url url next env ≡ set env_key (object old) next
  unfolding without_url
  without_url-kept old same left kept = rw (same, left, kept) refl

  without_url-other :
      equal (string_or_empty url_key env) url ≡ false
      → is_empty env ≡ false
      → without_url url next env ≡ set env_key (object env) next
  unfolding without_url
  without_url-other other kept = rw (other, kept) refl

module _ (url : Bytes) (m : JsonFields) (named : is_nil url ≡ false)
    (fresh : get cachy_key m ≡ none) where
  cachy_last : (n : JsonFields) (e : Json) → get cachy_key (set cachy_key e n) ≡ some e
  cachy_last n e = rw (get-set, equal_refl cachy_key) refl

  planned :
      (env : JsonFields)
      → child_map m env_key ≡ env
      → plan_install m url ≡ plan_with url env empty m (is_foreign env empty)
  planned env e = rw (plan_install_lem m url, e, child_map-none m cachy_key fresh) refl

  -- The settings with an `env` and the metadata.
  both : JsonFields → JsonFields
  both env = set cachy_key (object (first_metadata url)) (set env_key (object env) m)

  get-both :
      (env : JsonFields)
      → (get env_key (both env) ≡ some (object env))
        × (get cachy_key (both env) ≡ some (object (first_metadata url)))
  unfolding both
  get-both env = (
    rw (get-set, distinct.1, get-set, equal_refl env_key) refl,
    cachy_last (set env_key (object env) m) (object (first_metadata url)),
  )

  planned_own :
      (env : JsonFields)
      → child_map m env_key ≡ env
      → string_or_empty url_key env ≡ []
      → (plan_install m url).0 ≡ both (set url_key (string url) env)
  unfolding both plan_with
  planned_own env e none_set = rw (planned env e, not_foreign env none_set) refl

  uninstall-both :
      (env : JsonFields)
      → plan_uninstall (both env) ≡ delete cachy_key (without_url url (both env) env)
  uninstall-both env = uninstall-managed url (both env) env named (get-both env).1 (get-both env).0

  delete-both :
      (env : JsonFields) → get env_key m ≡ none → delete cachy_key (delete env_key (both env)) ≡ m
  unfolding both
  delete-both env h =
      rw
        (
          delete-set_other env_key cachy_key (object (first_metadata url))
              (set env_key (object env) m) distinct.0,
          delete-set env_key (object env) m h,
        )
        (delete-set cachy_key (object (first_metadata url)) m fresh)

  restore-no_env : get env_key m ≡ none → plan_uninstall (plan_install m url).0 ≡ m
  restore-no_env h =
      let env = set url_key (string url) empty in
      rw (planned_own empty (child_map-none m env_key h) nothing) (
        uninstall-both env
        ∙ ap (delete cachy_key) (
            without_url-emptied url (both env) env (url_set url empty)
              (delete-set url_key (string url) empty absent))
        ∙ delete-both env h)

  -- Setting `env` back to what it was leaves the metadata only.
  set-both :
      (env old : JsonFields)
      → get env_key m ≡ some (object old)
      → delete cachy_key (set env_key (object old) (both env)) ≡ m
  unfolding both
  set-both env old has_env =
      rw
        (
          set-set_comm cachy_key env_key (object (first_metadata url)) (object env) m (object old)
              distinct.1 has_env,
          set-set env_key (object env) (object old) (set cachy_key (object (first_metadata url)) m),
          sym (
              set-set_comm cachy_key env_key (object (first_metadata url)) (object old) m
                (object old) distinct.1 has_env),
          set-get env_key (object old) m has_env,
        )
        (delete-set cachy_key (object (first_metadata url)) m fresh)

  restore-entries :
      (env : JsonFields)
      → get env_key m ≡ some (object env)
      → get url_key env ≡ none
      → is_empty env ≡ false
      → plan_uninstall (plan_install m url).0 ≡ m
  restore-entries old has_env no_url some_env =
      let env = set url_key (string url) old in
      rw (planned_own old (child_map-some m env_key old has_env) (no_string old no_url)) (
        uninstall-both env
        ∙ ap (delete cachy_key) (
            without_url-kept url (both env) env old (url_set url old)
              (delete-set url_key (string url) old no_url) some_env)
        ∙ set-both env old has_env)

  restore-url :
      (env : JsonFields)
      → get env_key m ≡ some (object env)
      → is_nil (string_or_empty url_key env) ≡ false
      → equal (string_or_empty url_key env) url ≡ false
      → plan_uninstall (plan_install m url).0 ≡ m
  unfolding plan_with both
  restore-url env has_env own other =
      rw (planned env (child_map-some m env_key env has_env), foreign env own)
        (uninstall-both env
          ∙ ap (delete cachy_key) (without_url-other url (both env) env other (own_entries env own))
          ∙ set-both env env has_env)

  -- After the installation of a URL that is not empty, uninstalling gives settings without an entry of
  -- Cachy back as they were, if they had no `env`, or an `env` that was an object: one with other entries
  -- but no base URL, or one whose base URL was a text, not empty and not the installed URL.
  pub plan_uninstall-plan_install : IsOther url m → plan_uninstall (plan_install m url).0 ≡ m
  plan_uninstall-plan_install (no_env h) = restore-no_env h
  plan_uninstall-plan_install (other_entries env a b c) = restore-entries env a b c
  plan_uninstall-plan_install (other_url env a b c) = restore-url env a b c

child_map-delete : (n : JsonFields) → child_map (delete cachy_key n) env_key ≡ child_map n env_key
unfolding child_map
child_map-delete n =
    ap (λ (v : Option Json). map_or_empty (as_object v))
      (get-delete cachy_key env_key n ∙ rw distinct.1 refl)

-- `env` has the managed URL no more.
without_url-gone :
    (url : Bytes) (next env : JsonFields)
    → equal (string_or_empty url_key env) url ≡ true
    → string_or_empty url_key (child_map (without_url url next env) env_key) ≡ []
without_url-gone url next env same = elim (Bool-cases (is_empty (delete url_key env))) [
  | inl gone ↦
      rw
        (
          without_url-emptied url next env same (is_empty-eq (delete url_key env) gone),
          child_map-none (delete env_key next) env_key (rw (get-delete, equal_refl env_key) refl),
        )
        nothing
  | inr kept ↦
      rw
        (
          without_url-kept url next env (delete url_key env) same refl kept,
          child_map-some (set env_key (object (delete url_key env)) next) env_key
              (delete url_key env) (rw (get-set, equal_refl env_key) refl),
        )
        (no_string (delete url_key env) (rw (get-delete, equal_refl url_key) refl))
]

-- Where the user already had Cachy's own URL, uninstalling takes it away, although the installation
-- says that it preserved it.
pub plan_uninstall_loses :
    (url : Bytes) (m env : JsonFields)
    → is_nil url ≡ false
    → get cachy_key m ≡ none
    → get env_key m ≡ some (object env)
    → string_or_empty url_key env ≡ url
    → ((plan_install m url).1 ≡ preserved)
      × (string_or_empty url_key (child_map (plan_uninstall (plan_install m url).0) env_key) ≡ [])
unfolding plan_with both
plan_uninstall_loses url m env named fresh has_env same =
    rw
      (
        planned url m named fresh env (child_map-some m env_key env has_env),
        foreign env (rw same named),
      )
      (
        refl,
        ap (λ (n : JsonFields). string_or_empty url_key (child_map n env_key))
              (uninstall-both url m named fresh env)
            ∙ ap (string_or_empty url_key)
                (child_map-delete (without_url url (both url m named fresh env) env))
            ∙ without_url-gone url (both url m named fresh env) env (rw same (equal_refl url)),
      )
