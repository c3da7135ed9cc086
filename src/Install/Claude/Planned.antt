-- ===== src/Install/Claude/Planned.antt =====
-- What installing and uninstalling make of the settings.
use cachy.Base.{
  ok, ◌||◌, Bool, true, false, Option, some, ◌≡◌, ◌⊎◌, inl, inr, Bool-cases, refl, ap, ◌∙◌, is_nil,
  arith,
}
use cachy.Text.{codes, Bytes, equal, equal_iff, equal_refl}
use cachy.Install.Json.{
  text_or_empty, Json, JsonFields, boolean, string, object, get, set, as_object, as_string,
  string_or_empty,
}
use cachy.Install.{Tools}
use cachy.Install.Claude.{ClaudeOptions, plan_claude_settings}
use cachy.Install.Json.Fields.{clone_lem, get-set, set-get}
use cachy.Install.Claude.{
  env_key, cachy_key, url_key, managed_key, managed_url_key, child_map, with_metadata, is_foreign,
  map_or_empty, plan_with, plan_install,
}

-- Settings in which Cachy is set up with a URL, or beside another URL of the user.
pub record IsInstalled (url : Bytes) (m : JsonFields) : Type 0 where
  pub env : JsonFields
  pub metadata : JsonFields
  pub has_env : get env_key m ≡ some (object env)
  pub has_metadata : get cachy_key m ≡ some (object metadata)
  pub is_managed : get managed_key metadata ≡ some (boolean true)
  pub managed_url : get managed_url_key metadata ≡ some (string url)
  pub current : (is_foreign env metadata ≡ true) ⊎ (get url_key env ≡ some (string url))

pub distinct :
    (equal env_key cachy_key ≡ false)
    × (equal cachy_key env_key ≡ false)
    × (equal managed_key managed_url_key ≡ false)
    × (equal managed_url_key managed_key ≡ false)
unfolding equal
distinct = (refl, refl, refl, refl)

pub with_metadata_managed :
    (url : Bytes) (m : JsonFields)
    → (get managed_key (with_metadata url m) ≡ some (boolean true))
      × (get managed_url_key (with_metadata url m) ≡ some (string url))
unfolding with_metadata
with_metadata_managed url m =
    let (a, b, c, d) = distinct in
    (
      rw (get-set, d, get-set, equal_refl managed_key) refl,
      rw (get-set, equal_refl managed_url_key) refl,
    )

pub string_or_empty-some :
    (key : Bytes) (m : JsonFields) (s : Bytes)
    → get key m ≡ some (string s)
    → string_or_empty key m ≡ s
unfolding string_or_empty
string_or_empty-some key m s h = ap (λ (v : Option Json). text_or_empty (as_string v)) h

string_or_empty-get :
    (key : Bytes) (m : JsonFields)
    → is_nil (string_or_empty key m) ≡ false
    → get key m ≡ some (string (string_or_empty key m))
unfolding string_or_empty
string_or_empty-get key m h = ground arith

pub child_map-some :
    (m : JsonFields) (key : Bytes) (child : JsonFields)
    → get key m ≡ some (object child)
    → child_map m key ≡ child
unfolding child_map as_object map_or_empty
child_map-some m key child h = ap (λ (v : Option Json). map_or_empty (as_object v)) h

child_map-set :
    (m : JsonFields) (v : Json) → child_map (set env_key v m) cachy_key ≡ child_map m cachy_key
unfolding child_map
child_map-set m v =
    ap (λ (w : Option Json). map_or_empty (as_object w))
      (get-set env_key cachy_key v m ∙ rw distinct.0 refl)

pub plan_install_lem :
    (m : JsonFields) (url : Bytes)
    → plan_install m url
      ≡ plan_with url
          (child_map m env_key)
          (child_map m cachy_key)
          m
          (is_foreign (child_map m env_key) (child_map m cachy_key))
unfolding plan_install
plan_install_lem m url = rw (child_map-set m (object (child_map m env_key))) refl

with_metadata-managed :
    (url : Bytes) (m : JsonFields)
    → get managed_key m ≡ some (boolean true)
    → get managed_url_key m ≡ some (string url)
    → with_metadata url m ≡ m
unfolding with_metadata
with_metadata-managed url m managed same =
    rw (set-get managed_key (boolean true) m managed) (set-get managed_url_key (string url) m same)

plan_with-installed :
    (url : Bytes) (m : JsonFields) (h : IsInstalled url m) (foreign : Bool)
    → is_foreign h.env h.metadata ≡ foreign
    → (plan_with url h.env h.metadata m foreign).0 ≡ m
unfolding plan_with
plan_with-installed url m h true eq =
    rw
      (
        with_metadata-managed url h.metadata h.is_managed h.managed_url,
        set-get env_key (object h.env) m h.has_env,
      )
      (set-get cachy_key (object h.metadata) m h.has_metadata)
plan_with-installed url m h false eq =
    let same : get url_key h.env ≡ some (string url) = ground (arith, eq) in
    rw
      (
        set-get url_key (string url) h.env same,
        with_metadata-managed url h.metadata h.is_managed h.managed_url,
        set-get env_key (object h.env) m h.has_env,
      )
      (set-get cachy_key (object h.metadata) m h.has_metadata)

-- Installing on settings that are installed changes nothing in them.
plan_install-installed :
    (url : Bytes) (m : JsonFields) → IsInstalled url m → (plan_install m url).0 ≡ m
plan_install-installed url m h =
    rw
      (
        plan_install_lem m url,
        child_map-some m env_key h.env h.has_env,
        child_map-some m cachy_key h.metadata h.has_metadata,
      )
      (plan_with-installed url m h (is_foreign h.env h.metadata) refl)

pub foreign_some :
    (env metadata : JsonFields)
    → is_foreign env metadata ≡ true
    → is_nil (string_or_empty url_key env) ≡ false
unfolding is_foreign
foreign_some env metadata h = ground arith

-- A URL of the user's own is another one than the managed one, or the same.
foreign_or_same :
    (env metadata : JsonFields) (url : Bytes)
    → is_foreign env metadata ≡ true
    → (is_foreign env (with_metadata url metadata) ≡ true) ⊎ (get url_key env ≡ some (string url))
unfolding is_foreign
foreign_or_same env metadata url h = elim (Bool-cases (equal (string_or_empty url_key env) url)) [
  | inl same ↦ inr (
      string_or_empty-get url_key env (foreign_some env metadata h)
      ∙ ap (λ (s : Bytes). some (string s)) ((equal_iff (string_or_empty url_key env) url).0 same))
  | inr other ↦ inl (
      rw
        (
          string_or_empty-some managed_url_key (with_metadata url metadata) url
              (with_metadata_managed url metadata).1,
          other,
          foreign_some env metadata h,
        )
        refl)
]

module _ (url : Bytes) (m env metadata : JsonFields) where
  pub get-planned :
      (e : JsonFields)
      → (get env_key
            (set cachy_key (object (with_metadata url metadata)) (set env_key (object e) m))
          ≡ some (object e))
        × (get cachy_key
              (set cachy_key (object (with_metadata url metadata)) (set env_key (object e) m))
            ≡ some (object (with_metadata url metadata)))
  get-planned e = (
    rw (get-set, distinct.1, get-set, equal_refl env_key) refl,
    rw (get-set, equal_refl cachy_key) refl,
  )

  plan_with-IsInstalled :
      (foreign : Bool)
      → is_foreign env metadata ≡ foreign
      → IsInstalled url (plan_with url env metadata m foreign).0
  unfolding plan_with
  plan_with-IsInstalled true eq = record {
    env = env;
    metadata = with_metadata url metadata;
    has_env = (get-planned env).0;
    has_metadata = (get-planned env).1;
    is_managed = (with_metadata_managed url metadata).0;
    managed_url = (with_metadata_managed url metadata).1;
    current = foreign_or_same env metadata url eq;
  }
  plan_with-IsInstalled false eq = record {
    env = set url_key (string url) env;
    metadata = with_metadata url metadata;
    has_env = (get-planned (set url_key (string url) env)).0;
    has_metadata = (get-planned (set url_key (string url) env)).1;
    is_managed = (with_metadata_managed url metadata).0;
    managed_url = (with_metadata_managed url metadata).1;
    current = inr (rw (get-set, equal_refl url_key) refl);
  }

-- Installing leaves settings that are installed.
plan_install-IsInstalled : (url : Bytes) (m : JsonFields) → IsInstalled url (plan_install m url).0
plan_install-IsInstalled url m = rw (plan_install_lem m url) (
    plan_with-IsInstalled url m (child_map m env_key) (child_map m cachy_key)
      (is_foreign (child_map m env_key) (child_map m cachy_key)) refl)

-- Installing twice leaves the same settings as installing once.
pub plan_install-plan_install :
    (url : Bytes) (m : JsonFields)
    → (plan_install (plan_install m url).0 url).0 ≡ (plan_install m url).0
plan_install-plan_install url m =
    plan_install-installed url (plan_install m url).0 (plan_install-IsInstalled url m)

-- The copy that is edited is the settings themselves.
plan_claude_settings-install :
    (t : Tools) (m : JsonFields) (options : ClaudeOptions)
    → (equal options.action (codes "install") || equal options.action (codes "repair")) ≡ true
    → plan_claude_settings t m options ≡ ok (plan_install m options.anthropic_base_url)
unfolding plan_claude_settings
plan_claude_settings-install t m options h = rw (h, clone_lem m) refl
