-- ===== src/Platform/Resolve.antt =====
-- When the paths can be resolved, and where they then are.
use cachy.Base.{
  ◌≡◌, ◌↔◌, ◌⊎◌, inl, inr, refl, Bool, true, false, Bool-cases, List, [], ◌∷◌, arith, is_nil,
  Result, ok, err,
}
use cachy.Text.{Bytes, codes, equal, has_prefix, trim_left, trim_right}
use cachy.Tokens.{Error}
use cachy.Platform.{
  trim_left, trim_right, Options, Paths, Machine, windows, env, home_dir, cleaned, join_path,
  root_or_home, root_or_home_dir, windows_paths, resolve_windows_paths, darwin_paths,
  resolve_darwin_paths, unix_paths, resolve_unix_paths, effective_goos, resolve_paths,
}

abbrev pub Fails {ℓ} : {A : Type ℓ} → Result Error A → Type 0
Fails (ok a) = ⊥
Fails (err e) = Unit

-- Whether the directories depend on the home directory.
abbrev pub NeedsHome : Machine → Options → Type 0
NeedsHome m options =
    (equal (effective_goos m options) windows ≡ false)
    ⊎ ((env m options (codes "APPDATA") ≡ []) ⊎ (env m options (codes "LOCALAPPDATA") ≡ []))

abbrev IsAbsolute : Bytes → Type 0
IsAbsolute path = has_prefix path (codes "/") ≡ true

abbrev pub AbsolutePaths : Paths → Type 0
AbsolutePaths p = IsAbsolute p.config_dir × IsAbsolute p.state_dir × IsAbsolute p.cache_dir

-- Empty, or absolute
abbrev pub IsUsable : Bytes → Type 0
IsUsable root = (root ≡ []) ⊎ IsAbsolute root

windows_paths-Fails :
    (roaming local : Bytes) (names names' : List Bytes) (home : Result Error Bytes)
    → Fails
        (windows_paths (root_or_home_dir roaming home names) (root_or_home_dir local home names'))
      ↔ (((roaming ≡ []) ⊎ (local ≡ [])) × Fails home)
unfolding windows_paths root_or_home_dir
windows_paths-Fails roaming local names names' (ok home) = ((λ h. elim h [ ]), (λ h. h.1))
windows_paths-Fails [] local names names' (err e) = ((λ h. (inl refl, tt)), (λ h. tt))
windows_paths-Fails (c ∷ roaming) [] names names' (err e) = ((λ h. (inr refl, tt)), (λ h. tt))
windows_paths-Fails (c ∷ roaming) (d ∷ local) names names' (err e) =
    ((λ h. elim h [ ]), (λ (e1, e2). elim e1 [ inl e ↦ cc | inr e ↦ cc ]))

darwin_paths-Fails : (home : Result Error Bytes) → Fails (darwin_paths home) ↔ Fails home
unfolding darwin_paths
darwin_paths-Fails (ok home) = ((λ h. h), (λ h. h))
darwin_paths-Fails (err e) = ((λ h. h), (λ h. h))

unix_paths-Fails :
    (config state cache : Bytes) (home : Result Error Bytes)
    → Fails (unix_paths config state cache home) ↔ Fails home
unfolding unix_paths
unix_paths-Fails config state cache (ok home) = ((λ h. h), (λ h. h))
unix_paths-Fails config state cache (err e) = ((λ h. h), (λ h. h))

cleaned-cons :
    (part : Bytes) (parts : List Bytes)
    → is_nil (cleaned parts) ≡ false
    → is_nil (cleaned (part ∷ parts)) ≡ false
unfolding cleaned
cleaned-cons part parts h = ground arith

join_path-IsAbsolute :
    (goos part : Bytes) (parts : List Bytes)
    → equal goos windows ≡ false
    → is_nil (cleaned parts) ≡ false
    → IsAbsolute part
    → IsAbsolute (join_path goos (part ∷ parts))
unfolding join_path has_prefix
join_path-IsAbsolute goos part parts unix some_part absolute =
    rw (cleaned-cons part parts some_part, absolute, unix) refl

root_or_home-IsAbsolute :
    (root goos home : Bytes) (names : List Bytes)
    → equal goos windows ≡ false
    → is_nil (cleaned names) ≡ false
    → IsAbsolute home
    → IsUsable root
    → IsAbsolute (root_or_home root goos home names)
unfolding root_or_home
root_or_home-IsAbsolute [] goos home names unix some_name absolute usable =
    join_path-IsAbsolute goos home names unix some_name absolute
root_or_home-IsAbsolute (c ∷ root) goos home names unix some_name absolute (inl e) = cc
root_or_home-IsAbsolute (c ∷ root) goos home names unix some_name absolute (inr h) = h

not_unix {ℓ} : {A : Type ℓ} → (◌≡◌ {A = Bool} true false) ⊎ A → A
not_unix (inl e) = cc
not_unix (inr a) = a

module _ (home : Bytes) (absolute : IsAbsolute home) where
  darwin_paths-AbsolutePaths : (p : Paths) × (darwin_paths (ok home) ≡ ok p) × AbsolutePaths p
  unfolding darwin_paths cleaned trim_right trim_left
  darwin_paths-AbsolutePaths =
      let at = λ (parts : List Bytes) (some_part : is_nil (cleaned parts) ≡ false).
        join_path-IsAbsolute (codes "darwin") home parts (unfold equal in refl) some_part
          absolute in
      (_, refl, (at _ refl, at _ refl, at _ refl))

  unix_paths-AbsolutePaths :
      (config state cache : Bytes)
      → IsUsable config
      → IsUsable state
      → IsUsable cache
      → (p : Paths) × (unix_paths config state cache (ok home) ≡ ok p) × AbsolutePaths p
  unfolding unix_paths cleaned equal trim_right trim_left
  unix_paths-AbsolutePaths config state cache hc hs hk =
      let linux = codes "linux" in
      let at =
        λ (root : Bytes) (names : List Bytes) (some_name : is_nil (cleaned names) ≡ false)
            (usable : IsUsable root).
          join_path-IsAbsolute linux (root_or_home root linux home names) (codes "cachy" ∷ []) refl
            refl (root_or_home-IsAbsolute root linux home names refl some_name absolute usable) in
      (_, refl, (at config _ refl hc, at state _ refl hs, at cache _ refl hk))

module _ (m : Machine) (options : Options) where
  -- The paths cannot be resolved exactly if there is no home directory and they depend on one: on
  -- Windows, if APPDATA or LOCALAPPDATA is empty; on other systems, always.
  pub resolve_paths-Fails :
      Fails (resolve_paths m options) ↔ (NeedsHome m options × Fails (home_dir m options))
  unfolding resolve_paths resolve_windows_paths resolve_darwin_paths resolve_unix_paths
  resolve_paths-Fails = elim (Bool-cases (equal (effective_goos m options) windows)) [
    | inl on_windows ↦
        let (to, from) =
          windows_paths-Fails (env m options (codes "APPDATA"))
            (env m options (codes "LOCALAPPDATA")) (codes "AppData" ∷ codes "Roaming" ∷ [])
            (codes "AppData" ∷ codes "Local" ∷ []) (home_dir m options) in
        rw on_windows ((λ h. (inr (to h).0, (to h).1)), (λ h. from (not_unix h.0, h.1)))
    | inr unix ↦ elim (Bool-cases (equal (effective_goos m options) (codes "darwin"))) [
      | inl on_darwin ↦
          let (to, from) = darwin_paths-Fails (home_dir m options) in
          rw (unix, on_darwin) ((λ h. (inl refl, to h)), (λ h. from h.1))
      | inr linux ↦
          let (to, from) =
            unix_paths-Fails (env m options (codes "XDG_CONFIG_HOME"))
              (env m options (codes "XDG_STATE_HOME")) (env m options (codes "XDG_CACHE_HOME"))
              (home_dir m options) in
          rw (unix, linux) ((λ h. (inl refl, to h)), (λ h. from h.1))
    ]
  ]

  -- Off Windows, where the home directory is absolute and each XDG variable is empty or absolute, the
  -- paths are resolved and the three directories are absolute.
  pub resolve_paths-AbsolutePaths :
      (home : Bytes)
      → equal (effective_goos m options) windows ≡ false
      → home_dir m options ≡ ok home
      → IsAbsolute home
      → IsUsable (env m options (codes "XDG_CONFIG_HOME"))
      → IsUsable (env m options (codes "XDG_STATE_HOME"))
      → IsUsable (env m options (codes "XDG_CACHE_HOME"))
      → (paths : Paths) × (resolve_paths m options ≡ ok paths) × AbsolutePaths paths
  unfolding resolve_paths resolve_darwin_paths resolve_unix_paths
  resolve_paths-AbsolutePaths home unix found absolute config state cache =
      elim (Bool-cases (equal (effective_goos m options) (codes "darwin"))) [
        | inl on_darwin ↦ rw (unix, on_darwin, found) (darwin_paths-AbsolutePaths home absolute)
        | inr linux ↦
            rw (unix, linux, found)
              (unix_paths-AbsolutePaths home absolute (env m options (codes "XDG_CONFIG_HOME"))
                (env m options (codes "XDG_STATE_HOME")) (env m options (codes "XDG_CACHE_HOME"))
                config state cache)
      ]
