-- ===== src/Platform/Tests.antt =====
-- Runs of the resolution of paths.
use cachy.Base.{none, true, ◌≡◌, ◌↔◌, inl, inr, refl, false, some, [], ◌∷◌, ok, err}
use cachy.Text.{join, trim_left, trim_right, codes, equal, has_prefix}
use cachy.Platform.{
  system_home, lookup, root_or_home, cleaned, join_path, unix_paths, resolve_unix_paths, has_prefix,
  Options, Paths, Machine, windows, home_dir, resolve_paths, env, effective_goos,
}
use cachy.Platform.Resolve.{
  Fails, NeedsHome, IsUsable, AbsolutePaths, resolve_paths-Fails, resolve_paths-AbsolutePaths,
}

abbrev machine : Machine
machine = record { goos = codes "linux"; getenv = λ key. []; user_home_dir = err (codes "no home") }

abbrev options : Options
options = record {
  goos = [];
  home_dir = codes "/home/ada";
  vars = some ((codes "XDG_STATE_HOME", codes "/state") ∷ []);
}

resolve_paths_run :
    resolve_paths machine options
    ≡ ok (record {
      config_dir = codes "/home/ada/.config/cachy";
      state_dir = codes "/state/cachy";
      cache_dir = codes "/home/ada/.cache/cachy";
    })
unfolding resolve_paths equal resolve_unix_paths unix_paths home_dir join_path cleaned trim_right
    trim_left root_or_home env lookup has_prefix join
resolve_paths_run = refl

resolve_paths-Fails_example : Fails (resolve_paths machine (record options { home_dir = [] })) ↔ (
    NeedsHome machine (record options { home_dir = [] })
    × Fails (home_dir machine (record options { home_dir = [] })))
resolve_paths-Fails_example = resolve_paths-Fails machine (record options { home_dir = [] })

home_dir_run : home_dir machine options ≡ ok (codes "/home/ada")
unfolding home_dir
home_dir_run = refl

env-IsUsable : IsUsable (env machine options (codes "XDG_STATE_HOME"))
unfolding env has_prefix lookup equal
env-IsUsable = inr refl

env-unset :
    IsUsable (env machine options (codes "XDG_CONFIG_HOME"))
    × IsUsable (env machine options (codes "XDG_CACHE_HOME"))
unfolding env lookup equal
env-unset = (inl refl, inl refl)

not_windows : equal (effective_goos machine options) windows ≡ false
unfolding equal
not_windows = refl

home_absolute : has_prefix (codes "/home/ada") (codes "/") ≡ true
unfolding has_prefix
home_absolute = refl

resolve_paths-AbsolutePaths_example :
    (paths : Paths) × (resolve_paths machine options ≡ ok paths) × AbsolutePaths paths
resolve_paths-AbsolutePaths_example =
    resolve_paths-AbsolutePaths machine options (codes "/home/ada") not_windows home_dir_run
      home_absolute env-unset.0 env-IsUsable env-unset.1

system_home_run :
    home_dir
      (record machine { user_home_dir = ok (codes "/root") })
      (record { goos = []; home_dir = []; vars = none })
    ≡ ok (codes "/root")
unfolding home_dir system_home env
system_home_run = refl
