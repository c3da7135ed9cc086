-- ===== src/Platform.antt =====
-- internal/platform/paths.go: where Cachy keeps its files. What package os and the build say of the
-- machine is a `Machine`.
pub mod Resolve
mod Tests
use cachy.Base.{
  ℕ, Bool, true, false, not, ◌&&◌, ◌||◌, ◌==◌, Option, none, some, List, [], ◌∷◌, ◌++◌,
  if◌then◌else◌, is_nil, Result, ok, err,
}
use cachy.Text.{Bytes, codes, equal, has_prefix, join, trim_left, trim_right}
use cachy.Tokens.{Error}

-- A map; `none` is the nil map.
pub record Options : Type 0 where
  pub goos : Bytes
  pub home_dir : Bytes
  pub vars : Option (List (Bytes × Bytes))

pub record Paths : Type 0 where
  pub config_dir : Bytes
  pub state_dir : Bytes
  pub cache_dir : Bytes

-- runtime.GOOS, os.Getenv and os.UserHomeDir
pub record Machine : Type 0 where
  pub goos : Bytes
  pub getenv : Bytes → Bytes
  pub user_home_dir : Result Error Bytes

abbrev home_required : Error
home_required = codes "home directory is required to resolve Cachy paths"

abbrev pub windows : Bytes
windows = codes "windows"

unfoldable pub lookup : Bytes → List (Bytes × Bytes) → Bytes
lookup key [] = []
lookup key ((k, v) ∷ rest) = let later = lookup key rest in if equal k key then v else later

pub env : Machine → Options → Bytes → Bytes
env m options key = elim options.vars [ none ↦ m.getenv key | some vars ↦ lookup key vars ]

-- The fallback on os.UserHomeDir, which only a nil environment has.
system_home : Option (List (Bytes × Bytes)) → Result Error Bytes → Result Error Bytes
system_home none (ok home) = if not (is_nil home) then ok home else err home_required
system_home none (err e) = err home_required
system_home (some vars) home = err home_required

pub home_dir : Machine → Options → Result Error Bytes
home_dir m options =
    if not (is_nil options.home_dir)
    then ok options.home_dir
    else if not (is_nil (env m options (codes "HOME")))
    then ok (env m options (codes "HOME"))
    else if not (is_nil (env m options (codes "USERPROFILE")))
    then ok (env m options (codes "USERPROFILE"))
    else system_home options.vars m.user_home_dir

abbrev is_separator : ℕ → Bool
is_separator c = c == b'/' || c == 92

-- The parts without the separators around them, less those that are empty then.
pub cleaned : List Bytes → List Bytes
cleaned [] = []
cleaned (part ∷ parts) =
    let rest = cleaned parts in
    let trimmed = trim_right is_separator (trim_left is_separator part) in
    if is_nil trimmed then rest else trimmed ∷ rest

abbrev first_part : List Bytes → Bytes
first_part [] = []
first_part (part ∷ parts) = part

pub join_path : Bytes → List Bytes → Bytes
join_path goos parts =
    if is_nil (cleaned parts)
    then []
    else (if has_prefix (first_part parts) (codes "/") && not (equal goos windows)
        then codes "/"
        else [])
      ++ join (cleaned parts) (if equal goos windows then 92 ∷ [] else codes "/")

-- `root`, or if it is empty a path below the home directory
pub root_or_home : Bytes → Bytes → Bytes → List Bytes → Bytes
root_or_home root goos home names = if is_nil root then join_path goos (home ∷ names) else root

-- The same on Windows, where the home directory is asked for only here.
pub root_or_home_dir : Bytes → Result Error Bytes → List Bytes → Result Error Bytes
root_or_home_dir root (ok home) names = ok (root_or_home root windows home names)
root_or_home_dir root (err e) names = if is_nil root then err e else ok root

pub windows_paths : Result Error Bytes → Result Error Bytes → Result Error Paths
windows_paths (err e) local = err e
windows_paths (ok roaming) (err e) = err e
windows_paths (ok roaming) (ok local) = ok (record {
  config_dir = join_path windows (roaming ∷ codes "Cachy" ∷ []);
  state_dir = join_path windows (local ∷ codes "Cachy" ∷ []);
  cache_dir = join_path windows (local ∷ codes "Cachy" ∷ codes "cache" ∷ []);
})

pub resolve_windows_paths : Machine → Options → Result Error Paths
resolve_windows_paths m options =
    windows_paths
      (root_or_home_dir (env m options (codes "APPDATA")) (home_dir m options)
        (codes "AppData" ∷ codes "Roaming" ∷ []))
      (root_or_home_dir (env m options (codes "LOCALAPPDATA")) (home_dir m options)
        (codes "AppData" ∷ codes "Local" ∷ []))

pub darwin_paths : Result Error Bytes → Result Error Paths
darwin_paths (err e) = err e
darwin_paths (ok home) =
    let app_support =
      join_path (codes "darwin")
        (home ∷ codes "Library" ∷ codes "Application Support" ∷ codes "Cachy" ∷ []) in
    ok (record {
      config_dir = app_support;
      state_dir = app_support;
      cache_dir =
          join_path (codes "darwin") (home ∷ codes "Library" ∷ codes "Caches" ∷ codes "Cachy" ∷ []);
    })

pub resolve_darwin_paths : Machine → Options → Result Error Paths
resolve_darwin_paths m options = darwin_paths (home_dir m options)

-- From the three XDG variables and the home directory
pub unix_paths : Bytes → Bytes → Bytes → Result Error Bytes → Result Error Paths
unix_paths config state cache (err e) = err e
unix_paths config state cache (ok home) =
    let linux = codes "linux" in
    ok (record {
      config_dir =
          join_path linux
            (root_or_home config linux home (codes ".config" ∷ []) ∷ codes "cachy" ∷ []);
      state_dir = join_path linux (
          root_or_home state linux home (codes ".local" ∷ codes "state" ∷ []) ∷ codes "cachy" ∷ []);
      cache_dir =
          join_path linux
            (root_or_home cache linux home (codes ".cache" ∷ []) ∷ codes "cachy" ∷ []);
    })

pub resolve_unix_paths : Machine → Options → Result Error Paths
resolve_unix_paths m options =
    unix_paths (env m options (codes "XDG_CONFIG_HOME")) (env m options (codes "XDG_STATE_HOME"))
      (env m options (codes "XDG_CACHE_HOME")) (home_dir m options)

abbrev pub effective_goos : Machine → Options → Bytes
effective_goos m options = if is_nil options.goos then m.goos else options.goos

pub resolve_paths : Machine → Options → Result Error Paths
resolve_paths m options =
    if equal (effective_goos m options) windows
    then resolve_windows_paths m options
    else if equal (effective_goos m options) (codes "darwin")
    then resolve_darwin_paths m options
    else resolve_unix_paths m options
