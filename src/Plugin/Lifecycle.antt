-- ===== src/Plugin/Lifecycle.antt =====
-- internal/plugin/lifecycle.go, and LoadManifest of manifest.go: the plugins on a disk. What os.Stat,
-- os.ReadDir and the TOML decoder say is `Files`; path/filepath.Join and sort.Slice are parameters.
pub mod Enabled
pub mod Fixture
mod Tests
use cachy.Base.{
  Bool, true, false, not, Option, none, some, List, [], ◌∷◌, if◌then◌else◌, Result, ok, err, ◌>>=◌,
}
use cachy.Text.{Bytes, codes, equal}
use cachy.Tokens.{Error}
use cachy.Plugin.{Manifest, Problem, matches_name, validate_manifest}
use cachy.Plugin.Compressor.{Info}

pub data Stat : Type 0 where
  exists missing : Stat
  failed : Error → Stat

-- A name in a directory, and whether it is a directory.
pub record Entry : Type 0 where
  pub name : Bytes
  pub is_dir : Bool

-- `none` is a directory that is not there, or a file that is not TOML of a manifest.
pub record Files : Type 0 where
  pub stat : Bytes → Stat
  pub entries : Bytes → Result Error (Option (List Entry))
  pub decode_file : Bytes → Option Manifest

-- `missing_file` is an error that is os.ErrNotExist.
pub data LifecycleError : Type 0 where
  missing_file plugin_not_found undecodable_manifest name_mismatch : LifecycleError
  invalid_manifest : List Problem → LifecycleError
  system_error : Error → LifecycleError

abbrev pub manifest_file : Bytes
manifest_file = codes "manifest.toml"

abbrev pub enabled_file : Bytes
enabled_file = codes "enabled"

pub accept : Manifest → List Problem → Result LifecycleError Manifest
accept m [] = ok m
accept m (p ∷ ps) = err (invalid_manifest (p ∷ ps))

-- LoadManifest, from what the decoder found.
pub load_manifest : Option Manifest → Result LifecycleError Manifest
load_manifest none = err undecodable_manifest
load_manifest (some m) = accept m (validate_manifest m)

-- From the second os.Stat on.
pub with_marker : Manifest → Bytes → Stat → Result LifecycleError Info
with_marker m dir exists = ok (record { manifest = m; dir = dir; enabled = true })
with_marker m dir missing = ok (record { manifest = m; dir = dir; enabled = false })
with_marker m dir (failed e) = err (system_error e)

-- The first os.Stat.
pub found : Stat → Result LifecycleError Bool
found exists = ok true
found missing = err missing_file
found (failed e) = err (system_error e)

pub named : Bytes → Info → Result LifecycleError Info
named name info = if not (equal info.manifest.name name) then err name_mismatch else ok info

-- What `InspectPlugin` makes of a directory's result.
pub named_plugin : Bytes → Result LifecycleError Info → Result LifecycleError Info
named_plugin name (ok info) = named name info
named_plugin name (err missing_file) = err plugin_not_found
named_plugin name (err e) = err e

-- Where the marker file is then.
pub set_stat : Files → Bytes → Stat → Files
set_stat files path s = record files { stat = λ p. if equal p path then s else files.stat p }

-- The outcomes of os.WriteFile and os.Remove on the marker. A write that fails says what is there then,
-- since it may have made the file; a marker that is not there counts as removed, and a removal that
-- fails leaves it.
pub record MarkCalls : Type 0 where
  pub write_error : Option (Error × Stat)
  pub remove_error : Option Error

abbrev pub no_failure : MarkCalls
no_failure = record { write_error = none; remove_error = none }

pub write_marker : Files → Bytes → Option (Error × Stat) → Files × Result LifecycleError Bool
write_marker files marker none = (set_stat files marker exists, ok true)
write_marker files marker (some (e, s)) = (set_stat files marker s, err (system_error e))

pub remove_marker : Files → Bytes → Option Error → Files × Result LifecycleError Bool
remove_marker files marker none = (set_stat files marker missing, ok false)
remove_marker files marker (some e) = (files, err (system_error e))

module _ (join : Bytes → Bytes → Bytes) where
  pub inspect_plugin_dir : Files → Bytes → Result LifecycleError Info
  inspect_plugin_dir files dir = do
    there ← found (files.stat (join dir manifest_file))
    m ← load_manifest (files.decode_file (join dir manifest_file))
    with_marker m dir (files.stat (join dir enabled_file))

  pub inspect_plugin : Files → Bytes → Bytes → Result LifecycleError Info
  inspect_plugin files root name =
      if not (matches_name name)
      then err plugin_not_found
      else named_plugin name (inspect_plugin_dir files (join root name))

  -- What SetEnabled does with the plugin that it found.
  pub mark :
      MarkCalls → Bool → Files → Result LifecycleError Info → Files × Result LifecycleError Bool
  mark calls enabled files (err e) = (files, err e)
  mark calls enabled files (ok info) =
      let marker = join info.dir enabled_file in
      if enabled
      then write_marker files marker calls.write_error
      else remove_marker files marker calls.remove_error

  pub set_enabled : MarkCalls → Files → Bytes → Bytes → Bool → Files × Result LifecycleError Bool
  set_enabled calls files root name enabled =
      mark calls enabled files (inspect_plugin files root name)

  -- One round of the loop of `ListPlugins`: a plugin, none, or an error.
  pub listed : Result LifecycleError Info → Result LifecycleError (Option Info)
  listed (ok info) = ok (some info)
  listed (err missing_file) = ok none
  listed (err e) = err e

  pub list_entries : Files → Bytes → List Entry → Result LifecycleError (List Info)
  list_entries files root [] = ok []
  list_entries files root (e ∷ es) =
      let rest = list_entries files root es in
      if not e.is_dir then rest else do
        info ← listed (inspect_plugin_dir files (join root e.name))
        infos ← rest
        ok (elim info [ none ↦ infos | some i ↦ i ∷ infos ])

  -- From what os.ReadDir returned.
  pub list_dir :
      (List Info → List Info)
      → Files
      → Bytes
      → Result Error (Option (List Entry))
      → Result LifecycleError (List Info)
  list_dir sort files root (err e) = err (system_error e)
  list_dir sort files root (ok none) = ok []
  list_dir sort files root (ok (some es)) = do infos ← list_entries files root es; ok (sort infos)

  pub list_plugins : (List Info → List Info) → Files → Bytes → Result LifecycleError (List Info)
  list_plugins sort files root = list_dir sort files root (files.entries root)
