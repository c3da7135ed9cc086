-- ===== src/Plugin/Lifecycle/Enabled.antt =====
-- Enabling and disabling plugins.
use cachy.Base.{
  ◌>>=◌, ◌≡◌, ◌≢◌, refl, Bool, true, false, none, arith, if◌then◌else◌, Result, ok, err,
}
use cachy.Text.{Bytes, equal, equal_iff, equal_refl}
use cachy.Plugin.{Manifest, matches_name}
use cachy.Plugin.Compressor.{Info}
use cachy.Plugin.Lifecycle.{
  undecodable_manifest, name_mismatch, invalid_manifest, system_error, Stat, exists, missing,
  failed, Files, LifecycleError, missing_file, plugin_not_found, manifest_file, enabled_file,
  load_manifest, with_marker, found, named, named_plugin, set_stat, inspect_plugin_dir,
  inspect_plugin, mark, set_enabled, MarkCalls, no_failure, write_marker, remove_marker,
}

not_equal : (s t : Bytes) → s ≢ t → equal s t ≡ false
not_equal s t ne = ground (arith, equal_iff s t)

abbrev marker_of : Bool → Stat
marker_of enabled = if enabled then exists else missing

with_marker-marked :
    (m : Manifest) (dir : Bytes) (s : Stat) (info : Info) (enabled : Bool)
    → with_marker m dir s ≡ ok info
    → with_marker m dir (marker_of enabled) ≡ ok (record info { enabled = enabled })
unfolding with_marker
with_marker-marked m dir exists info true h = ground arith
with_marker-marked m dir exists info false h = ground arith
with_marker-marked m dir missing info true h = ground arith
with_marker-marked m dir missing info false h = ground arith
with_marker-marked m dir (failed e) info enabled h = cc h

-- The directory of the plugin that is found.
with_marker-dir :
    (m : Manifest) (dir : Bytes) (s : Stat) (info : Info)
    → with_marker m dir s ≡ ok info
    → info.dir ≡ dir
unfolding with_marker
with_marker-dir m dir exists info h = ground arith
with_marker-dir m dir missing info h = ground arith
with_marker-dir m dir (failed e) info h = cc h

-- The steps of `inspectPluginDir`, from the two outcomes of os.Stat and that of the decoder.
abbrev steps : Stat → Result LifecycleError Manifest → Bytes → Stat → Result LifecycleError Info
steps s l dir marker = do there ← found s; m ← l; with_marker m dir marker

steps-marked :
    (s : Stat) (l : Result LifecycleError Manifest) (dir : Bytes) (marker : Stat) (info : Info)
    (enabled : Bool)
    → steps s l dir marker ≡ ok info
    → (steps s l dir (marker_of enabled) ≡ ok (record info { enabled = enabled }))
      × (info.dir ≡ dir)
unfolding found
steps-marked exists (ok m) dir marker info enabled h =
    (with_marker-marked m dir marker info enabled h, with_marker-dir m dir marker info h)
steps-marked exists (err e) dir marker info enabled h = cc h
steps-marked missing l dir marker info enabled h = cc h
steps-marked (failed e) l dir marker info enabled h = cc h

named_plugin_ok :
    (name : Bytes) (r : Result LifecycleError Info) (info : Info)
    → named_plugin name r ≡ ok info
    → (r ≡ ok info) × (equal info.manifest.name name ≡ true)
unfolding named_plugin named
named_plugin_ok name (ok i) info h = ground arith
named_plugin_ok name (err missing_file) info h = cc h
named_plugin_ok name (err plugin_not_found) info h = cc h
named_plugin_ok name (err undecodable_manifest) info h = cc h
named_plugin_ok name (err name_mismatch) info h = cc h
named_plugin_ok name (err (invalid_manifest ps)) info h = cc h
named_plugin_ok name (err (system_error e)) info h = cc h

module _ (join : Bytes → Bytes → Bytes) where
  set_stat-inspect_plugin_dir :
      (files : Files) (dir : Bytes) (info : Info) (enabled : Bool)
      → join dir manifest_file ≢ join dir enabled_file
      → inspect_plugin_dir join files dir ≡ ok info
      → (inspect_plugin_dir join (set_stat files (join dir enabled_file) (marker_of enabled)) dir
          ≡ ok (record info { enabled = enabled }))
        × (info.dir ≡ dir)
  unfolding inspect_plugin_dir set_stat
  set_stat-inspect_plugin_dir files dir info enabled apart h =
      let l = load_manifest (files.decode_file (join dir manifest_file)) in
      rw
        (
          equal_refl (join dir enabled_file),
          not_equal (join dir manifest_file) (join dir enabled_file) apart,
        )
        (steps-marked (files.stat (join dir manifest_file)) l dir
          (files.stat (join dir enabled_file)) info enabled h)

  inspect_plugin_ok :
      (files : Files) (root name : Bytes) (info : Info)
      → inspect_plugin join files root name ≡ ok info
      → (matches_name name ≡ true)
        × (inspect_plugin_dir join files (join root name) ≡ ok info)
        × (equal info.manifest.name name ≡ true)
  unfolding inspect_plugin
  inspect_plugin_ok files root name info h =
      ground (arith, named_plugin_ok name (inspect_plugin_dir join files (join root name)) info)

module _ (join : Bytes → Bytes → Bytes) (root name : Bytes) where
  mark_sets :
      (files : Files) (enabled : Bool) (info : Info)
      → (mark join no_failure enabled files (ok info)).0
        ≡ set_stat files (join info.dir enabled_file) (marker_of enabled)
  unfolding mark write_marker remove_marker
  mark_sets files true info = refl
  mark_sets files false info = refl

  -- `SetEnabled`, if it can write or remove the marker of a plugin that is found, makes the plugin
  -- enabled or disabled as it was told, and `InspectPlugin` then finds the same plugin otherwise.
  pub inspect_plugin-set_enabled :
      (files : Files) (enabled : Bool) (info : Info)
      → join (join root name) manifest_file ≢ join (join root name) enabled_file
      → inspect_plugin join files root name ≡ ok info
      → inspect_plugin join (set_enabled join no_failure files root name enabled).0 root name
        ≡ ok (record info { enabled = enabled })
  inspect_plugin-set_enabled files enabled info apart h =
      let (matches, there, same_name) = inspect_plugin_ok join files root name info h in
      let (again, at) =
        set_stat-inspect_plugin_dir join files (join root name) info enabled apart there in
      let marked : (set_enabled join no_failure files root name enabled).0
          ≡ set_stat files (join (join root name) enabled_file) (marker_of enabled) =
        unfold set_enabled in rw (h, mark_sets files enabled info, at) refl in
      rw marked (unfold inspect_plugin named_plugin named in rw (matches, again, same_name) refl)

module _ (join : Bytes → Bytes → Bytes) (calls : MarkCalls) (files : Files) (on : Bool) where
  mark-fails :
      (inspected : Result LifecycleError Info) (files' : Files) (e : LifecycleError)
      → calls.write_error ≡ none
      → mark join calls on files inspected ≡ (files', err e)
      → files' ≡ files
  unfolding mark write_marker remove_marker
  mark-fails inspected files' e writes refused = ground arith

  -- A command that fails leaves the plugins as they were, unless it is the write that failed.
  pub set_enabled-fails :
      (root name : Bytes) (files' : Files) (e : LifecycleError)
      → calls.write_error ≡ none
      → set_enabled join calls files root name on ≡ (files', err e)
      → files' ≡ files
  unfolding set_enabled
  set_enabled-fails root name files' e writes refused = mark-fails _ files' e writes refused
