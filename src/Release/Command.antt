-- ===== src/Release/Command.antt =====
-- cmd/cachy-release/main.go: the command line of a release. Package flag ends a run itself: with exit
-- code 0 for help, and with 2 for other errors.
pub mod Checked
mod Tests
use cachy.Base.{ℕ, Bool, false, Option, none, List, [], ◌∷◌, ◌++◌, if◌then◌else◌, Result, ok, err}
use cachy.Text.{Bytes, codes, equal}
use cachy.Text.Quote.{quote}
use cachy.Tokens.{Error}
use cachy.Cli.Flags.{Flag, FlagError, help, Values, parse, value_of}
use cachy.Cli.Environment.{Output, exit, success, failure}
use cachy.Cli.Integrations.{text_flag}
use cachy.Release.{Disk, Calls, Tools}
use cachy.Release.Archive.{ArchiveOptions, ArchiveArtifact, Writers, package_archive}
use cachy.Release.Evidence.{
  SbomOptions, ReleaseNotesOptions, Context, generate_sbom, generate_release_notes,
}

flag_exit : FlagError → Output
flag_exit help = exit 0
flag_exit e = exit 2

pub archive_options : Values → ArchiveOptions
archive_options values = record {
  binary_path = value_of (codes "input") [] values;
  output_dir = value_of (codes "out") (codes "dist") values;
  goos = value_of (codes "goos") [] values;
  goarch = value_of (codes "goarch") [] values;
}

sbom_options : Values → SbomOptions
sbom_options values = record {
  kind = value_of (codes "kind") [] values;
  artifact = value_of (codes "artifact") [] values;
  output_path = value_of (codes "out") [] values;
  version = value_of (codes "version") [] values;
  generated_at = none;
}

notes_options : Values → ReleaseNotesOptions
notes_options values = record {
  version = value_of (codes "version") [] values;
  output = value_of (codes "out") [] values;
}

package_output : Result Error ArchiveArtifact → Output
package_output (err e) = failure 1 (codes "package failed: " ++ (e ++ codes "\n"))
package_output (ok artifact) = success (
    codes "archive: "
    ++ (artifact.archive_path ++ (codes "\nchecksum: " ++ (artifact.checksum_path ++ codes "\n"))))

path_output : Bytes → Result Error Bytes → Output
path_output what (err e) = failure 1 (what ++ (codes " failed: " ++ (e ++ codes "\n")))
path_output what (ok path) = success (what ++ (codes ": " ++ (path ++ codes "\n")))

pub package_flags : List Flag
package_flags =
    text_flag (codes "input")
    ∷ text_flag (codes "goos")
    ∷ text_flag (codes "goarch")
    ∷ text_flag (codes "out")
    ∷ []

sbom_flags : List Flag
sbom_flags =
    text_flag (codes "kind")
    ∷ text_flag (codes "artifact")
    ∷ text_flag (codes "out")
    ∷ text_flag (codes "version")
    ∷ []

notes_flags : List Flag
notes_flags = text_flag (codes "version") ∷ text_flag (codes "out") ∷ []

module _ (t : Tools) (c : Calls) (writers : Writers) (x : Context) (disk : Disk) where
  package_with_flags : Result FlagError Values → Disk × Output
  package_with_flags (err e) = (disk, flag_exit e)
  package_with_flags (ok values) =
      let (disk', result) = package_archive t c writers disk (archive_options values) in
      (disk', package_output result)

  run_package : List Bytes → Disk × Output
  run_package args = package_with_flags (parse package_flags args)

  sbom_with_flags : Result FlagError Values → Disk × Output
  sbom_with_flags (err e) = (disk, flag_exit e)
  sbom_with_flags (ok values) =
      let (disk', result) = generate_sbom t c x disk (sbom_options values) in
      (disk', path_output (codes "sbom") result)

  run_sbom : List Bytes → Disk × Output
  run_sbom args = sbom_with_flags (parse sbom_flags args)

  notes_with_flags : Result FlagError Values → Disk × Output
  notes_with_flags (err e) = (disk, flag_exit e)
  notes_with_flags (ok values) =
      let (disk', result) = generate_release_notes t c disk (notes_options values) in
      (disk', path_output (codes "notes") result)

  run_notes : List Bytes → Disk × Output
  run_notes args = notes_with_flags (parse notes_flags args)

  -- main, on the arguments behind the program's name
  pub run_release : List Bytes → Disk × Output
  run_release [] = (disk, failure 2 (codes "usage: cachy-release <package|sbom|notes> ...\n"))
  run_release (command ∷ args) =
      if equal command (codes "package")
      then run_package args
      else if equal command (codes "sbom")
      then run_sbom args
      else if equal command (codes "notes")
      then run_notes args
      else (disk, failure 2 (codes "unknown command " ++ (quote t.is_print command ++ codes "\n")))
