-- ===== src/Release/Archive.antt =====
-- internal/release/archive.go: the archive of a binary, and its checksum.
pub mod Written
pub mod Packaged
pub mod Sample
use cachy.Base.{
  ℕ, Bool, ◌==◌, ◌||◌, Option, none, some, List, [], ◌∷◌, ◌++◌, if◌then◌else◌, is_nil, length,
  Result, ok, err,
}
use cachy.Text.{Bytes, codes, equal}
use cachy.Text.Quote.{quote}
use cachy.Tokens.{Error}
use cachy.Ccr.Marker.{hex_encode}
use cachy.Release.{
  Disk, Node, node_size, open_file, Calls, Tools, set_file, unless, read_file, write_file,
}

pub record ArchiveOptions : Type 0 where
  pub binary_path : Bytes
  pub output_dir : Bytes
  pub goos : Bytes
  pub goarch : Bytes

pub record ArchiveArtifact : Type 0 where
  pub archive_path : Bytes
  pub checksum_path : Bytes

-- archive/zip, and archive/tar with compress/gzip: the archive of one entry, by its name.
pub record Writers : Type 0 where
  pub zip : Bytes → Bytes → Bytes
  pub tar_gz : Bytes → Bytes → Bytes

abbrev zip_format : Bytes
zip_format = codes "zip"

abbrev tar_gz_format : Bytes
tar_gz_format = codes "tar.gz"

pub archive_format : Bytes → Bytes → Result Error Bytes
archive_format goos goarch =
    let target = goos ++ (codes "/" ++ goarch) in
    if equal target (codes "windows/amd64") || equal target (codes "windows/arm64")
    then ok zip_format
    else if equal target (codes "darwin/amd64")
        || (equal target (codes "darwin/arm64")
            || (equal target (codes "linux/amd64") || equal target (codes "linux/arm64")))
    then ok tar_gz_format
    else err (codes "unsupported release target " ++ target)

unfoldable pub archive_name : Bytes → Bytes → Bytes → Bytes
archive_name goos goarch format =
    codes "cachy_" ++ (goos ++ (codes "_" ++ (goarch ++ (codes "." ++ format))))

-- What the writers leave: the deferred calls of Close drop their errors.
pub closed : Calls → Bytes → Bytes
closed c archive = elim c.close_error [ none ↦ archive | some e ↦ c.left ]

module _ (t : Tools) (c : Calls) where
  -- The rest of `writeZip` with what copyFile reads.
  zip_copied : Disk → Bytes → (Bytes → Bytes) → Result Error Bytes → Disk × Result Error (Unit {0})
  zip_copied disk archive encode (err e) = (set_file disk archive c.left, err e)
  zip_copied disk archive encode (ok content) =
      unless c.copy_error (set_file disk archive c.left)
        (set_file disk archive (closed c (encode content)), ok tt)

  pub write_zip : Disk → Bytes → Bytes → (Bytes → Bytes) → Disk × Result Error (Unit {0})
  write_zip disk archive binary encode = unless c.create_error disk (
      unless c.header_error (set_file disk archive c.left)
        (zip_copied disk archive encode (read_file c.open_error (set_file disk archive []) binary)))

  -- What io.Copy reads behind the header with the size: a copy that is too short makes only Close fail.
  tar_copied :
      Disk → Bytes → (Bytes → Bytes) → ℕ → Result Error Bytes → Disk × Result Error (Unit {0})
  tar_copied disk archive encode size (err e) = (set_file disk archive c.left, err e)
  tar_copied disk archive encode size (ok content) =
      unless c.copy_error (set_file disk archive c.left) (
        set_file disk archive
            (if length content == size then closed c (encode content) else c.left),
        ok tt,
      )

  tar_opened :
      Disk → Bytes → Bytes → (Bytes → Bytes) → Result Error Node → Disk × Result Error (Unit {0})
  tar_opened disk archive binary encode (err e) = (disk, err e)
  tar_opened disk archive binary encode (ok node) = unless c.stat_error disk (
      unless c.create_error disk (
        unless c.header_error (set_file disk archive c.left) (
          tar_copied disk archive encode (node_size node)
            (read_file none (set_file disk archive []) binary))))

  pub write_tar_gz : Disk → Bytes → Bytes → (Bytes → Bytes) → Disk × Result Error (Unit {0})
  write_tar_gz disk archive binary encode =
      tar_opened disk archive binary encode (open_file c.open_error disk binary)

  unfoldable pub checksum_line : Bytes → Bytes → Bytes
  checksum_line archive content =
      hex_encode (t.sha256 content) ++ (codes "  " ++ (t.base archive ++ codes "\n"))

  checksum_of : Disk → Bytes → Bytes → Result Error Bytes → Disk × Result Error (Unit {0})
  checksum_of disk archive checksum (err e) = (disk, err e)
  checksum_of disk archive checksum (ok content) =
      write_file c disk checksum (checksum_line archive content)

  pub write_checksum : Disk → Bytes → Bytes → Disk × Result Error (Unit {0})
  write_checksum disk archive checksum =
      checksum_of disk archive checksum (read_file c.read_error disk archive)

  pub write_archive : Writers → Disk → Bytes → Bytes → Bytes → Disk × Result Error (Unit {0})
  write_archive writers disk archive binary format =
      if equal format zip_format
      then write_zip disk archive binary (writers.zip (codes "cachy.exe"))
      else if equal format tar_gz_format
      then write_tar_gz disk archive binary (writers.tar_gz (codes "cachy"))
      else (disk, err (codes "unsupported archive format " ++ quote t.is_print format))

  checksummed :
      ArchiveArtifact → Disk × Result Error (Unit {0}) → Disk × Result Error ArchiveArtifact
  checksummed artifact (disk, err e) = (disk, err e)
  checksummed artifact (disk, ok done) = (disk, ok artifact)

  archived : ArchiveArtifact → Disk × Result Error (Unit {0}) → Disk × Result Error ArchiveArtifact
  archived artifact (disk, err e) = (disk, err e)
  archived artifact (disk, ok done) =
      checksummed artifact (write_checksum disk artifact.archive_path artifact.checksum_path)

  artifact_of : Bytes → ArchiveArtifact
  artifact_of path = record { archive_path = path; checksum_path = path ++ codes ".sha256" }

  package_with :
      Writers → Disk → ArchiveOptions → Result Error Bytes → Disk × Result Error ArchiveArtifact
  package_with writers disk options (err e) = (disk, err e)
  package_with writers disk options (ok format) = unless c.mkdir_error disk (
      let path = t.join_path options.output_dir (archive_name options.goos options.goarch format) in
      archived (artifact_of path) (write_archive writers disk path options.binary_path format))

  pub package_archive : Writers → Disk → ArchiveOptions → Disk × Result Error ArchiveArtifact
  package_archive writers disk options =
      if is_nil options.binary_path
      then (disk, err (codes "binary path is required"))
      else if is_nil options.output_dir
      then (disk, err (codes "output dir is required"))
      else package_with writers disk options (archive_format options.goos options.goarch)
