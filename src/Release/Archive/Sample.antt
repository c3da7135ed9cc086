-- ===== src/Release/Archive/Sample.antt =====
-- A run of `PackageArchive` on one binary.
use cachy.Base.{◌≡◌, refl, true, false, none, some, [], ◌∷◌, ◌++◌, length, ok, if◌then◌else◌}
use cachy.Text.{codes, equal}
use cachy.Release.{
  Disk, file, Calls, Tools, set_file, read_file, read_node, open_file, open_node, node_size,
  write_file,
}
use cachy.Release.Archive.{
  ArchiveOptions, ArchiveArtifact, Writers, archive_format, archive_name, closed, package_archive,
  package_with, archived, checksummed, write_archive, write_tar_gz, tar_opened, tar_copied,
  write_checksum, checksum_of, checksum_line, artifact_of,
}

abbrev pub tools : Tools
tools = record {
  join_path = λ dir name. dir ++ (codes "/" ++ name);
  base = λ path. path;
  to_slash = λ path. path;
  sha256 = λ content. length content ∷ [];
  is_print = λ r. true;
}

-- Every call succeeds.
abbrev pub sound : Calls
sound = record {
  mkdir_error = none;
  create_error = none;
  open_error = none;
  stat_error = none;
  header_error = none;
  copy_error = none;
  close_error = none;
  read_error = none;
  write_error = none;
  left = [];
}

abbrev pub writers : Writers
writers = record { zip = λ name b. name ++ b; tar_gz = λ name b. name ++ b }

abbrev pub disk : Disk
disk = λ path. if equal path (codes "d/b") then some (file (codes "elf")) else none

abbrev pub options : ArchiveOptions
options = record {
  binary_path = codes "d/b";
  output_dir = codes "d";
  goos = codes "linux";
  goarch = codes "amd64";
}

abbrev pub artifact : ArchiveArtifact
artifact = record {
  archive_path = codes "d/cachy_linux_amd64.tar.gz";
  checksum_path = codes "d/cachy_linux_amd64.tar.gz.sha256";
}

pub packaged_disk : Disk
packaged_disk = (package_archive tools sound writers disk options).0

pub packaging : package_archive tools sound writers disk options ≡ (packaged_disk, ok artifact)
unfolding packaged_disk package_archive package_with archive_format archive_name archived
    checksummed write_archive write_tar_gz tar_opened tar_copied write_checksum checksum_of
    checksum_line artifact_of closed read_file read_node open_file open_node node_size set_file
    write_file equal
packaging = refl

pub binary_there : disk options.binary_path ≡ some (file (codes "elf"))
unfolding equal
binary_there = refl

pub binary_apart : equal options.binary_path artifact.archive_path ≡ false
unfolding equal
binary_apart = refl

pub stored : packaged_disk artifact.archive_path ≡ some (file (codes "cachyelf"))
unfolding packaged_disk package_archive package_with archive_format archive_name archived
    checksummed write_archive write_tar_gz tar_opened tar_copied write_checksum checksum_of
    checksum_line artifact_of closed read_file read_node open_file open_node node_size set_file
    write_file equal
stored = refl
