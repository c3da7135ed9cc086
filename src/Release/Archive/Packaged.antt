-- ===== src/Release/Archive/Packaged.antt =====
-- What a successful `PackageArchive` leaves.
use cachy.Base.{false, ◌≡◌, refl, sym, ap, some, ◌++◌, Result, ok, err, arith}
use cachy.Text.{Bytes, codes, equal}
use cachy.Tokens.{Error}
use cachy.Release.{Disk, file, Calls, Tools}
use cachy.Release.Outcomes.{unless-ok}
use cachy.Release.Archive.Written.{encoded, write_archive-ok, write_checksum-ok}
use cachy.Release.Archive.{
  ArchiveOptions, ArchiveArtifact, Writers, archive_format, archive_name, closed, checksum_line,
  write_checksum, checksummed, archived, artifact_of, package_with, package_archive,
}

-- What a run leaves: an archive and its checksum.
pub record Packaged (t : Tools) (c : Calls) (writers : Writers) (options : ArchiveOptions)
    (b : Bytes) (disk' : Disk) (artifact : ArchiveArtifact) : Type 0 where
  pub format : Bytes
  pub supported : archive_format options.goos options.goarch ≡ ok format
  pub named :
      artifact.archive_path
      ≡ t.join_path options.output_dir (archive_name options.goos options.goarch format)
  pub archive : disk' artifact.archive_path ≡ some (file (closed c (encoded writers format b)))
  pub checksum :
      disk' artifact.checksum_path
      ≡ some (file (checksum_line t c artifact.archive_path (closed c (encoded writers format b))))

module _ (t : Tools) (c : Calls) (writers : Writers) (disk disk' : Disk)
    (artifact : ArchiveArtifact) where
  checksummed-ok :
      (artifact' : ArchiveArtifact) (r : Disk × Result Error (Unit {0}))
      → checksummed t c artifact' r ≡ (disk', ok artifact)
      → (artifact' ≡ artifact) × ◌≡◌ {A = Disk × Result Error (Unit {0})} r (disk', ok tt)
  unfolding checksummed
  checksummed-ok artifact' (d, err e) h = cc h
  checksummed-ok artifact' (d, ok done) h = (cc h, cc h)

  archived-ok :
      (artifact' : ArchiveArtifact) (r : Disk × Result Error (Unit {0}))
      → archived t c artifact' r ≡ (disk', ok artifact)
      → (d : Disk) × (◌≡◌ {A = Disk × Result Error (Unit {0})} r (d, ok tt))
        × (artifact' ≡ artifact)
        × (write_checksum t c d artifact'.archive_path artifact'.checksum_path ≡ (disk', ok tt))
  unfolding archived
  archived-ok artifact' (d, err e) h = cc h
  archived-ok artifact' (d, ok done) h =
      let (same, summed) = checksummed-ok artifact' _ h in (d, refl, same, summed)

  packaged :
      (options : ArchiveOptions) (b format : Bytes)
      → archive_format options.goos options.goarch ≡ ok format
      → (let path =
            t.join_path options.output_dir (archive_name options.goos options.goarch format) in
          (disk' path ≡ some (file (closed c (encoded writers format b))))
          × (disk' (path ++ codes ".sha256")
              ≡ some (file (checksum_line t c path (closed c (encoded writers format b))))))
      → Packaged t c writers options b disk' (
          artifact_of t c
            (t.join_path options.output_dir (archive_name options.goos options.goarch format)))
  unfolding artifact_of
  packaged options b format is_format (archive, checksum) = record {
    format = format;
    supported = is_format;
    named = refl;
    archive = archive;
    checksum = checksum;
  }

  package_with_path :
      (options : ArchiveOptions) (f : Result Error Bytes)
      → package_with t c writers disk options f ≡ (disk', ok artifact)
      → (format : Bytes) × (f ≡ ok format)
        × (artifact.archive_path
            ≡ t.join_path options.output_dir (archive_name options.goos options.goarch format))
  unfolding package_with artifact_of
  package_with_path options (err e) h = cc h
  package_with_path options (ok format) h =
      let (d, wrote, same, summed) =
        archived-ok _ _ (unless-ok c.mkdir_error _ disk' _ artifact h) in
      (format, refl, ap (λ (a : ArchiveArtifact). a.archive_path) (sym same))

  -- The archive stands in the output directory, under the name of a supported target.
  pub package_archive_path :
      (options : ArchiveOptions)
      → package_archive t c writers disk options ≡ (disk', ok artifact)
      → (format : Bytes) × (archive_format options.goos options.goarch ≡ ok format)
        × (artifact.archive_path
            ≡ t.join_path options.output_dir (archive_name options.goos options.goarch format))
  unfolding package_archive
  package_archive_path options h =
      package_with_path options (archive_format options.goos options.goarch) (ground arith)

  package_with-ok :
      (options : ArchiveOptions) (b : Bytes) (f : Result Error Bytes)
      → archive_format options.goos options.goarch ≡ f
      → disk options.binary_path ≡ some (file b)
      → equal options.binary_path artifact.archive_path ≡ false
      → package_with t c writers disk options f ≡ (disk', ok artifact)
      → Packaged t c writers options b disk' artifact
  unfolding package_with artifact_of
  package_with-ok options b (err e) is_format there apart h = cc h
  package_with-ok options b (ok format) is_format there apart h =
      let (d, wrote, same, summed) =
        archived-ok _ _ (unless-ok c.mkdir_error _ disk' _ artifact h) in
      let path = t.join_path options.output_dir (archive_name options.goos options.goarch format) in
      let apart' : equal options.binary_path path ≡ false = rw (sym same) at apart in
      let written =
        write_archive-ok t c writers disk d path options.binary_path b format there apart' wrote in
      let (archive, checksum) = write_checksum-ok t c writers d disk' path _ written summed in
      rw same at (packaged options b format is_format (archive, checksum))

  -- A `PackageArchive` that succeeds, on a binary that is not the archive itself, names the archive by
  -- a supported target, leaves in it the one entry with the binary (or what a failing Close leaves), and
  -- beside it the checksum of the very file.
  pub package_archive-Packaged :
      (options : ArchiveOptions) (b : Bytes)
      → disk options.binary_path ≡ some (file b)
      → equal options.binary_path artifact.archive_path ≡ false
      → package_archive t c writers disk options ≡ (disk', ok artifact)
      → Packaged t c writers options b disk' artifact
  unfolding package_archive
  package_archive-Packaged options b there apart h =
      package_with-ok options b (archive_format options.goos options.goarch) refl there apart
        (ground arith)
