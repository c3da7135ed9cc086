-- ===== src/Release/Agreement.antt =====
-- The two kinds of evidence of a release: the checksum beside an archive, and its SBOM.
use cachy.Base.{◌≡◌, false, some, ◌++◌, ok}
use cachy.Text.{Bytes, codes, equal}
use cachy.Release.{Disk, file, Calls, Tools}
use cachy.Release.Archive.{
  ArchiveOptions, ArchiveArtifact, Writers, closed, checksum_line, package_archive,
}
use cachy.Release.Archive.Written.{encoded}
use cachy.Release.Archive.Packaged.{package_archive-Packaged}
use cachy.Release.Evidence.{SbomOptions, SbomDocument, Context, document_of, generate_sbom}
use cachy.Release.Evidence.Described.{evidence, generate_sbom_lem}

-- After a `PackageArchive` that succeeds on a binary which is not the archive itself, a `GenerateSBOM`
-- of the archive that succeeds writes a document whose name and checksum of the artifact are those in
-- the checksum file beside the archive.
pub generate_sbom-package_archive :
    (t : Tools) (c c' : Calls) (writers : Writers) (x : Context) (disk disk' disk'' : Disk)
    (options : ArchiveOptions) (artifact : ArchiveArtifact) (b : Bytes) (sbom : SbomOptions)
    (path : Bytes)
    → disk options.binary_path ≡ some (file b)
    → equal options.binary_path artifact.archive_path ≡ false
    → package_archive t c writers disk options ≡ (disk', ok artifact)
    → sbom.artifact ≡ artifact.archive_path
    → generate_sbom t c' x disk' sbom ≡ (disk'', ok path)
    → (document : SbomDocument) × (payload : Bytes) × (x.marshal_indent document ≡ ok payload)
      × (disk'' sbom.output_path ≡ some (file (payload ++ codes "\n")))
      × (disk' artifact.checksum_path
          ≡ some (
              file (
                document.artifact.sha256
                ++ (codes "  " ++ (document.artifact.name ++ codes "\n")))))
unfolding checksum_line document_of
generate_sbom-package_archive t c c' writers x disk disk' disk'' options artifact b sbom path there
      apart packaged same described =
    let p =
      package_archive-Packaged t c writers disk disk' artifact options b there apart packaged in
    let content = closed c (encoded writers p.format b) in
    let stored : disk' sbom.artifact ≡ some (file content) = rw same p.archive in
    let (payload, printed, same_path, written) =
      generate_sbom_lem t c' x disk' disk'' sbom content path stored described in
    (
      document_of t c' x sbom (evidence t sbom.artifact content),
      payload,
      printed,
      written,
      rw same p.checksum,
    )
