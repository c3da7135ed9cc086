-- ===== src/Release/Tests.antt =====
-- A release of one binary.
use cachy.Base.{◌≡◌, refl, some, ◌++◌, ok}
use cachy.Text.{Bytes, codes}
use cachy.Release.{Disk, file}
use cachy.Release.Archive.Sample.{
  tools, sound, writers, disk, options, artifact, packaged_disk, packaging, binary_there,
  binary_apart, stored,
}
use cachy.Release.Evidence.{SbomDocument}
use cachy.Release.Evidence.Sample.{context, sbom, described_disk, describing}
use cachy.Release.Agreement.{generate_sbom-package_archive}

abbrev described : Disk
described = described_disk packaged_disk (codes "cachyelf") stored

generate_sbom-package_archive_example :
    (document : SbomDocument) × (payload : Bytes) × (context.marshal_indent document ≡ ok payload)
    × (described sbom.output_path ≡ some (file (payload ++ codes "\n")))
    × (packaged_disk artifact.checksum_path
        ≡ some (
            file
              (document.artifact.sha256 ++ (codes "  " ++ (document.artifact.name ++ codes "\n")))))
generate_sbom-package_archive_example =
    generate_sbom-package_archive tools sound sound writers context disk packaged_disk described
      options artifact (codes "elf") sbom (codes "s") binary_there binary_apart packaging refl
      (describing packaged_disk _ stored)
