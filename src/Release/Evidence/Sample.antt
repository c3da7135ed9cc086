-- ===== src/Release/Evidence/Sample.antt =====
-- A run of `GenerateSBOM` on an archive.
use cachy.Base.{◌≡◌, refl, none, some, [], ◌++◌, ok}
use cachy.Base.Int.{pos}
use cachy.Text.{Bytes, codes}
use cachy.Ccr.Marker.{hex_encode}
use cachy.Release.{Disk, file, set_file, read_file, read_node, open_file, open_node}
use cachy.Release.Archive.Sample.{tools, sound}
use cachy.Release.Evidence.{
  SbomOptions, Context, generate_sbom, sbom_payload, save, artifact_evidence, evidence_of,
  file_sha256, document_of,
}

abbrev pub context : Context
context = record {
  now = pos 0;
  format = λ time. [];
  marshal_indent = λ document. ok document.artifact.sha256;
  build_info = none;
}

abbrev pub sbom : SbomOptions
sbom = record {
  kind = codes "archive";
  artifact = codes "d/cachy_linux_amd64.tar.gz";
  output_path = codes "s";
  version = codes "1";
  generated_at = none;
}

module _ (disk : Disk) (content : Bytes) (there : disk sbom.artifact ≡ some (file content)) where
  pub described_disk : Disk
  described_disk = set_file disk sbom.output_path (hex_encode (tools.sha256 content) ++ codes "\n")

  pub describing : generate_sbom tools sound context disk sbom ≡ (described_disk, ok (codes "s"))
  unfolding described_disk generate_sbom sbom_payload save artifact_evidence evidence_of file_sha256
      document_of read_file read_node open_file open_node
  describing = rw there (rw there refl)
