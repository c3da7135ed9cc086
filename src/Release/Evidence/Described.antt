-- ===== src/Release/Evidence/Described.antt =====
-- What a successful `GenerateSBOM` leaves, and that it agrees with the checksum of an archive.
use cachy.Base.{through, ◌≡◌, refl, sym, ap, ◌∙◌, some, ◌++◌, length, Result, ok, err, arith}
use cachy.Text.{Bytes, codes}
use cachy.Tokens.{Error}
use cachy.Ccr.Marker.{hex_encode}
use cachy.Release.{Disk, Node, file, directory, Calls, Tools, read_file, open_file}
use cachy.Release.Outcomes.{unless-ok, read_file-ok, set_file_there, open_file-ok}
use cachy.Release.Evidence.{
  SbomOptions, SbomArtifact, Context, file_sha256, evidence_of, artifact_evidence, save,
  document_of, sbom_payload, generate_sbom,
}

-- The evidence of a file with a content.
abbrev pub evidence : Tools → Bytes → Bytes → SbomArtifact
evidence t path content = record {
  name = t.base path;
  path = t.to_slash path;
  size_bytes = length content;
  sha256 = hex_encode (t.sha256 content);
}

module _ (t : Tools) (c : Calls) (disk : Disk) (path content : Bytes)
    (there : disk path ≡ some (file content)) where
  file_sha256-ok :
      (sum : Bytes) → file_sha256 t c disk path ≡ ok sum → sum ≡ hex_encode (t.sha256 content)
  unfolding file_sha256
  file_sha256-ok sum h =
      let (content', read, summed) = through (read_file c.read_error disk path) _ h in
      let same : content' ≡ content =
        cc (read_file-ok c.read_error disk path content' read, there) in
      let hashed : sum ≡ hex_encode (t.sha256 content') = cc summed in rw same at hashed

  evidence_of-ok :
      (node : Node) (artifact : SbomArtifact)
      → node ≡ file content
      → evidence_of t c disk path node ≡ ok artifact
      → artifact ≡ evidence t path content
  unfolding evidence_of
  evidence_of-ok (directory size) artifact same h = cc same
  evidence_of-ok (file content') artifact same h =
      let (sum, summed, made) = through (file_sha256 t c disk path) _ h in
      let sum_is = file_sha256-ok sum summed in
      let content_is : content' ≡ content = cc same in
      let artifact_is : artifact ≡ record {
        name = t.base path;
        path = t.to_slash path;
        size_bytes = length content';
        sha256 = sum;
      } =
        cc made in
      rw (sum_is, content_is) at artifact_is

  artifact_evidence-ok :
      (artifact : SbomArtifact)
      → artifact_evidence t c disk path ≡ ok artifact
      → artifact ≡ evidence t path content
  unfolding artifact_evidence
  artifact_evidence-ok artifact h =
      let (node, opened, made) = through (open_file c.stat_error disk path) _ h in
      evidence_of-ok node artifact (cc (open_file-ok c.stat_error disk path node opened, there))
        made

module _ (t : Tools) (c : Calls) (x : Context) (disk disk' : Disk) (options : SbomOptions)
    (content path : Bytes) where
  save-ok :
      (output : Bytes) (p : Result Error Bytes)
      → save t c disk output p ≡ (disk', ok path)
      → (payload : Bytes) × (p ≡ ok payload)
        × (path ≡ output)
        × (disk' output ≡ some (file payload))
  unfolding save
  save-ok output (err e) h = cc h
  save-ok output (ok payload) h =
      let written =
        unless-ok c.write_error _ disk' _ path (unless-ok c.mkdir_error _ disk' _ path h) in
      (
        payload,
        refl,
        cc,
        ap (λ (r : Disk × Result Error Bytes). r.0 output) (sym written)
            ∙ set_file_there disk output payload,
      )

  -- A `GenerateSBOM` that succeeds on a file leaves the SBOM with the file's name, path, size and checksum.
  pub generate_sbom_lem :
      disk options.artifact ≡ some (file content)
      → generate_sbom t c x disk options ≡ (disk', ok path)
      → (payload : Bytes) × (x.marshal_indent
            (document_of t c x options (evidence t options.artifact content))
          ≡ ok payload)
        × (path ≡ options.output_path)
        × (disk' options.output_path ≡ some (file (payload ++ codes "\n")))
  unfolding generate_sbom sbom_payload
  generate_sbom_lem there h =
      let saved : save t c disk options.output_path (sbom_payload t c x disk options)
          ≡ (disk', ok path) =
        ground arith in
      let (text, planned, same_path, written) =
        save-ok options.output_path (sbom_payload t c x disk options) saved in
      let (artifact, found, h1) = through (artifact_evidence t c disk options.artifact) _ planned in
      let (payload, printed, h2) =
        through (x.marshal_indent (document_of t c x options artifact)) _ h1 in
      let same = artifact_evidence-ok t c disk options.artifact content there artifact found in
      let text_is : text ≡ payload ++ codes "\n" = cc h2 in
      (payload, rw same at printed, same_path, rw text_is at written)
