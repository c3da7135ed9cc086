-- ===== src/Release/Evidence.antt =====
-- internal/release/evidence.go: the SBOM of an artifact, and the notes of a release.
pub mod Described
pub mod Sample
use cachy.Base.{
  ℕ, Bool, ◌||◌, Option, none, some, List, [], ◌∷◌, ◌++◌, if◌then◌else◌, is_nil, length, map,
  Result, ok, err, ◌>>=◌,
}
use cachy.Base.Int.{ℤ}
use cachy.Text.{Bytes, codes, equal}
use cachy.Tokens.{Error}
use cachy.Ccr.Marker.{hex_encode}
use cachy.Release.{
  Disk, Node, directory, file, Calls, Tools, set_file, unless, read_file, open_file, write_file,
}

-- A time is none if it is the zero time.
pub record SbomOptions : Type 0 where
  pub kind : Bytes
  pub artifact : Bytes
  pub output_path : Bytes
  pub version : Bytes
  pub generated_at : Option ℤ

pub record SbomArtifact : Type 0 where
  pub name : Bytes
  pub path : Bytes
  pub size_bytes : ℕ
  pub sha256 : Bytes

pub record SbomComponent : Type 0 where
  pub kind : Bytes
  pub name : Bytes
  pub version : Bytes

pub record SbomDocument : Type 0 where
  pub name : Bytes
  pub version : Bytes
  pub kind : Bytes
  pub generated_at : Bytes
  pub artifact : SbomArtifact
  pub components : List SbomComponent

pub record ReleaseNotesOptions : Type 0 where
  pub version : Bytes
  pub output : Bytes

-- debug.BuildInfo; a module that is replaced has the other one's version too.
pub record Dependency : Type 0 where
  pub path : Bytes
  pub version : Bytes
  pub replace : Option Bytes

pub record BuildInfo : Type 0 where
  pub main_path : Bytes
  pub main_version : Bytes
  pub deps : List Dependency

-- The clock, time.Format, encoding/json and debug.ReadBuildInfo.
pub record Context : Type 0 where
  pub now : ℤ
  pub format : ℤ → Bytes
  pub marshal_indent : SbomDocument → Result Error Bytes
  pub build_info : Option BuildInfo

abbrev go_module : Bytes
go_module = codes "go-module"

dep_version : Dependency → Bytes
dep_version d = elim d.replace [ none ↦ d.version | some other ↦ other ]

component_of : Dependency → SbomComponent
component_of d = record { kind = go_module; name = d.path; version = dep_version d }

main_component : BuildInfo → SbomComponent
main_component info =
    if is_nil info.main_path
    then record { kind = go_module; name = codes "cachy"; version = [] }
    else record { kind = go_module; name = info.main_path; version = info.main_version }

pub build_components : Option BuildInfo → List SbomComponent
build_components none = record { kind = go_module; name = codes "cachy"; version = [] } ∷ []
build_components (some info) = main_component info ∷ map component_of info.deps

module _ (t : Tools) (c : Calls) (disk : Disk) (path : Bytes) where
  file_sha256 : Result Error Bytes
  file_sha256 = do content ← read_file c.read_error disk path; ok (hex_encode (t.sha256 content))

  evidence_of : Node → Result Error SbomArtifact
  evidence_of (directory size) =
      ok (record { name = t.base path; path = t.to_slash path; size_bytes = size; sha256 = [] })
  evidence_of (file content) = do
    sum ← file_sha256
    ok (record {
      name = t.base path;
      path = t.to_slash path;
      size_bytes = length content;
      sha256 = sum;
    })

  pub artifact_evidence : Result Error SbomArtifact
  artifact_evidence = do node ← open_file c.stat_error disk path; evidence_of node

module _ (t : Tools) (c : Calls) where
  -- os.MkdirAll and os.WriteFile of a payload; the result is the path.
  pub save : Disk → Bytes → Result Error Bytes → Disk × Result Error Bytes
  save disk path (err e) = (disk, err e)
  save disk path (ok payload) =
      unless c.mkdir_error disk
        (unless c.write_error (set_file disk path c.left) (set_file disk path payload, ok path))

  unfoldable pub document_of : Context → SbomOptions → SbomArtifact → SbomDocument
  document_of x options artifact = record {
    name = codes "cachy";
    version = options.version;
    kind = options.kind;
    generated_at = x.format (elim options.generated_at [ none ↦ x.now | some time ↦ time ]);
    artifact = artifact;
    components = build_components x.build_info;
  }

  pub sbom_payload : Context → Disk → SbomOptions → Result Error Bytes
  sbom_payload x disk options = do
    artifact ← artifact_evidence t c disk options.artifact
    payload ← x.marshal_indent (document_of x options artifact)
    ok (payload ++ codes "\n")

  pub generate_sbom : Context → Disk → SbomOptions → Disk × Result Error Bytes
  generate_sbom x disk options =
      if is_nil options.kind
      then (disk, err (codes "sbom kind is required"))
      else if is_nil options.artifact
      then (disk, err (codes "artifact path is required"))
      else if is_nil options.output_path
      then (disk, err (codes "output path is required"))
      else save disk options.output_path (sbom_payload x disk options)

  pub release_notes : Bytes → Bytes
  release_notes version =
      codes "# Cachy "
      ++ (version
          ++ codes
              " Release Notes\n\n## Artifacts\n\n- Windows archives are published as ZIP files with matching checksums.\n- macOS and Linux archives are published as tar.gz files with matching checksums.\n- Docker packaging produces a non-published multi-arch OCI artifact for linux/amd64 and linux/arm64.\n- SBOM JSON files are generated for release evidence where practical.\n\n## Verification\n\n- Verify each archive with its .sha256 sidecar before installation.\n- Inspect SBOM files alongside release artifacts.\n- Run `cachy doctor` after placing the binary on PATH.\n- Run `cachy proxy --listen 127.0.0.1:8787 --target <provider-url>` for a local smoke check.\n\n## Known Limitations\n\n- Publishing public packages requires explicit owner approval.\n- Registry push, signing, notarization, Winget, Scoop, Homebrew, deb, and rpm packaging are later work.\n- Docker image publication is intentionally separated from non-published OCI artifact generation.\n")

  pub generate_release_notes : Disk → ReleaseNotesOptions → Disk × Result Error Bytes
  generate_release_notes disk options =
      if is_nil options.version
      then (disk, err (codes "version is required"))
      else if is_nil options.output
      then (disk, err (codes "output path is required"))
      else save disk options.output (ok (release_notes options.version))
