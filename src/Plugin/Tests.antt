-- ===== src/Plugin/Tests.antt =====
-- Runs of the validation of manifests.
use cachy.Text.Space.{trim_space}
use cachy.Base.{◌≡◌, ◌↔◌, refl, [], ◌∷◌}
use cachy.Base.Int.{pos}
use cachy.Text.{equal, codes}
use cachy.Plugin.{
  limit_problem, limit_problems, is_supported, compress_problems, capability_problems,
  matches_suffix, after_digits, after_part, matches_version, version_problems, last_byte,
  matches_name, name_problems, Manifest, validate_manifest,
}
use cachy.Plugin.Accepted.{IsAccepted, validate_manifest-IsAccepted}

abbrev pub manifest : Manifest
manifest = record {
  name = codes "log-trim";
  version = codes "1.20.3-rc.1";
  api_version = codes "v1";
  description = [];
  capabilities = record { compress = codes "log" ∷ codes "text" ∷ []; classify = []; redact = [] };
  limits = record {
    timeout_ms = pos 100;
    memory_mb = pos 16;
    max_input_bytes = pos 65536;
    max_output_bytes = pos 65536;
  };
}

validate_manifest_run : validate_manifest manifest ≡ []
unfolding validate_manifest name_problems trim_space matches_name last_byte version_problems
    matches_version after_part after_digits matches_suffix equal capability_problems
    compress_problems is_supported limit_problems limit_problem
validate_manifest_run = refl

validate_manifest-IsAccepted_example : (validate_manifest manifest ≡ []) ↔ IsAccepted manifest
validate_manifest-IsAccepted_example = validate_manifest-IsAccepted manifest
