-- ===== src/Plugin.antt =====
-- internal/plugin/manifest.go: which plugin manifests are accepted.
pub mod Accepted
pub mod Host
pub mod Compressor
pub mod Lifecycle
mod Tests
use cachy.Base.{
  ℕ, suc, ◌^◌, Bool, true, false, not, ◌&&◌, ◌||◌, ltb, leb, ◌==◌, Option, none, some, List, [],
  ◌∷◌, ◌++◌, if◌then◌else◌, is_nil, length, all, any,
}
use cachy.Base.Int.{ℤ, pos, ltb_ℤ}
use cachy.Text.{Bytes, codes, equal}
use cachy.Text.Space.{trim_space}

pub record Capabilities : Type 0 where
  pub compress : List Bytes
  pub classify : List Bytes
  pub redact : List Bytes

pub record Limits : Type 0 where
  pub timeout_ms : ℤ
  pub memory_mb : ℤ
  pub max_input_bytes : ℤ
  pub max_output_bytes : ℤ

pub record Manifest : Type 0 where
  pub name : Bytes
  pub version : Bytes
  pub api_version : Bytes
  pub description : Bytes
  pub capabilities : Capabilities
  pub limits : Limits

-- The problems that the error lists; their texts are not spelled out.
pub data Problem : Type 0 where
  name_required name_form version_required version_form : Problem
  unsupported_api_version : Bytes → Problem
  capability_required : Problem
  unsupported_compress : Bytes → Problem
  classify_unsupported redact_unsupported : Problem
  out_of_bounds : Bytes → ℤ → ℤ → Problem
  output_over_input : Problem

abbrev pub supported_api_version : Bytes
supported_api_version = codes "v1"

abbrev supported_compress_capabilities : List Bytes
supported_compress_capabilities =
    codes "code" ∷ codes "diff" ∷ codes "json" ∷ codes "log" ∷ codes "text" ∷ []

abbrev pub one : ℤ
one = pos 1

abbrev pub max_timeout_ms : ℤ
max_timeout_ms = pos 1000

abbrev pub max_memory_mb : ℤ
max_memory_mb = pos 128

abbrev pub most_input_bytes : ℤ
most_input_bytes = pos 1048576

abbrev pub most_output_bytes : ℤ
most_output_bytes = pos 524288

abbrev is_digit : ℕ → Bool
is_digit c = leb b'0' c && leb c b'9'

-- [a-z0-9]
abbrev pub is_alnum : ℕ → Bool
is_alnum c = (leb b'a' c && leb c b'z') || is_digit c

-- [a-z0-9._-]
abbrev is_name_byte : ℕ → Bool
is_name_byte c = is_alnum c || c == b'.' || c == b'_' || c == b'-'

-- [0-9A-Za-z.-]
abbrev is_suffix_byte : ℕ → Bool
is_suffix_byte c = is_alnum c || (leb b'A' c && leb c b'Z') || c == b'.' || c == b'-'

pub last_byte : ℕ → Bytes → ℕ
last_byte c [] = c
last_byte c (d ∷ s) = last_byte d s

-- manifestNameRE.MatchString: 3 to 64 bytes of the class, of which the first and the last are
-- letters or digits.
pub matches_name : Bytes → Bool
matches_name [] = false
matches_name (c ∷ s) =
    leb 2 (length s)
    && leb (length s) 63
    && is_alnum c
    && all is_name_byte s
    && is_alnum (last_byte c s)

-- The bytes after one digit and all that follow it.
pub after_digits : Bytes → Option Bytes
after_digits [] = none
after_digits (c ∷ s) =
    let rest = after_digits s in
    if not (is_digit c) then none else some (elim rest [ none ↦ s | some later ↦ later ])

-- The bytes after digits and a dot.
pub after_part : Option Bytes → Option Bytes
after_part none = none
after_part (some []) = none
after_part (some (c ∷ s)) = if c == b'.' then some s else none

-- (?:[-+][0-9A-Za-z.-]+)?$
pub matches_suffix : Bytes → Bool
matches_suffix [] = true
matches_suffix (c ∷ s) = (c == b'-' || c == b'+') && not (is_nil s) && all is_suffix_byte s

abbrev on_some : (Bytes → Option Bytes) → Option Bytes → Option Bytes
on_some f none = none
on_some f (some s) = f s

abbrev test_some : (Bytes → Bool) → Option Bytes → Bool
test_some f none = false
test_some f (some s) = f s

-- versionRE.MatchString
pub matches_version : Bytes → Bool
matches_version s =
    let minor = after_part (after_digits s) in
    let patch = after_part (on_some after_digits minor) in
    test_some matches_suffix (on_some after_digits patch)

-- `problems` with one more where the test holds
abbrev pub problem_if : Bool → Problem → List Problem
problem_if b p = if b then p ∷ [] else []

pub name_problems : Bytes → List Problem
name_problems name =
    if is_nil (trim_space name)
    then name_required ∷ []
    else problem_if (not (matches_name name)) name_form

pub version_problems : Bytes → List Problem
version_problems version =
    if is_nil (trim_space version)
    then version_required ∷ []
    else problem_if (not (matches_version version)) version_form

pub is_supported : Bytes → Bool
is_supported capability = any (λ c. equal c capability) supported_compress_capabilities

pub compress_problems : List Bytes → List Problem
compress_problems [] = []
compress_problems (c ∷ cs) =
    problem_if (not (is_supported c)) (unsupported_compress c) ++ compress_problems cs

pub capability_problems : Capabilities → List Problem
capability_problems c =
    problem_if (is_nil c.compress && is_nil c.classify && is_nil c.redact) capability_required
    ++ compress_problems c.compress
    ++ problem_if (not (is_nil c.classify)) classify_unsupported
    ++ problem_if (not (is_nil c.redact)) redact_unsupported

-- What `appendLimitProblem` appends.
pub limit_problem : Bytes → ℤ → ℤ → ℤ → List Problem
limit_problem name value min max =
    problem_if (ltb_ℤ value min || ltb_ℤ max value) (out_of_bounds name min max)

pub limit_problems : Limits → List Problem
limit_problems l =
    limit_problem (codes "timeout_ms") l.timeout_ms one max_timeout_ms
    ++ limit_problem (codes "memory_mb") l.memory_mb one max_memory_mb
    ++ limit_problem (codes "max_input_bytes") l.max_input_bytes one most_input_bytes
    ++ limit_problem (codes "max_output_bytes") l.max_output_bytes one most_output_bytes
    ++ problem_if
        (ltb_ℤ (pos 0) l.max_output_bytes
          && ltb_ℤ (pos 0) l.max_input_bytes
          && ltb_ℤ l.max_input_bytes l.max_output_bytes)
        output_over_input

-- The problems of the error; none is no error.
pub validate_manifest : Manifest → List Problem
validate_manifest m =
    name_problems m.name
    ++ version_problems m.version
    ++ problem_if (not (equal m.api_version supported_api_version))
        (unsupported_api_version m.api_version)
    ++ capability_problems m.capabilities
    ++ limit_problems m.limits
