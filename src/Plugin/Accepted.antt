-- ===== src/Plugin/Accepted.antt =====
-- The manifests that have no problem.
use cachy.Base.{
  ap, if◌then◌else◌, ltb, ℕ, ◌≡◌, ◌↔◌, refl, Bool, true, false, not, ◌&&◌, List, [], ◌∷◌, ◌++◌,
  arith, is_nil, All,
}
use cachy.Base.Int.{ℤ, ◌≤ℤ◌}
use cachy.Text.{Bytes, equal, equal_iff}
use cachy.Text.Space.{trim_space, trim_space_some, is_space}
use cachy.Plugin.{
  redact_unsupported, classify_unsupported, unsupported_api_version, capability_required,
  version_form, name_form, version_required, name_required, problem_if, Capabilities, Limits,
  Manifest, Problem, one, max_timeout_ms, max_memory_mb, most_input_bytes, most_output_bytes,
  supported_api_version, is_alnum, matches_name, after_digits, after_part, matches_version,
  name_problems, version_problems, is_supported, compress_problems, capability_problems,
  limit_problem, limit_problems, validate_manifest,
}

abbrev IsWithin : ℤ → ℤ → Type 0
IsWithin max value = (one ≤ℤ value) × (value ≤ℤ max)

-- What a manifest must be.
pub record IsAccepted (m : Manifest) : Type 0 where
  pub name : matches_name m.name ≡ true
  pub version : matches_version m.version ≡ true
  pub api_version : m.api_version ≡ supported_api_version
  pub some_capability : is_nil m.capabilities.compress ≡ false
  pub capabilities : All (λ c. is_supported c ≡ true) m.capabilities.compress
  pub no_other : (m.capabilities.classify ≡ []) × (m.capabilities.redact ≡ [])
  pub timeout : IsWithin max_timeout_ms m.limits.timeout_ms
  pub memory : IsWithin max_memory_mb m.limits.memory_mb
  pub input : IsWithin most_input_bytes m.limits.max_input_bytes
  pub output : IsWithin most_output_bytes m.limits.max_output_bytes
  pub output_fits : m.limits.max_output_bytes ≤ℤ m.limits.max_input_bytes

five_nil {ℓ} :
    {A : Type ℓ} (a b c d e : List A)
    → (a ++ b ++ c ++ d ++ e ≡ []) ↔ ((a ≡ []) × (b ≡ []) × (c ≡ []) × (d ≡ []) × (e ≡ []))
five_nil [] [] [] [] e = ((λ h. (refl, refl, refl, refl, h)), (λ h. h.4))
five_nil [] [] [] (x ∷ d) e = ((λ h. cc h), (λ h. cc (h.3)))
five_nil [] [] (x ∷ c) d e = ((λ h. cc h), (λ h. cc (h.2)))
five_nil [] (x ∷ b) c d e = ((λ h. cc h), (λ h. cc (h.1)))
five_nil (x ∷ a) b c d e = ((λ h. cc h), (λ h. cc (h.0)))

is_nil-nil {ℓ} :
    {A : Type ℓ} (p : Problem) (xs : List A) → (problem_if (not (is_nil xs)) p ≡ []) ↔ (xs ≡ [])
is_nil-nil p [] = ((λ h. refl), (λ h. refl))
is_nil-nil p (x ∷ xs) = ((λ h. cc h), (λ h. cc h))

alnum_visible : (c : ℕ) → is_alnum c ≡ true → (ltb c 0x80 ≡ true) × (is_space c ≡ false)
unfolding is_space
alnum_visible c h = ground arith

first_alnum : (c : ℕ) (s : Bytes) → matches_name (c ∷ s) ≡ true → is_alnum c ≡ true
unfolding matches_name
first_alnum c s h = ground arith

-- A name or a version that matches is not blank, so that the test for blanks decides nothing.
unblank :
    (blank matches : Bool) (a b : Problem)
    → (matches ≡ true → blank ≡ false)
    → ((if blank then a ∷ [] else problem_if (not matches) b) ≡ []) ↔ (matches ≡ true)
unblank true true a b h = ((λ e. refl), (λ e. cc (h refl)))
unblank true false a b h = ((λ e. cc e), (λ e. cc e))
unblank false true a b h = ((λ e. refl), (λ e. refl))
unblank false false a b h = ((λ e. cc e), (λ e. cc e))

matches_name_some : (name : Bytes) → matches_name name ≡ true → is_nil (trim_space name) ≡ false
matches_name_some [] h = unfold matches_name in cc h
matches_name_some (c ∷ s) h =
    let (ascii, visible) = alnum_visible c (first_alnum c s h) in trim_space_some c s ascii visible

digit_first : (c : ℕ) (s : Bytes) → matches_version (c ∷ s) ≡ true → is_alnum c ≡ true
unfolding matches_version after_part after_digits
digit_first c s h = ground arith

matches_version_some :
    (version : Bytes) → matches_version version ≡ true → is_nil (trim_space version) ≡ false
matches_version_some [] h = unfold matches_version after_part after_digits in cc h
matches_version_some (c ∷ s) h =
    let (ascii, visible) = alnum_visible c (digit_first c s h) in trim_space_some c s ascii visible

name_problems-nil : (name : Bytes) → (name_problems name ≡ []) ↔ (matches_name name ≡ true)
unfolding name_problems
name_problems-nil name =
    unblank (is_nil (trim_space name)) (matches_name name) name_required name_form
      (matches_name_some name)

version_problems-nil :
    (version : Bytes) → (version_problems version ≡ []) ↔ (matches_version version ≡ true)
unfolding version_problems
version_problems-nil version =
    unblank (is_nil (trim_space version)) (matches_version version) version_required version_form
      (matches_version_some version)

compress_problems-nil :
    (cs : List Bytes) → (compress_problems cs ≡ []) ↔ All (λ c. is_supported c ≡ true) cs
unfolding compress_problems
compress_problems-nil [] = ((λ h. tt), (λ h. refl))
compress_problems-nil (c ∷ cs) = ground (arith, compress_problems-nil cs)

limit_problems-nil :
    (l : Limits)
    → (limit_problems l ≡ []) ↔ (
        IsWithin max_timeout_ms l.timeout_ms
        × IsWithin max_memory_mb l.memory_mb
        × IsWithin most_input_bytes l.max_input_bytes
        × IsWithin most_output_bytes l.max_output_bytes
        × (l.max_output_bytes ≤ℤ l.max_input_bytes))
unfolding limit_problems limit_problem
limit_problems-nil l = (ground arith)

api_problems-nil :
    (v : Bytes) (p : Problem)
    → (problem_if (not (equal v supported_api_version)) p ≡ []) ↔ (v ≡ supported_api_version)
api_problems-nil v p = ground (arith, equal_iff v supported_api_version)

abbrev AcceptedCapabilities : Capabilities → Type 0
AcceptedCapabilities c =
    (is_nil c.compress ≡ false)
    × All (λ c. is_supported c ≡ true) c.compress
    × (c.classify ≡ [])
    × (c.redact ≡ [])

only_first :
    (a b c : Bool) (p : Problem)
    → b ≡ true
    → c ≡ true
    → (problem_if (a && b && c) p ≡ []) ↔ (a ≡ false)
only_first true b c p hb hc = rw (hb, hc) ((λ h. cc h), (λ h. cc h))
only_first false b c p hb hc = ((λ h. refl), (λ h. refl))

capability_problems-nil : (c : Capabilities) → (capability_problems c ≡ []) ↔ AcceptedCapabilities c
unfolding capability_problems
capability_problems-nil c =
    let some_of = is_nil c.compress && is_nil c.classify && is_nil c.redact in
    let all =
      five_nil [] (problem_if some_of capability_required) (compress_problems c.compress)
        (problem_if (not (is_nil c.classify)) classify_unsupported)
        (problem_if (not (is_nil c.redact)) redact_unsupported) in
    (
      (λ h.
          let (_, none, compress, classify, redact) = all.0 h in
          let no_classify = (is_nil-nil classify_unsupported c.classify).0 classify in
          let no_redact = (is_nil-nil redact_unsupported c.redact).0 redact in
          (
            (only_first (is_nil c.compress) (is_nil c.classify) (is_nil c.redact)
                  capability_required (ap is_nil no_classify) (ap is_nil no_redact)).0
                none,
            (compress_problems-nil c.compress).0 compress,
            no_classify,
            no_redact,
          )),
      (λ (some_compress, supported, no_classify, no_redact). all.1 (
        refl,
        (only_first (is_nil c.compress) (is_nil c.classify) (is_nil c.redact) capability_required
              (ap is_nil no_classify) (ap is_nil no_redact)).1
            some_compress,
        (compress_problems-nil c.compress).1 supported,
        (is_nil-nil classify_unsupported c.classify).1 no_classify,
        (is_nil-nil redact_unsupported c.redact).1 no_redact,
      )),
    )

-- A manifest has no problem exactly if it is accepted: its name and its version match their forms, its
-- API version is v1, it has capabilities to compress, all of them supported, and no others, its
-- limits are in their bounds, and its output limit is at most its input limit.
pub validate_manifest-IsAccepted : (m : Manifest) → (validate_manifest m ≡ []) ↔ IsAccepted m
unfolding validate_manifest
validate_manifest-IsAccepted m =
    let api =
      problem_if (not (equal m.api_version supported_api_version))
        (unsupported_api_version m.api_version) in
    let all =
      five_nil (name_problems m.name) (version_problems m.version) api
        (capability_problems m.capabilities) (limit_problems m.limits) in
    (
      (λ h.
          let (n, v, a, c, l) = all.0 h in
          let (some_capability, supported, no_classify, no_redact) =
            (capability_problems-nil m.capabilities).0 c in
          let (timeout, memory, input, output, fits) = (limit_problems-nil m.limits).0 l in
          record {
            name = (name_problems-nil m.name).0 n;
            version = (version_problems-nil m.version).0 v;
            api_version =
                (api_problems-nil m.api_version (unsupported_api_version m.api_version)).0 a;
            some_capability = some_capability;
            capabilities = supported;
            no_other = (no_classify, no_redact);
            timeout = timeout;
            memory = memory;
            input = input;
            output = output;
            output_fits = fits;
          }),
      (λ h. all.1 (
        (name_problems-nil m.name).1 h.name,
        (version_problems-nil m.version).1 h.version,
        (api_problems-nil m.api_version (unsupported_api_version m.api_version)).1 h.api_version,
        (capability_problems-nil m.capabilities).1
            (h.some_capability, h.capabilities, h.no_other.0, h.no_other.1),
        (limit_problems-nil m.limits).1 (h.timeout, h.memory, h.input, h.output, h.output_fits),
      )),
    )
