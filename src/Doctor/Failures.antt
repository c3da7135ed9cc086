-- ===== src/Doctor/Failures.antt =====
-- When the doctor reports a failure.
use cachy.Base.{false, ◌≡◌, ◌↔◌, refl, none, List, [], ◌∷◌, arith, is_nil, Result, ok, err}
use cachy.Text.{Bytes}
use cachy.Tokens.{Error}
use cachy.Platform.{Paths}
use cachy.Doctor.{
  Environment, Config, TargetUrl, check_version, check_paths, check_target_url, check_listen_port,
  check_reachability, check_credentials, first_set, credential_names, check_codex_integration,
  check_codex_read, check_codex_text, check_claude_integration, check_claude_read,
  check_claude_json, check_claude_settings, check_mcp_registration, parse_target_url, run_checks,
  has_failures, is_fail, codex_missing, codex_incomplete,
}

-- What the installation has to have.
pub record IsHealthy (e : Environment) (config : Config) : Type 0 where
  pub paths : Paths
  pub has_paths : config.paths ≡ ok paths
  pub named :
      (is_nil paths.config_dir ≡ false)
      × (is_nil paths.state_dir ≡ false)
      × (is_nil paths.cache_dir ≡ false)
  pub target : TargetUrl
  pub has_target : parse_target_url e config.target_url ≡ ok target
  pub can_listen :
      (is_nil config.listen_address ≡ false) × (e.check_listen config.listen_address ≡ none)
  pub can_reach : e.check_reach config.target_url ≡ none

-- The checks that never fail.
version-warns : (v : Bytes) → is_fail (check_version v).status ≡ false
unfolding check_version is_fail
version-warns v = ground arith

first_set-warns :
    (vars : List (Bytes × Bytes)) (keys : List Bytes) → is_fail (first_set vars keys).status ≡ false
unfolding first_set is_fail
first_set-warns vars [] = refl
first_set-warns vars (key ∷ keys) = ground (arith, first_set-warns vars keys)

credentials-warn : (vars : List (Bytes × Bytes)) → is_fail (check_credentials vars).status ≡ false
unfolding check_credentials
credentials-warn vars = first_set-warns vars credential_names

codex-warns :
    (e : Environment) (path : Bytes) → is_fail (check_codex_integration e path).status ≡ false
unfolding check_codex_integration is_fail check_codex_read check_codex_text codex_missing
    codex_incomplete
codex-warns e path = ground arith

claude-warns :
    (e : Environment) (path : Bytes) → is_fail (check_claude_integration e path).status ≡ false
unfolding check_claude_integration is_fail check_claude_read check_claude_json check_claude_settings
claude-warns e path = ground arith

mcp-warns :
    (e : Environment) (raw listen : Bytes)
    → is_fail (check_mcp_registration e raw listen).status ≡ false
unfolding check_mcp_registration is_fail
mcp-warns e raw listen = ground arith

paths_lem :
    (r : Result Error Paths)
    → is_fail (check_paths r).status ≡ false
    → (paths : Paths) × (r ≡ ok paths)
      × (is_nil paths.config_dir ≡ false)
      × (is_nil paths.state_dir ≡ false)
      × (is_nil paths.cache_dir ≡ false)
unfolding check_paths is_fail
paths_lem (err m) h = cc
paths_lem (ok paths) h = (paths, refl, ground arith, ground arith, ground arith)

module _ (e : Environment) where
  target_lem :
      (raw : Bytes) (r : Result Error TargetUrl)
      → parse_target_url e raw ≡ r
      → is_fail (check_target_url e raw).status ≡ false
      → (target : TargetUrl) × (r ≡ ok target)
  unfolding check_target_url is_fail
  target_lem raw (err m) parsed h = ground arith
  target_lem raw (ok target) parsed h = (target, refl)

  listen_lem :
      (address : Bytes)
      → is_fail (check_listen_port e address).status ≡ false
      → (is_nil address ≡ false) × (e.check_listen address ≡ none)
  unfolding check_listen_port is_fail
  listen_lem address h = ground arith

  reach_lem :
      (raw : Bytes) → is_fail (check_reachability e raw).status ≡ false → e.check_reach raw ≡ none
  unfolding check_reachability is_fail
  reach_lem raw h = ground arith

  healthy : (config : Config) → has_failures (run_checks e config) ≡ false → IsHealthy e config
  unfolding run_checks has_failures
  healthy config h =
      let paths_ok : is_fail (check_paths config.paths).status ≡ false = ground arith in
      let target_ok : is_fail (check_target_url e config.target_url).status ≡ false =
        ground arith in
      let listen_ok : is_fail (check_listen_port e config.listen_address).status ≡ false =
        ground arith in
      let reach_ok : is_fail (check_reachability e config.target_url).status ≡ false =
        ground arith in
      let (paths, has_paths, config_dir, state_dir, cache_dir) = paths_lem config.paths paths_ok in
      let (target, has_target) =
        target_lem config.target_url (parse_target_url e config.target_url) refl target_ok in
      record {
        paths = paths;
        has_paths = has_paths;
        named = (config_dir, state_dir, cache_dir);
        target = target;
        has_target = has_target;
        can_listen = listen_lem config.listen_address listen_ok;
        can_reach = reach_lem config.target_url reach_ok;
      }

  paths_pass :
      (r : Result Error Paths) (paths : Paths)
      → r ≡ ok paths
      → (is_nil paths.config_dir ≡ false)
        × (is_nil paths.state_dir ≡ false)
        × (is_nil paths.cache_dir ≡ false)
      → is_fail (check_paths r).status ≡ false
  unfolding check_paths is_fail
  paths_pass r paths e named = rw (e, named.0, named.1, named.2) refl

  target_pass :
      (raw : Bytes) (target : TargetUrl)
      → parse_target_url e raw ≡ ok target
      → is_fail (check_target_url e raw).status ≡ false
  unfolding check_target_url is_fail
  target_pass raw target h = ground (arith, h)

  listen_pass :
      (address : Bytes)
      → (is_nil address ≡ false) × (e.check_listen address ≡ none)
      → is_fail (check_listen_port e address).status ≡ false
  unfolding check_listen_port is_fail
  listen_pass address h = ground (arith, h)

  reach_pass :
      (raw : Bytes) (target : TargetUrl)
      → parse_target_url e raw ≡ ok target
      → e.check_reach raw ≡ none
      → is_fail (check_reachability e raw).status ≡ false
  unfolding check_reachability is_fail
  reach_pass raw target h reached = ground (arith, h, reached)

  no_failures : (config : Config) → IsHealthy e config → has_failures (run_checks e config) ≡ false
  unfolding run_checks has_failures
  no_failures config h =
      rw
        (
          version-warns config.version,
          paths_pass config.paths h.paths h.has_paths h.named,
          target_pass config.target_url h.target h.has_target,
          listen_pass config.listen_address h.can_listen,
          reach_pass config.target_url h.target h.has_target h.can_reach,
          credentials-warn config.vars,
          codex-warns e config.codex_config_path,
          claude-warns e config.claude_settings_path,
          mcp-warns e config.target_url config.listen_address,
        )
        refl

  -- The doctor reports no failure exactly if the paths are resolved, the target URL has a scheme and a
  -- host, the address can be listened on and the provider answers. All else are warnings.
  pub has_failures_iff :
      (config : Config) → (has_failures (run_checks e config) ≡ false) ↔ IsHealthy e config
  has_failures_iff config = (healthy config, no_failures config)
