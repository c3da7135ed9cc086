-- ===== src/Doctor.antt =====
-- internal/doctor/doctor.go: the checks of an installation and their report. The reading of a file, the
-- check of the port, the request to the provider, url.Parse, the printing of a URL and encoding/json
-- are parameters.
pub mod Failures
pub mod Configured
pub mod Redaction
mod Tests
use cachy.Base.{
  Bool, true, false, not, ◌&&◌, ◌||◌, Option, none, some, List, [], ◌∷◌, ◌++◌, leb, if◌then◌else◌,
  is_nil, any, all, ℕ, Result, ok, err,
}
use cachy.Text.Decimal.{print_int}
use cachy.Base.Int.{pos}
use cachy.Text.{Bytes, codes, equal, contains}
use cachy.Tokens.{Error}
use cachy.Platform.{Paths, lookup}
use cachy.Install.Json.{JsonFields, get, as_object, as_bool, string_or_empty}

pub data Status : Type 0 where
  status_ok status_warn status_fail : Status

pub record Check : Type 0 where
  pub name : Bytes
  pub status : Status
  pub message : Bytes

-- net/url.URL, with its user information and all else that is not looked at.
pub record TargetUrl : Type 0 where
  pub scheme : Bytes
  pub host : Bytes
  pub user : Option Bytes
  pub rest : Bytes

-- What os.ReadFile returns.
pub data FileRead : Type 0 where
  read : Bytes → FileRead
  missing unreadable : FileRead

-- json.Unmarshal gives an error, which is `none`, or a map; the nil map is the empty one.
pub record Environment : Type 0 where
  pub read_file : Bytes → FileRead
  pub check_listen : Bytes → Option Error
  pub check_reach : Bytes → Option Error
  pub parse_url : Bytes → Result Error TargetUrl
  pub print_url : TargetUrl → Bytes
  pub unmarshal : Bytes → Option JsonFields

pub record Config : Type 0 where
  pub version : Bytes
  pub target_url : Bytes
  pub listen_address : Bytes
  pub vars : List (Bytes × Bytes)
  pub paths : Result Error Paths
  pub codex_config_path : Bytes
  pub claude_settings_path : Bytes

abbrev warn : Bytes → Bytes → Check
warn name message = record { name = name; status = status_warn; message = message }

abbrev fail : Bytes → Bytes → Check
fail name message = record { name = name; status = status_fail; message = message }

abbrev pass : Bytes → Bytes → Check
pass name message = record { name = name; status = status_ok; message = message }

pub check_version : Bytes → Check
check_version version =
    if is_nil version
    then warn (codes "version") (codes "version is not set")
    else pass (codes "version") version

pub check_paths : Result Error Paths → Check
check_paths (err e) = fail (codes "config-path") e
check_paths (ok paths) =
    if is_nil paths.config_dir || is_nil paths.state_dir || is_nil paths.cache_dir
    then fail (codes "config-path") (codes "config, state, and cache paths are required")
    else pass (codes "config-path") paths.config_dir

pub redact_url : TargetUrl → TargetUrl
redact_url target = record target {
  user = elim target.user [ none ↦ none | some user ↦ some (codes "redacted:redacted") ];
}

abbrev scheme_and_host : Error
scheme_and_host = codes "target URL must include scheme and host"

-- From what url.Parse returned.
pub complete_url : Result Error TargetUrl → Result Error TargetUrl
complete_url (err e) = err scheme_and_host
complete_url (ok target) =
    if is_nil target.scheme || is_nil target.host then err scheme_and_host else ok target

abbrev pub codex_name : Bytes
codex_name = codes "codex-integration"

abbrev pub claude_name : Bytes
claude_name = codes "claude-integration"

pub codex_incomplete : Bytes → Check
codex_incomplete path = warn codex_name (
    codes
      "Codex managed block is incomplete; run cachy integrations codex repair --dry-run --config "
    ++ path)

pub codex_missing : Bytes → Check
codex_missing path = warn codex_name (
    codes
      "Codex integration is not configured; run cachy integrations codex install --dry-run --config "
    ++ path)

abbrev pub required_lines : List Bytes
required_lines =
    codes "[model_providers.cachy]"
    ∷ codes "base_url ="
    ∷ codes "env_key = \"OPENAI_API_KEY\""
    ∷ codes "wire_api = \"responses\""
    ∷ []

-- From the text of the configuration.
pub check_codex_text : Bytes → Bytes → Check
check_codex_text path text =
    let has_begin = contains text (codes "# BEGIN CACHY CODEX INTEGRATION") in
    let has_end = contains text (codes "# END CACHY CODEX INTEGRATION") in
    if (has_begin && not has_end) || (not has_begin && has_end)
    then codex_incomplete path
    else if not has_begin
    then codex_missing path
    else if not (all (contains text) required_lines)
    then codex_incomplete path
    else pass codex_name (
        codes "configured in "
        ++ (path
            ++ (codes "; verify changes with cachy integrations codex repair --dry-run --config "
                ++ path)))

-- os.ReadFile, by what there is.
pub found_file : Option Bytes → FileRead
found_file none = missing
found_file (some text) = read text

check_codex_read : Bytes → FileRead → Check
check_codex_read path missing = codex_missing path
check_codex_read path unreadable = warn codex_name (
    codes "Codex config could not be read; run cachy integrations codex repair --dry-run --config "
    ++ path)
check_codex_read path (read text) = check_codex_text path text

-- A type assertion that fails leaves the nil map.
map_or_nil : Option JsonFields → JsonFields
map_or_nil none = JsonFields.empty
map_or_nil (some m) = m

pub child_of : Bytes → JsonFields → JsonFields
child_of key settings = map_or_nil (as_object (get key settings))

-- From the settings.
pub check_claude_settings : Bytes → JsonFields → Check
check_claude_settings path settings =
    let env = child_of (codes "env") settings in
    let metadata = child_of (codes "cachy") settings in
    let current_url = string_or_empty (codes "ANTHROPIC_BASE_URL") env in
    let managed_url = string_or_empty (codes "anthropic_base_url") metadata in
    if not (as_bool (get (codes "managed") metadata))
      || is_nil current_url
      || is_nil managed_url
      || not (equal current_url managed_url)
    then warn claude_name (
        codes
          "Claude Cachy settings are incomplete; run cachy integrations claude repair --dry-run --settings "
        ++ path)
    else pass claude_name (
        codes "configured in "
        ++ (path
            ++ (codes "; verify changes with cachy integrations claude repair --dry-run --settings "
                ++ path)))

check_claude_json : Bytes → Option JsonFields → Check
check_claude_json path none = warn claude_name (
    codes
      "Claude settings are not valid JSON; run cachy integrations claude repair --dry-run --settings "
    ++ path)
check_claude_json path (some settings) = check_claude_settings path settings

module _ (e : Environment) where
  pub parse_target_url : Bytes → Result Error TargetUrl
  parse_target_url raw =
      if is_nil raw then err (codes "target URL is required") else complete_url (e.parse_url raw)

  pub check_target_url : Bytes → Check
  check_target_url raw = elim (parse_target_url raw) [
    | err message ↦ fail (codes "target-url") message
    | ok target ↦ pass (codes "target-url") (e.print_url (redact_url target))
  ]

  pub check_listen_port : Bytes → Check
  check_listen_port address =
      if is_nil address
      then fail (codes "listen-port") (codes "listen address is required")
      else elim (e.check_listen address) [
        | some message ↦ fail (codes "listen-port") message
        | none ↦ pass (codes "listen-port") address
      ]

  pub check_reachability : Bytes → Check
  check_reachability raw = elim (parse_target_url raw) [
    | err message ↦ fail (codes "provider-reachability") (codes "target URL is invalid")
    | ok target ↦ elim (e.check_reach raw) [
      | some message ↦ fail (codes "provider-reachability") message
      | none ↦ pass (codes "provider-reachability") (codes "target responded")
    ]
  ]

  pub check_codex_integration : Bytes → Check
  check_codex_integration path =
      if is_nil path
      then warn codex_name (
          codes
            "Codex config path unavailable; set CODEX_HOME or HOME and run cachy integrations codex install --dry-run")
      else check_codex_read path (e.read_file path)

  check_claude_read : Bytes → FileRead → Check
  check_claude_read path missing = warn claude_name (
      codes
        "Claude integration is not configured; run cachy integrations claude install --dry-run --settings "
      ++ path)
  check_claude_read path unreadable = warn claude_name (
      codes
        "Claude settings could not be read; run cachy integrations claude repair --dry-run --settings "
      ++ path)
  check_claude_read path (read text) = check_claude_json path (e.unmarshal text)

  pub check_claude_integration : Bytes → Check
  check_claude_integration path =
      if is_nil path
      then warn claude_name (
          codes
            "Claude settings path unavailable; set CLAUDE_HOME or HOME and run cachy integrations claude install --dry-run")
      else check_claude_read path (e.read_file path)

  pub check_mcp_registration : Bytes → Bytes → Check
  check_mcp_registration raw listen = elim (parse_target_url raw) [
    | err message ↦
        warn (codes "mcp-registration")
          (codes "MCP registration cannot be generated until target URL is valid")
    | ok target ↦
        if is_nil listen
        then warn (codes "mcp-registration")
            (codes "MCP registration cannot be generated until listen address is set")
        else pass (codes "mcp-registration") (
            codes "generate dry-run registration with cachy integrations mcp --target "
            ++ (e.print_url (redact_url target) ++ (codes " --listen " ++ listen)))
  ]

-- The loop over the names of the credentials.
first_set : List (Bytes × Bytes) → List Bytes → Check
first_set vars [] = warn (codes "credentials") (codes "no provider credential found in environment")
first_set vars (key ∷ keys) =
    let later = first_set vars keys in
    if not (is_nil (lookup key vars))
    then pass (codes "credentials") (key ++ codes " is set")
    else later

abbrev pub credential_names : List Bytes
credential_names =
    codes "CACHY_PROVIDER_API_KEY" ∷ codes "OPENAI_API_KEY" ∷ codes "ANTHROPIC_API_KEY" ∷ []

pub check_credentials : List (Bytes × Bytes) → Check
check_credentials vars = first_set vars credential_names

pub run_checks : Environment → Config → List Check
run_checks e config =
    check_version config.version
    ∷ check_paths config.paths
    ∷ check_target_url e config.target_url
    ∷ check_listen_port e config.listen_address
    ∷ check_reachability e config.target_url
    ∷ check_credentials config.vars
    ∷ check_codex_integration e config.codex_config_path
    ∷ check_claude_integration e config.claude_settings_path
    ∷ check_mcp_registration e config.target_url config.listen_address
    ∷ []

pub print_status : Status → Bytes
print_status status_ok = codes "OK"
print_status status_warn = codes "WARN"
print_status status_fail = codes "FAIL"

-- Report.String
pub print_report : List Check → Bytes
print_report [] = []
print_report (c ∷ cs) =
    (print_status c.status ++ (codes " " ++ (c.name ++ (codes ": " ++ (c.message ++ codes "\n")))))
    ++ print_report cs

is_fail : Status → Bool
is_fail status_fail = true
is_fail s = false

pub has_failures : List Check → Bool
has_failures [] = false
has_failures (c ∷ cs) = is_fail c.status || has_failures cs

-- An error of the request: a *url.Error with its URL, or another one.
pub data RequestError : Type 0 where
  url_error : Bytes → Bytes → Error → RequestError
  other_error : Error → RequestError

clean_url : Environment → Bytes → Result Error TargetUrl → Bytes
clean_url e raw (err message) = raw
clean_url e raw (ok target) = e.print_url (redact_url target)

pub sanitize_url_error : Environment → RequestError → RequestError
sanitize_url_error e (other_error message) = other_error message
sanitize_url_error e (url_error op url cause) =
    if is_nil url
    then url_error op url cause
    else url_error op (clean_url e url (e.parse_url url)) cause

-- http.NewRequest fails, the request fails, or the provider answers with a status.
pub data Answer : Type 0 where
  bad_request : RequestError → Answer
  no_answer : RequestError → Answer
  status : ℕ → Answer

-- DefaultCheckReachability; how an error is printed is a parameter.
pub default_check_reachability : Environment → (RequestError → Bytes) → Answer → Option Error
default_check_reachability e print (bad_request error) = some (print (sanitize_url_error e error))
default_check_reachability e print (no_answer error) = some (print (sanitize_url_error e error))
default_check_reachability e print (status code) =
    if leb 500 code then some (codes "target returned status " ++ print_int (pos code)) else none

-- The doctor with its own check of the provider, which a request answers.
pub with_default_reachability :
    Environment → (RequestError → Bytes) → (Bytes → Answer) → Environment
with_default_reachability e print request = record e {
  check_reach = λ raw. default_check_reachability e print (request raw);
}
