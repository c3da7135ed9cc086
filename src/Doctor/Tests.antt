-- ===== src/Doctor/Tests.antt =====
-- Runs of the doctor.
use cachy.Base.{◌≡◌, ◌↔◌, refl, false, not, ◌&&◌, none, some, [], ◌∷◌, ◌++◌, ok, if◌then◌else◌}
use cachy.Text.Decimal.{print_int}
use cachy.Text.{Bytes, codes, equal}
use cachy.Install.Json.{empty, string_or_empty}
use cachy.Install.Codex.Sample.{installed}
use cachy.Install.Claude.{env_key, cachy_key, url_key, child_map, is_foreign, plan_install}
use cachy.Doctor.{
  other_error, no_answer, Answer, RequestError, with_default_reachability, Environment, Config,
  status_ok, status_warn, TargetUrl, read, missing, url_error, check_version, check_target_url,
  check_claude_settings, parse_target_url, complete_url, redact_url, run_checks, has_failures,
  print_report, print_status, sanitize_url_error, clean_url, default_check_reachability, status,
}
use cachy.Doctor.Failures.{IsHealthy, has_failures_iff}
use cachy.Doctor.Configured.{check_claude_settings-plan_install}
use cachy.Doctor.Redaction.{alike_url, SameButUser, print_report-run_checks}

-- A parser that takes all in front of the last byte as the user.
abbrev target_of : Bytes → TargetUrl
target_of raw = record { scheme = codes "http"; host = codes "h"; user = some raw; rest = [] }

abbrev environment : Environment
environment = record {
  read_file = λ path. missing;
  check_listen = λ address. none;
  check_reach = λ raw. none;
  parse_url = λ raw. ok (target_of raw);
  print_url = λ target. elim target.user [ none ↦ target.host | some user ↦ user ++ target.host ];
  unmarshal = λ text. none;
}

abbrev config : Config
config = record {
  version = codes "dev";
  target_url = codes "ada";
  listen_address = codes ":1";
  vars = (codes "OPENAI_API_KEY", codes "k") ∷ [];
  paths = ok (record { config_dir = codes "/c"; state_dir = codes "/s"; cache_dir = codes "/x" });
  codex_config_path = codes "/f";
  claude_settings_path = [];
}

has_failures_iff_example :
    (has_failures (run_checks environment config) ≡ false) ↔ IsHealthy environment config
has_failures_iff_example = has_failures_iff environment config

same_user : SameButUser environment (codes "ada") (codes "bob")
same_user = record {
  target = target_of [];
  user = codes "ada";
  user' = codes "bob";
  given = (refl, refl);
  parsed = refl;
  parsed' = refl;
}

-- No provider is there.
abbrev refused : Bytes → Answer
refused raw = no_answer (url_error (codes "Head") raw (codes "connection refused"))

abbrev print : RequestError → Bytes
print (url_error op raw cause) = op ++ (raw ++ cause)
print (other_error message) = message

print_report-run_checks_example :
    print_report (run_checks (with_default_reachability environment print refused) config)
    ≡ print_report (
        run_checks
          (with_default_reachability environment print refused)
          (record config { target_url = codes "bob" }))
print_report-run_checks_example =
    print_report-run_checks environment print refused (codes "ada") (codes "bob") same_user
      (alike_url (codes "Head") (codes "connection refused") (codes "ada") (codes "bob") same_user)
      config refl

-- The file system after the installation.
abbrev after_install : Environment
after_install = record environment { read_file = λ path. read installed }

check_claude_settings-plan_install_example :
    (check_claude_settings (codes "/s") (plan_install empty (codes "http://h")).0).status ≡ (
      if is_foreign (child_map empty env_key) (child_map empty cachy_key)
        && not (equal (string_or_empty url_key (child_map empty env_key)) (codes "http://h"))
      then status_warn
      else status_ok)
check_claude_settings-plan_install_example =
    check_claude_settings-plan_install (codes "/s") (codes "http://h") empty refl

target_run :
    check_target_url environment (codes "ada")
    ≡ record { name = codes "target-url"; status = status_ok; message = codes "redacted:redactedh" }
unfolding check_target_url parse_target_url complete_url redact_url
target_run = refl

sanitize_run :
    sanitize_url_error environment (url_error (codes "Head") (codes "ada") (codes "refused"))
    ≡ url_error (codes "Head") (codes "redacted:redactedh") (codes "refused")
unfolding sanitize_url_error clean_url redact_url
sanitize_run = refl

reachability_run :
    default_check_reachability environment print (status 503)
    ≡ some (codes "target returned status 503")
unfolding default_check_reachability print_int
reachability_run = refl

report_run : print_report (check_version [] ∷ []) ≡ codes "WARN version: version is not set\n"
unfolding print_report print_status check_version
report_run = refl
