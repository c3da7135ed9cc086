-- ===== src/Doctor/Redaction.antt =====
-- The report says nothing of the user information in the target URL.
use cachy.Base.{ℕ, false, ◌≡◌, refl, ap, some, is_nil, ok, arith}
use cachy.Text.{Bytes}
use cachy.Doctor.{
  other_error, no_answer, Error, status, url_error, with_default_reachability,
  default_check_reachability, Answer, RequestError, clean_url, sanitize_url_error, Environment,
  Config, TargetUrl, check_target_url, check_reachability, check_mcp_registration, parse_target_url,
  complete_url, redact_url, run_checks, print_report,
}

-- Two URLs that parse to targets which differ only in a user or password.
pub record SameButUser (e : Environment) (raw raw' : Bytes) : Type 0 where
  pub target : TargetUrl
  pub user : Bytes
  pub user' : Bytes
  pub given : (is_nil raw ≡ false) × (is_nil raw' ≡ false)
  pub parsed : e.parse_url raw ≡ ok (record target { user = some user })
  pub parsed' : e.parse_url raw' ≡ ok (record target { user = some user' })

-- Two answers to a request that differ only in the user information of a URL in an error.
pub data AnswerAlike (e : Environment) : Answer → Answer → Type 0 where
  alike_status : (code : ℕ) → AnswerAlike e (status code) (status code)
  alike_error :
      (message : Error)
      → AnswerAlike e (no_answer (other_error message)) (no_answer (other_error message))
  alike_url :
      (op cause raw raw' : Bytes)
      → SameButUser e raw raw'
      → AnswerAlike e (no_answer (url_error op raw cause)) (no_answer (url_error op raw' cause))

module _ (e : Environment) (raw raw' : Bytes) (same : SameButUser e raw raw') where
  same-clean : clean_url e raw (e.parse_url raw) ≡ clean_url e raw' (e.parse_url raw')
  unfolding clean_url redact_url
  same-clean = ground (arith, same.parsed, same.parsed')

  same-sanitized :
      (op cause : Bytes)
      → sanitize_url_error e (url_error op raw cause)
        ≡ sanitize_url_error e (url_error op raw' cause)
  unfolding sanitize_url_error
  same-sanitized op cause = rw (same.given.0, same.given.1, same-clean) refl

same-answer :
    (e : Environment) (print : RequestError → Bytes) (a a' : Answer)
    → AnswerAlike e a a'
    → default_check_reachability e print a ≡ default_check_reachability e print a'
unfolding default_check_reachability
same-answer e print a a' (alike_status code) = refl
same-answer e print a a' (alike_error message) = refl
same-answer e print a a' (alike_url op cause raw raw' same) =
    ap (λ (error : RequestError). some (print error)) (same-sanitized e raw raw' same op cause)

module _ (e : Environment) (raw raw' : Bytes) (same : SameButUser e raw raw') where
  same-target : check_target_url e raw ≡ check_target_url e raw'
  unfolding check_target_url parse_target_url complete_url redact_url
  same-target = ground (arith, same.given, same.parsed, same.parsed')

  same-reach :
      e.check_reach raw ≡ e.check_reach raw' → check_reachability e raw ≡ check_reachability e raw'
  unfolding check_reachability parse_target_url complete_url redact_url
  same-reach answer = ground (arith, same.given, same.parsed, same.parsed', answer)

  same-mcp :
      (listen : Bytes) → check_mcp_registration e raw listen ≡ check_mcp_registration e raw' listen
  unfolding check_mcp_registration parse_target_url complete_url redact_url
  same-mcp listen = ground (arith, same.given, same.parsed, same.parsed')

module _ (e : Environment) (print : RequestError → Bytes) (request : Bytes → Answer)
    (raw raw' : Bytes) (same : SameButUser e raw raw')
    (alike : AnswerAlike e (request raw) (request raw')) where
  -- Two configurations whose target URLs differ only in the user information have the same report of the
  -- doctor with its own check of the provider, where the provider answers the two with one status or
  -- with errors that differ at most in the user information of the URL that they name: no part of a user
  -- name or password of the URL is in the report.
  pub print_report-run_checks :
      (config : Config)
      → config.target_url ≡ raw
      → print_report (run_checks (with_default_reachability e print request) config)
        ≡ print_report (
            run_checks
              (with_default_reachability e print request)
              (record config { target_url = raw' }))
  unfolding run_checks with_default_reachability
  print_report-run_checks config here =
      let e' = with_default_reachability e print request in
      let same' : SameButUser e' raw raw' = record {
        target = same.target;
        user = same.user;
        user' = same.user';
        given = same.given;
        parsed = same.parsed;
        parsed' = same.parsed';
      } in
      ap print_report (
        rw
          (
            here,
            same-target e' raw raw' same',
            same-reach e' raw raw' same' (same-answer e print _ _ alike),
            same-mcp e' raw raw' same' config.listen_address,
          )
          refl)
