-- ===== src/Admin/Server/Kept.antt =====
-- What the requests to the admin interface leave as it is.
use cachy.Base.{
  ◌==◌, ap, ◌∙◌, Bool-cases, inl, inr, keep, ◌≡◌, refl, Bool, true, false, Option, none, some, List,
  [], ◌∷◌, arith,
}
use cachy.Text.{Bytes}
use cachy.Text.Ascii.{UnicodeTables}
use cachy.Http.{Request}
use cachy.Admin.{valid_token}
use cachy.Admin.Server.{
  trim_right, Server, validate_target_base_url, set_target, put_config, handle_config, dispatch,
  serve, serve_all,
}

module _ (decode : Bytes → Option Bytes) (parse_url : Bytes → Option (Bytes × Bytes))
    (sha256 : Bytes → Bytes) (u : UnicodeTables) where
  abbrev pub valid_target : Server → Bool
  valid_target s = validate_target_base_url decode parse_url s.config.target_base_url

  -- The server is the old one but for the target of the proxy, which is still valid.
  abbrev Retargets : Server → Server → Type 0
  Retargets s t =
      (t ≡ set_target decode parse_url s t.config.target_base_url)
      × (valid_target s ≡ true → valid_target t ≡ true)

  put_config-Retargets :
      (s : Server) (target : Option Bytes) → Retargets s (put_config decode parse_url s target).0
  unfolding put_config set_target
  put_config-Retargets s none = (refl, (λ h. h))
  put_config-Retargets s (some raw) =
      elim (Bool-cases
        (validate_target_base_url decode parse_url (trim_right (λ c. c == b'/') raw))) [
          | inl e ↦ rw e (refl, (λ h. e))
          | inr e ↦ rw e (refl, (λ h. h))
        ]

  serve-Retargets : (s : Server) (r : Request) → Retargets s (serve decode parse_url sha256 u s r).0
  unfolding serve dispatch handle_config set_target
  serve-Retargets s r = ground (arith, put_config-Retargets s (decode r.body))

  serve_all-Retargets :
      (rs : List Request) (s : Server) → Retargets s (serve_all decode parse_url sha256 u s rs).0
  unfolding serve_all set_target
  serve_all-Retargets [] s = (refl, (λ h. h))
  serve_all-Retargets (r ∷ rs) s =
      let (now, valid) = serve-Retargets s r in
      let (later, still_valid) = serve_all-Retargets rs (serve decode parse_url sha256 u s r).0 in
      let end =
        (serve_all decode parse_url sha256 u (serve decode parse_url sha256 u s r).0 rs).0 in
      (
        later ∙ ap (λ (t : Server). set_target decode parse_url t end.config.target_base_url) now,
        (λ h. still_valid (valid h)),
      )

  -- A server whose target is valid is, after any requests, the same server but for its target, and
  -- its target is valid again.
  pub serve_all-valid_target :
      (rs : List Request) (s : Server)
      → valid_target s ≡ true
      → let t = (serve_all decode parse_url sha256 u s rs).0 in
        (t ≡ set_target decode parse_url s t.config.target_base_url) × (valid_target t ≡ true)
  serve_all-valid_target rs s valid =
      let (same, still_valid) = serve_all-Retargets rs s in (same, still_valid valid)

  unauthorized_serve :
      (s : Server) (r : Request)
      → valid_token sha256 u r s.token ≡ false
      → (serve decode parse_url sha256 u s r).0 ≡ s
  unfolding serve
  unauthorized_serve s r h = rw h refl

  -- The requests without the token might as well not have been sent: the server ends as if only the
  -- others were.
  pub serve_all-authorized :
      (rs : List Request) (s : Server)
      → (serve_all decode parse_url sha256 u s rs).0
        ≡ (serve_all decode parse_url sha256 u s (keep (λ r. valid_token sha256 u r s.token) rs)).0
  unfolding serve_all set_target
  serve_all-authorized [] s = refl
  serve_all-authorized (r ∷ rs) s =
      let s1 = (serve decode parse_url sha256 u s r).0 in
      let same_token : s1.token ≡ s.token = ap (λ (t : Server). t.token) (serve-Retargets s r).0 in
      elim (Bool-cases (valid_token sha256 u r s.token)) [
        | inl valid ↦ rw valid (rw same_token at (serve_all-authorized rs s1))
        | inr invalid ↦ rw (invalid, unauthorized_serve s r invalid) (serve_all-authorized rs s)
      ]
