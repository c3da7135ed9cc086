-- ===== src/Admin/Server/Secrecy.antt =====
-- The replies say nothing of the provider's credential but whether there is one.
use cachy.Base.{
  ◌==◌, ◌≡◌, refl, false, Bool-cases, inl, inr, Option, none, some, List, [], ◌∷◌, arith, is_nil,
}
use cachy.Text.{Bytes}
use cachy.Text.Ascii.{UnicodeTables}
use cachy.Http.{Request}
use cachy.Admin.Server.{
  trim_right, Server, Reply, redacted_config_response, handle_metrics, handle_diagnostics,
  handle_status, validate_target_base_url, set_target, put_config, handle_config, dispatch, serve,
  serve_all,
}

abbrev pub with_credential : Server → Bytes → Server
with_credential s credential = record s {
  config = record s.config { provider_credential = credential };
}

module _ (decode : Bytes → Option Bytes) (parse_url : Bytes → Option (Bytes × Bytes)) (c d : Bytes)
    (some_c : is_nil c ≡ false) (some_d : is_nil d ≡ false) where
  -- The replies agree, and the servers are again the same but for their credentials.
  abbrev Agrees : Server → (Server → Server × Reply) → Type 0
  Agrees s step =
      ((step (with_credential s c)).1 ≡ (step (with_credential s d)).1)
      × ((step (with_credential s c)).0 ≡ with_credential (step s).0 c)
      × ((step (with_credential s d)).0 ≡ with_credential (step s).0 d)

  put_config-Agrees :
      (s : Server) (target : Option Bytes) → Agrees s (λ s. put_config decode parse_url s target)
  unfolding put_config set_target redacted_config_response
  put_config-Agrees s none = (refl, refl, refl)
  put_config-Agrees s (some raw) =
      elim (Bool-cases
        (validate_target_base_url decode parse_url (trim_right (λ c. c == b'/') raw))) [
          | inl e ↦ rw (e, some_c, some_d) (refl, refl, refl)
          | inr e ↦ rw e (refl, refl, refl)
        ]

  dispatch-Agrees : (s : Server) (r : Request) → Agrees s (λ s. dispatch decode parse_url s r)
  unfolding dispatch handle_config redacted_config_response handle_metrics handle_diagnostics
      handle_status
  dispatch-Agrees s r = ground (arith, some_c, some_d, put_config-Agrees s (decode r.body))

  module _ (sha256 : Bytes → Bytes) (u : UnicodeTables) where
    serve-Agrees : (s : Server) (r : Request) → Agrees s (λ s. serve decode parse_url sha256 u s r)
    unfolding serve
    serve-Agrees s r = ground (arith, dispatch-Agrees s r)

    -- Two servers that are the same but for their credentials, neither of them empty, give the same
    -- replies to any requests, and end as the same server but for these credentials.
    pub serve_all-secret :
        (rs : List Request) (s : Server)
        → ((serve_all decode parse_url sha256 u (with_credential s c) rs).1
            ≡ (serve_all decode parse_url sha256 u (with_credential s d) rs).1)
          × ((serve_all decode parse_url sha256 u (with_credential s c) rs).0
              ≡ with_credential (serve_all decode parse_url sha256 u s rs).0 c)
          × ((serve_all decode parse_url sha256 u (with_credential s d) rs).0
              ≡ with_credential (serve_all decode parse_url sha256 u s rs).0 d)
    unfolding serve_all
    serve_all-secret [] s = (refl, refl, refl)
    serve_all-secret (r ∷ rs) s =
        let (reply, at_c, at_d) = serve-Agrees s r in
        let (replies, end_c, end_d) = serve_all-secret rs (serve decode parse_url sha256 u s r).0 in
        rw (reply, at_c, at_d) (cc replies, end_c, end_d)
