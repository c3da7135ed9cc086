-- ===== src/Admin/Token.antt =====
-- Which requests carry the admin token.
use cachy.Base.{
  ap, ◌&&◌, ◌≡◌, ◌↔◌, ◌⊎◌, inl, inr, refl, Bool, true, false, not, ◌||◌, List, [], ◌∷◌, ◌++◌, arith,
  is_nil, any,
}
use cachy.Text.{Bytes, codes, equal_iff}
use cachy.Text.Ascii.{UnicodeTables}
use cachy.Http.{Request}
use cachy.Proxy.Headers.{header_get}
use cachy.Admin.{token_header, bearer_token, some_token, request_tokens, token_equal, valid_token}

-- The token is in the header of its own, or in the Authorization header as a bearer token.
abbrev pub Carries : UnicodeTables → Request → Bytes → Type 0
Carries u r token =
    (header_get token_header r.headers ≡ token)
    ⊎ (bearer_token u (header_get (codes "Authorization") r.headers) ≡ token)

either_iff :
    (a b : Bool) {P Q : Type 0} → (a ≡ true) ↔ P → (b ≡ true) ↔ Q → (a || b ≡ true) ↔ (P ⊎ Q)
either_iff true b p q = ((λ h. inl (p.0 refl)), (λ h. refl))
either_iff false b p q = ((λ h. inr (q.0 h)), (λ h. elim h [ inl l ↦ cc (p.1 l) | inr r ↦ q.1 r ]))

module _ (sha256 : Bytes → Bytes) where
  token_equal-some :
      (got want : Bytes)
      → any (λ g. token_equal sha256 g want) (some_token got)
        ≡ not (is_nil got) && token_equal sha256 got want
  token_equal-some [] want = refl
  token_equal-some (c ∷ got) want = ground arith

  any-append : (p : Bytes → Bool) (xs ys : List Bytes) → any p (xs ++ ys) ≡ any p xs || any p ys
  any-append p [] ys = refl
  any-append p (x ∷ xs) ys = ground (arith, any-append p xs ys)

  pub valid_token-split :
      (u : UnicodeTables) (r : Request) (want : Bytes)
      → valid_token sha256 u r want
        ≡ (not (is_nil (header_get token_header r.headers))
            && token_equal sha256 (header_get token_header r.headers) want)
          || (not (is_nil (bearer_token u (header_get (codes "Authorization") r.headers)))
              && token_equal sha256
                  (bearer_token u (header_get (codes "Authorization") r.headers))
                  want)
  unfolding valid_token request_tokens
  valid_token-split u r want =
      rw
        (
          any-append (λ g. token_equal sha256 g want)
              (some_token (header_get token_header r.headers))
              (some_token (bearer_token u (header_get (codes "Authorization") r.headers))),
          token_equal-some (header_get token_header r.headers) want,
          token_equal-some (bearer_token u (header_get (codes "Authorization") r.headers)) want,
        )
        refl

  -- The digest tells one text from the token.
  abbrev pub Apart : Bytes → Bytes → Type 0
  Apart got want = (sha256 got ≡ sha256 want) → got ≡ want

  token_equal_iff :
      (got want : Bytes) → Apart got want → (token_equal sha256 got want ≡ true) ↔ (got ≡ want)
  unfolding token_equal
  token_equal_iff got want apart = (
    (λ h. apart ((equal_iff (sha256 got) (sha256 want)).0 h)),
    (λ h. (equal_iff (sha256 got) (sha256 want)).1 (ap sha256 h)),
  )

  given_iff :
      (got want : Bytes)
      → is_nil want ≡ false
      → Apart got want
      → (not (is_nil got) && token_equal sha256 got want ≡ true) ↔ (got ≡ want)
  given_iff [] want h apart = ((λ e. cc), (λ e. cc (h, e)))
  given_iff (c ∷ got) want h apart = token_equal_iff (c ∷ got) want apart

  -- A request is let through by a token that is not empty exactly if it carries the token, provided
  -- that neither of the two texts in the request's headers is another text with the token's digest.
  pub valid_token-Carries :
      (u : UnicodeTables) (r : Request) (want : Bytes)
      → is_nil want ≡ false
      → Apart (header_get token_header r.headers) want
      → Apart (bearer_token u (header_get (codes "Authorization") r.headers)) want
      → (valid_token sha256 u r want ≡ true) ↔ Carries u r want
  valid_token-Carries u r want set own bearer = rw (valid_token-split u r want) (
      either_iff _ _ (given_iff (header_get token_header r.headers) want set own)
        (given_iff (bearer_token u (header_get (codes "Authorization") r.headers)) want set bearer))
