-- ===== src/Admin/Generated/Accepted.antt =====
-- A generated token, sent as a bearer token, is let through.
use cachy.Base.{
  ◌/◌, ◌%◌, ◌*◌, ◌+◌, ℕ, ◌≡◌, ◌∙◌, refl, ap, sym, arith, true, false, List, [], ◌∷◌, ◌++◌, All,
  append-nil, append_assoc, is_nil, length, ltb, if◌then◌else◌, Result, ok, err,
}
use cachy.Text.{Bytes, codes, equal, equal_refl}
use cachy.Text.Ascii.{UnicodeTables, equal_fold, is_ascii, lower_byte}
use cachy.Text.Utf8.{Rune, runes, runes_from, decode}
use cachy.Text.Space.{is_space, fields_from, fields_func, fields}
use cachy.Http.{Request}
use cachy.Tokens.{Error}
use cachy.Proxy.Headers.{header_get}
use cachy.Admin.{bearer_field, bearer_token, token_equal, valid_token}
use cachy.Admin.Token.{valid_token-split}
use cachy.Admin.Generated.{digit, encode_raw_url, token_of, generate_token}

-- An ASCII byte that is no space.
abbrev IsPlain : ℕ → Type 0
IsPlain c = (ltb c 0x80 ≡ true) × (is_space c ≡ false)

digit-IsPlain : (d : ℕ) → IsPlain (digit d)
unfolding digit is_space
digit-IsPlain d = (ground arith, ground arith)

encode_raw_url-IsPlain : (raw : Bytes) → All IsPlain (encode_raw_url raw)
unfolding encode_raw_url
encode_raw_url-IsPlain [] = tt
encode_raw_url-IsPlain (a ∷ []) = (digit-IsPlain (a / 4), (digit-IsPlain (a % 4 * 16), tt))
encode_raw_url-IsPlain (a ∷ b ∷ []) =
    (digit-IsPlain (a / 4), (digit-IsPlain (a % 4 * 16 + b / 16), (digit-IsPlain (b % 16 * 4), tt)))
encode_raw_url-IsPlain (a ∷ b ∷ c ∷ raw) = (
  digit-IsPlain (a / 4),
  (
    digit-IsPlain (a % 4 * 16 + b / 16),
    (digit-IsPlain (b % 16 * 4 + c / 64), (digit-IsPlain (c % 64), encode_raw_url-IsPlain raw)),
  ),
)

encode_raw_url-some : (raw : Bytes) → length raw ≡ 32 → is_nil (encode_raw_url raw) ≡ false
unfolding encode_raw_url
encode_raw_url-some [] full = ground arith
encode_raw_url-some (a ∷ []) full = refl
encode_raw_url-some (a ∷ b ∷ []) full = refl
encode_raw_url-some (a ∷ b ∷ c ∷ raw) full = refl

runes-plain :
    (c : ℕ) (s : Bytes)
    → ltb c 0x80 ≡ true
    → runes (c ∷ s) ≡ record { value = c; raw = c ∷ [] } ∷ runes s
unfolding runes runes_from decode
runes-plain c s ascii = rw ascii refl

fields_from_step :
    (c : ℕ) (rs : List Rune) (cur : Bytes)
    → is_space c ≡ false
    → fields_from is_space (record { value = c; raw = c ∷ [] } ∷ rs) cur
      ≡ fields_from is_space rs (cur ++ (c ∷ []))
unfolding fields_from
fields_from_step c rs cur visible = ground (arith, visible)

-- A text of plain bytes is one field, with what is read of it.
fields_from-plain :
    (s cur : Bytes)
    → All IsPlain s
    → fields_from is_space (runes s) cur ≡ (if is_nil (cur ++ s) then [] else (cur ++ s) ∷ [])
unfolding fields_from runes
fields_from-plain [] cur plain = rw (append-nil cur) refl
fields_from-plain (c ∷ s) cur plain =
    rw
      (
        runes-plain c s plain.0.0,
        fields_from_step c (runes s) cur plain.0.1,
        fields_from-plain s (cur ++ (c ∷ [])) plain.1,
        append_assoc cur (c ∷ []) s,
      )
      refl

bearer_token-plain :
    (u : UnicodeTables) (token : Bytes)
    → All IsPlain token
    → is_nil token ≡ false
    → bearer_token u (codes "Bearer " ++ token) ≡ token
unfolding bearer_token bearer_field fields fields_func fields_from runes runes_from decode is_space
    equal_fold is_ascii lower_byte equal
bearer_token-plain u token plain some_bytes = rw (fields_from-plain token [] plain, some_bytes) refl

token_of-raw :
    (drawn : Result Error Bytes) (token : Bytes)
    → token_of drawn ≡ ok token
    → (raw : Bytes) × (drawn ≡ ok raw) × (encode_raw_url raw ≡ token)
unfolding token_of
token_of-raw (ok raw) token h = (raw, refl, cc h)
token_of-raw (err e) token h = cc h

length-encode_raw_url : (raw : Bytes) → length (encode_raw_url raw) ≡ (length raw * 4 + 2) / 3
unfolding encode_raw_url
length-encode_raw_url [] = refl
length-encode_raw_url (a ∷ []) = refl
length-encode_raw_url (a ∷ b ∷ []) = refl
length-encode_raw_url (a ∷ b ∷ c ∷ raw) = omega (arith, length-encode_raw_url raw)

-- A token is generated only if the random source gives its 32 bytes. Where the source fills its buffer,
-- the token has 43 characters, and a request with it as its bearer token is let through by the server of
-- this token.
pub valid_token-generate_token :
    (sha256 : Bytes → Bytes) (u : UnicodeTables) (read_random : ℕ → Result Error Bytes)
    (r : Request) (token : Bytes)
    → ((size : ℕ) (raw : Bytes) → read_random size ≡ ok raw → length raw ≡ size)
    → generate_token read_random ≡ ok token
    → header_get (codes "Authorization") r.headers ≡ codes "Bearer " ++ token
    → (raw : Bytes) × (read_random 32 ≡ ok raw)
      × (length token ≡ 43)
      × (valid_token sha256 u r token ≡ true)
unfolding token_equal generate_token
valid_token-generate_token sha256 u read_random r token fills generated sent =
    let (raw, read, is_token) = token_of-raw (read_random 32) token generated in
    let plain : All IsPlain token = rw (sym is_token) (encode_raw_url-IsPlain raw) in
    let set : is_nil token ≡ false =
      rw (sym is_token) (encode_raw_url-some raw (fills 32 raw read)) in
    let long : length token ≡ 43 =
      rw (sym is_token)
        (length-encode_raw_url raw ∙ ap (λ (n : ℕ). (n * 4 + 2) / 3) (fills 32 raw read)) in
    (
      raw,
      read,
      long,
      rw (valid_token-split sha256 u r token, sent, bearer_token-plain u token plain set, set)
          (rw (equal_refl (sha256 token)) (ground arith)),
    )
