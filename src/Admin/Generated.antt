-- ===== src/Admin/Generated.antt =====
-- `GenerateToken` of internal/admin/auth.go, with base64.RawURLEncoding; rand.Read is a parameter.
pub mod Accepted
use cachy.Base.{
  ℕ, ltb, ◌==◌, ◌+◌, ◌-◌, ◌*◌, ◌/◌, ◌%◌, [], ◌∷◌, ◌++◌, if◌then◌else◌, Result, ok, err,
}
use cachy.Text.{Bytes, codes}
use cachy.Tokens.{Error}

-- One digit of the URL alphabet.
unfoldable pub digit : ℕ → ℕ
digit d =
    if ltb d 26
    then b'A' + d
    else if ltb d 52
    then b'a' + (d - 26)
    else if ltb d 62
    then b'0' + (d - 52)
    else if d == 62
    then b'-'
    else b'_'

unfoldable pub encode_raw_url : Bytes → Bytes
unfolding digit
encode_raw_url [] = []
encode_raw_url (a ∷ []) = digit (a / 4) ∷ digit (a % 4 * 16) ∷ []
encode_raw_url (a ∷ b ∷ []) = digit (a / 4) ∷ digit (a % 4 * 16 + b / 16) ∷ digit (b % 16 * 4) ∷ []
encode_raw_url (a ∷ b ∷ c ∷ raw) =
    digit (a / 4)
    ∷ digit (a % 4 * 16 + b / 16)
    ∷ digit (b % 16 * 4 + c / 64)
    ∷ digit (c % 64)
    ∷ encode_raw_url raw

token_of : Result Error Bytes → Result Error Bytes
token_of (err e) = err (codes "generate admin token: " ++ e)
token_of (ok raw) = ok (encode_raw_url raw)

abbrev token_size : ℕ
token_size = 32

-- rand.Read, on a buffer of a size, is a parameter.
unfoldable pub generate_token : (ℕ → Result Error Bytes) → Result Error Bytes
unfolding token_of
generate_token read_random = token_of (read_random token_size)
