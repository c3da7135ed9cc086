-- ===== src/Ccr/Marker.antt =====
-- internal/ccr/marker.go. SHA-256 is a parameter: the function from a content to its digest.
pub mod Words
pub mod Digest
pub mod RoundTrip
mod Tests
use cachy.Base.{
  ℕ, suc, ◌+◌, ◌-◌, ◌/◌, ◌%◌, Bool, true, false, not, ◌&&◌, ◌||◌, Option, none, some, List, [], ◌∷◌,
  ◌++◌, ltb, leb, ◌==◌, if◌then◌else◌, is_nil, length, all, Result, ok, err, ◌>>=◌,
}
use cachy.Base.Int.{ℤ, pos, ltb_ℤ}
use cachy.Text.{Bytes, codes, equal, has_prefix, has_suffix, trim_prefix, trim_suffix, cut}
use cachy.Text.Space.{fields}
use cachy.Text.Decimal.{print_int, atoi}

pub data MarkerError : Type 0 where
  invalid_address invalid_marker : MarkerError

pub record Address : Type 0 where
  pub algorithm : Bytes
  pub hex : Bytes
  pub bytes : ℤ

pub record Marker : Type 0 where
  pub version : Bytes
  pub address : Address

pub record MarkerContext : Type 0 where
  pub provider : Bytes
  pub selected : Bool
  pub stable : Bool

abbrev algorithm_sha256 : Bytes
algorithm_sha256 = codes "sha256"

abbrev pub marker_version : Bytes
marker_version = codes "v1"

abbrev sha256_hex_length : ℕ
sha256_hex_length = 64

abbrev max_marker_length : ℕ
max_marker_length = 128

-- One digit of hex.EncodeToString.
pub hex_digit : ℕ → ℕ
hex_digit d = if ltb d 10 then b'0' + d else b'a' + (d - 10)

pub hex_encode : Bytes → Bytes
hex_encode [] = []
hex_encode (b ∷ bs) = hex_digit (b / 16) ∷ hex_digit (b % 16) ∷ hex_encode bs

pub is_hex_digit : ℕ → Bool
is_hex_digit c =
    (leb b'0' c && leb c b'9') || (leb b'a' c && leb c b'f') || (leb b'A' c && leb c b'F')

-- Whether hex.DecodeString returns no error.
pub is_hex : Bytes → Bool
is_hex s = length s % 2 == 0 && all is_hex_digit s

pub address_for_content : (Bytes → Bytes) → Bytes → Address
address_for_content sha256 content = record {
  algorithm = algorithm_sha256;
  hex = hex_encode (sha256 content);
  bytes = pos (length content);
}

-- `validateAddress`, which returns ErrInvalidAddress where this is false
pub is_valid_address : Address → Bool
is_valid_address a =
    if not (equal a.algorithm algorithm_sha256)
    then false
    else if ltb_ℤ a.bytes (pos 0)
    then false
    else if not (length a.hex == sha256_hex_length)
    then false
    else is_hex a.hex

abbrev pub marker_prefix : Bytes
marker_prefix = codes "[[cachy-ccr:"

abbrev pub marker_suffix : Bytes
marker_suffix = codes "]]"

-- What stands between the prefix and the suffix.
abbrev pub marker_inner : Address → Bytes
marker_inner a =
    marker_version
    ++ (codes " "
        ++ (a.algorithm ++ (codes ":" ++ (a.hex ++ (codes " bytes:" ++ print_int a.bytes)))))

-- fmt.Sprintf("[[cachy-ccr:%s %s:%s bytes:%d]]", …)
pub format_marker : Address → Bytes
format_marker a = marker_prefix ++ (marker_inner a ++ marker_suffix)

pub render_marker : Address → Result MarkerError Bytes
render_marker a =
    if not (is_valid_address a)
    then err invalid_address
    else if ltb max_marker_length (length (format_marker a))
    then err invalid_marker
    else ok (format_marker a)

pub or_invalid {ℓ} : {A : Type ℓ} → Option A → Result MarkerError A
or_invalid none = err invalid_marker
or_invalid (some a) = ok a

-- From the three fields of the marker on.
pub parse_fields : List Bytes → Result MarkerError Marker
parse_fields (version ∷ hash ∷ size ∷ []) =
    if not (equal version marker_version) then err invalid_marker else do
      (algorithm, hex) ← or_invalid (cut hash (codes ":"))
      (size_label, size_text) ← or_invalid (cut size (codes ":"))
      if not (equal size_label (codes "bytes")) then err invalid_marker else do
        n ← or_invalid (atoi size_text)
        let address : Address = record { algorithm = algorithm; hex = hex; bytes = n }
        if not (is_valid_address address)
            then err invalid_address
            else ok (record { version = marker_version; address = address })
parse_fields _ = err invalid_marker

pub parse_marker : Bytes → Result MarkerError Marker
parse_marker text =
    if length text == 0 || ltb max_marker_length (length text)
    then err invalid_marker
    else if not (has_prefix text marker_prefix) || not (has_suffix text marker_suffix)
    then err invalid_marker
    else parse_fields (fields (trim_suffix (trim_prefix text marker_prefix) marker_suffix))

pub can_emit_marker : MarkerContext → Bool
can_emit_marker ctx =
    if not ctx.selected || ctx.stable
    then false
    else equal ctx.provider (codes "openai") || equal ctx.provider (codes "anthropic")
