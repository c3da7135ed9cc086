-- ===== src/Ccr/Marker/Digest.antt =====
-- The address of a content is one that markers and the store accept.
use cachy.Base.{ℕ, ◌*◌, ◌/◌, ◌%◌, ◌<◌, ◌≡◌, refl, true, [], ◌∷◌, arith, length, all, All}
use cachy.Text.{Bytes, codes, equal_refl}
use cachy.Ccr.Marker.{
  address_for_content, is_valid_address, is_hex, is_hex_digit, hex_encode, hex_digit,
}

-- What package crypto/sha256 documents of a digest: 32 bytes.
pub record IsDigest (sha256 : Bytes → Bytes) : Type 0 where
  pub digest_length : (content : Bytes) → length (sha256 content) ≡ 32
  pub digest_bytes : (content : Bytes) → All (λ b. b < 256) (sha256 content)

hex_digit-is_hex_digit : (d : ℕ) → d < 16 → is_hex_digit (hex_digit d) ≡ true
unfolding is_hex_digit hex_digit
hex_digit-is_hex_digit d h = ground arith

all-hex_encode : (bs : Bytes) → All (λ b. b < 256) bs → all is_hex_digit (hex_encode bs) ≡ true
unfolding hex_encode
all-hex_encode [] h = refl
all-hex_encode (b ∷ bs) h =
    rw
      (hex_digit-is_hex_digit (b / 16) (omega arith), hex_digit-is_hex_digit (b % 16) (omega arith))
      (all-hex_encode bs h.1)

length-hex_encode : (bs : Bytes) → length (hex_encode bs) ≡ 2 * length bs
unfolding hex_encode
length-hex_encode [] = omega arith
length-hex_encode (b ∷ bs) = omega (arith, length-hex_encode bs)

-- Where digests have 32 bytes, the address of every content is valid.
pub address_for_content-valid :
    (sha256 : Bytes → Bytes) (content : Bytes)
    → IsDigest sha256
    → is_valid_address (address_for_content sha256 content) ≡ true
unfolding is_valid_address address_for_content is_hex
address_for_content-valid sha256 content h = ground (
  arith,
  equal_refl (codes "sha256"),
  length-hex_encode (sha256 content),
  h.digest_length content,
  all-hex_encode (sha256 content) (h.digest_bytes content),
)
