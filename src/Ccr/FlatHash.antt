-- ===== src/Ccr/FlatHash.antt =====
-- A function with the form of a digest, which stands for SHA-256 in the runs.
use cachy.Base.{ℕ, zero, suc, ◌<◌, refl, [], ◌∷◌, arith, All}
use cachy.Text.{Bytes}
use cachy.Ccr.Marker.Digest.{IsDigest}

abbrev zeros : ℕ → Bytes
zeros zero = []
zeros (suc n) = 0 ∷ zeros n

zeros-bytes : (n : ℕ) → All (λ b. b < 256) (zeros n)
zeros-bytes zero = tt
zeros-bytes (suc n) = (omega arith, zeros-bytes n)

abbrev pub flat_hash : Bytes → Bytes
flat_hash content = zeros 32

pub flat_hash-IsDigest : IsDigest flat_hash
flat_hash-IsDigest = record {
  digest_length = λ content. refl;
  digest_bytes = λ content. zeros-bytes 32;
}
