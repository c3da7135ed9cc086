-- ===== src/Text/Space/Ends.antt =====
-- An ASCII space at the end of a text is a rune of its own, and trimming takes it away.
use cachy.Base.{
  ◌<◌, Bool-cases, inl, inr, ℕ, zero, suc, ◌+◌, ◌-◌, ◌≤◌, ◌≡◌, refl, ap, true, List, [], ◌∷◌, ◌++◌,
  arith, ltb, length, take,
}
use cachy.Text.Strings.{Bytes}
use cachy.Text.Utf8.{Rune, decode, runes, runes_from, spell}
use cachy.Text.Space.{is_space, drop_spaces, drop_last_spaces, trim_space}

decode-snoc : (a c : ℕ) (s : Bytes) → ltb c 0x80 ≡ true → decode a (s ++ c ∷ []) ≡ decode a s
unfolding decode
decode-snoc a c [] h = ground arith
decode-snoc a c (x ∷ []) h = ground arith
decode-snoc a c (x ∷ y ∷ []) h = ground arith
decode-snoc a c (x ∷ y ∷ z ∷ s) h = refl

decode_width : (a : ℕ) (s : Bytes) → (0 < (decode a s).width) × ((decode a s).width ≤ length s + 1)
unfolding decode
decode_width a [] = ground arith
decode_width a (x ∷ []) = ground arith
decode_width a (x ∷ y ∷ []) = ground arith
decode_width a (x ∷ y ∷ z ∷ s) = ground arith

take-snoc : (n : ℕ) (s : Bytes) (c : ℕ) → n ≤ length s → take n (s ++ c ∷ []) ≡ take n s
take-snoc zero s c h = refl
take-snoc (suc n) [] c h = absurd (omega arith)
take-snoc (suc n) (x ∷ s) c h = ap (◌∷◌ x) (take-snoc n s c (omega arith))

decode_lem : (c : ℕ) → ltb c 0x80 ≡ true → decode c [] ≡ record { value = c; width = 1 }
unfolding decode
decode_lem c h = rw h refl

runes_from-snoc :
    (k : ℕ) (s : Bytes) (c : ℕ)
    → ltb c 0x80 ≡ true
    → k ≤ length s
    → runes_from k (s ++ c ∷ []) ≡ runes_from k s ++ record { value = c; raw = c ∷ [] } ∷ []
unfolding runes_from
runes_from-snoc zero [] c h le = rw (decode_lem c h) refl
runes_from-snoc (suc k) [] c h le = absurd (omega arith)
runes_from-snoc (suc k) (x ∷ s) c h le = runes_from-snoc k s c h (omega arith)
runes_from-snoc zero (x ∷ s) c h le =
    let bounds = decode_width x s in
    rw
      (
        decode-snoc x c s h,
        take-snoc (decode x s).width (x ∷ s) c (omega (arith, bounds.1)),
        runes_from-snoc ((decode x s).width - 1) s c h (omega (arith, decode_width x s)),
      )
      refl

drop_last_spaces-snoc :
    (rs : List Rune) (r : Rune)
    → is_space r.value ≡ true
    → drop_last_spaces (rs ++ r ∷ []) ≡ drop_last_spaces rs
unfolding drop_last_spaces
drop_last_spaces-snoc [] r h = ground arith
drop_last_spaces-snoc (x ∷ rs) r h = rw (drop_last_spaces-snoc rs r h) refl

trim-snoc :
    (rs : List Rune) (r : Rune)
    → is_space r.value ≡ true
    → drop_last_spaces (drop_spaces (rs ++ r ∷ [])) ≡ drop_last_spaces (drop_spaces rs)
unfolding drop_spaces
trim-snoc [] r h = rw h refl
trim-snoc (x ∷ rs) r h = elim (Bool-cases (is_space x.value)) [
  | inl sp ↦ rw sp (trim-snoc rs r h)
  | inr visible ↦ rw visible (drop_last_spaces-snoc (x ∷ rs) r h)
]

pub trim_space-snoc :
    (s : Bytes) (c : ℕ)
    → ltb c 0x80 ≡ true
    → is_space c ≡ true
    → trim_space (s ++ c ∷ []) ≡ trim_space s
unfolding trim_space runes
trim_space-snoc s c h sp =
    rw (runes_from-snoc 0 s c h (omega arith))
      (ap spell (trim-snoc (runes_from 0 s) (record { value = c; raw = c ∷ [] }) sp))
