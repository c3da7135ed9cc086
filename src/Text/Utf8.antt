-- ===== src/Text/Utf8.antt =====
-- Package `unicode/utf8`: a text is cut into runes, as `for _, r := range text` does.
use cachy.Base.{
  ℕ, zero, suc, ◌+◌, ◌-◌, ◌*◌, Bool, not, ◌&&◌, List, [], ◌∷◌, ◌++◌, ltb, leb, ◌==◌, if◌then◌else◌,
  length, take, all,
}
use cachy.Text.Strings.{Bytes}

abbrev within : ℕ → ℕ → ℕ → Bool
within lo hi c = leb lo c && leb c hi

-- A code point and the number of bytes that it took.
pub record Decoded : Type 0 where
  pub value : ℕ
  pub width : ℕ

-- utf8.RuneError, one byte wide: what an invalid byte decodes to
abbrev pub bad : Decoded
bad = record { value = 0xFFFD; width = 1 }

abbrev continuation : ℕ → Bool
continuation = within 0x80 0xBF

decode_two : ℕ → Bytes → Decoded
decode_two a (b ∷ s) =
    if continuation b then record { value = (a - 0xC0) * 64 + (b - 0x80); width = 2 } else bad
decode_two a [] = bad

-- `lo` and `hi` bound the second byte: no overlong forms and no surrogates.
decode_three : ℕ → ℕ → ℕ → Bytes → Decoded
decode_three lo hi a (b ∷ c ∷ s) =
    if within lo hi b && continuation c
    then record { value = (a - 0xE0) * 4096 + (b - 0x80) * 64 + (c - 0x80); width = 3 }
    else bad
decode_three lo hi a _ = bad

decode_four : ℕ → ℕ → ℕ → Bytes → Decoded
decode_four lo hi a (b ∷ c ∷ d ∷ s) =
    if within lo hi b && continuation c && continuation d
    then record {
      value = (a - 0xF0) * 262144 + (b - 0x80) * 4096 + (c - 0x80) * 64 + (d - 0x80);
      width = 4;
    }
    else bad
decode_four lo hi a _ = bad

-- utf8.DecodeRune of the byte `a` with the bytes `s` behind it
unfoldable pub decode : ℕ → Bytes → Decoded
unfolding decode_two decode_three decode_four
decode a s =
    if ltb a 0x80
    then record { value = a; width = 1 }
    else if within 0xC2 0xDF a
    then decode_two a s
    else if a == 0xE0
    then decode_three 0xA0 0xBF a s
    else if a == 0xED
    then decode_three 0x80 0x9F a s
    else if within 0xE1 0xEF a
    then decode_three 0x80 0xBF a s
    else if a == 0xF0
    then decode_four 0x90 0xBF a s
    else if within 0xF1 0xF3 a
    then decode_four 0x80 0xBF a s
    else if a == 0xF4
    then decode_four 0x80 0x8F a s
    else bad

-- A rune with its own bytes.
pub record Rune : Type 0 where
  pub value : ℕ
  pub raw : Bytes

-- `skip` counts the bytes of the last rune that are still to be passed over.
unfoldable pub runes_from : ℕ → Bytes → List Rune
unfolding decode
runes_from skip [] = []
runes_from (suc k) (c ∷ cs) = runes_from k cs
runes_from zero (c ∷ cs) =
    let d = decode c cs in
    record { value = d.value; raw = take d.width (c ∷ cs) } ∷ runes_from (d.width - 1) cs

unfoldable pub runes : Bytes → List Rune
unfolding runes_from
runes = runes_from 0

-- The bytes of some runes, one after the other.
unfoldable pub spell : List Rune → Bytes
spell [] = []
spell (r ∷ rs) = r.raw ++ spell rs

-- utf8.RuneCountInString
unfoldable pub rune_count : Bytes → ℕ
unfolding runes
rune_count s = length (runes s)

abbrev is_bad : Rune → Bool
is_bad r = r.value == 0xFFFD && length r.raw == 1

-- utf8.Valid and utf8.ValidString
unfoldable pub valid : Bytes → Bool
unfolding runes
valid s = all (λ r. not (is_bad r)) (runes s)
