-- ===== src/Text/Space.antt =====
-- White space: unicode.IsSpace, strings.TrimSpace, strings.Fields and strings.FieldsFunc.
-- A white space rune is found at the end of a text exactly where the text, cut into runes from its
-- start, ends with one, since no byte of an encoded rune but the first can begin one.
pub mod Ends
use cachy.Base.{
  ℕ, Bool, true, false, ◌&&◌, ◌||◌, List, [], ◌∷◌, ◌++◌, ltb, leb, ◌≡◌, refl, arith, ◌==◌,
  if◌then◌else◌, is_nil,
}
use cachy.Text.Strings.{Bytes}
use cachy.Text.Utf8.{Rune, runes, runes_from, decode, spell}

-- unicode.IsSpace
unfoldable pub is_space : ℕ → Bool
is_space r =
    (leb 9 r && leb r 13)
    || r == 32
    || r == 0x85
    || r == 0xA0
    || r == 0x1680
    || (leb 0x2000 r && leb r 0x200A)
    || r == 0x2028
    || r == 0x2029
    || r == 0x202F
    || r == 0x205F
    || r == 0x3000

unfoldable pub drop_spaces : List Rune → List Rune
unfolding is_space
drop_spaces [] = []
drop_spaces (r ∷ rs) = let rest = drop_spaces rs in if is_space r.value then rest else r ∷ rs

unfoldable pub drop_last_spaces : List Rune → List Rune
unfolding is_space
drop_last_spaces [] = []
drop_last_spaces (r ∷ rs) =
    let rest = drop_last_spaces rs in if is_nil rest && is_space r.value then [] else r ∷ rest

-- strings.TrimSpace
unfoldable pub trim_space : Bytes → Bytes
unfolding drop_spaces drop_last_spaces runes spell
trim_space s = spell (drop_last_spaces (drop_spaces (runes s)))

-- strings.FieldsFunc over the runes of a text; `cur` is the field being read.
unfoldable pub fields_from : (ℕ → Bool) → List Rune → Bytes → List Bytes
fields_from sep [] cur = if is_nil cur then [] else cur ∷ []
fields_from sep (r ∷ rs) cur = elim (sep r.value) [
  | true ↦ if is_nil cur then fields_from sep rs [] else cur ∷ fields_from sep rs []
  | false ↦ fields_from sep rs (cur ++ r.raw)
]

unfoldable pub fields_func : Bytes → (ℕ → Bool) → List Bytes
unfolding fields_from runes
fields_func s sep = fields_from sep (runes s) []

-- strings.Fields
unfoldable pub fields : Bytes → List Bytes
unfolding fields_func is_space
fields s = fields_func s is_space

decode_ascii :
    (c : ℕ) (s : Bytes) → ltb c 0x80 ≡ true → decode c s ≡ record { value = c; width = 1 }
unfolding decode
decode_ascii c s ascii = rw ascii refl

drop_last_spaces_some :
    (r : Rune) (rs : List Rune)
    → is_space r.value ≡ false
    → drop_last_spaces (r ∷ rs) ≡ r ∷ drop_last_spaces rs
unfolding drop_last_spaces
drop_last_spaces_some r rs visible = ground (arith, visible)

-- A text that begins with an ASCII byte other than a space is not blank.
pub trim_space_some :
    (c : ℕ) (s : Bytes)
    → ltb c 0x80 ≡ true
    → is_space c ≡ false
    → is_nil (trim_space (c ∷ s)) ≡ false
unfolding trim_space drop_spaces runes runes_from spell
trim_space_some c s ascii visible =
    rw (decode_ascii c s ascii, visible)
      (rw (drop_last_spaces_some (record { value = c; raw = c ∷ [] }) (runes_from 0 s) visible)
        refl)
