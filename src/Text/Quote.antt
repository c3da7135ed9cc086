-- ===== src/Text/Quote.antt =====
-- `%q` and strconv.Quote. The runes that are not ASCII and count as printable are a parameter.
use cachy.Base.{
  ℕ, zero, suc, ◌+◌, ◌-◌, ◌/◌, ◌%◌, Bool, ◌&&◌, ◌||◌, List, [], ◌∷◌, ◌++◌, ltb, leb, ◌==◌,
  if◌then◌else◌, length,
}
use cachy.Text.Strings.{Bytes, codes}
use cachy.Text.Utf8.{Rune, runes}

hex_digit : ℕ → ℕ
hex_digit d = if ltb d 10 then b'0' + d else b'a' + (d - 10)

-- The last `n` hexadecimal digits of a number.
hex_digits : ℕ → ℕ → Bytes
unfolding hex_digit
hex_digits zero v = []
hex_digits (suc n) v = hex_digits n (v / 16) ++ hex_digit (v % 16) ∷ []

-- The byte of a rune that is one byte wide.
first_byte : Bytes → ℕ
first_byte [] = 0
first_byte (c ∷ cs) = c

-- A rune below 0x80 that is not printable.
quote_control : ℕ → Bytes
unfolding hex_digits
quote_control c =
    if c == 7
    then codes "\\a"
    else if c == 8
    then codes "\\b"
    else if c == 12
    then codes "\\f"
    else if c == 10
    then codes "\\n"
    else if c == 13
    then codes "\\r"
    else if c == 9
    then codes "\\t"
    else if c == 11
    then codes "\\v"
    else codes "\\x" ++ hex_digits 2 c

quote_rune : (ℕ → Bool) → Rune → Bytes
unfolding hex_digits quote_control first_byte
quote_rune is_print r =
    if r.value == 0xFFFD && length r.raw == 1
    then codes "\\x" ++ hex_digits 2 (first_byte r.raw)
    else if r.value == 34 || r.value == 92
    then 92 ∷ r.raw
    else if ltb r.value 0x80
    then (if leb 32 r.value && ltb r.value 0x7F then r.raw else quote_control r.value)
    else if is_print r.value
    then r.raw
    else if ltb r.value 0x10000
    then codes "\\u" ++ hex_digits 4 r.value
    else codes "\\U" ++ hex_digits 8 r.value

quote_runes : (ℕ → Bool) → List Rune → Bytes
unfolding quote_rune
quote_runes is_print [] = []
quote_runes is_print (r ∷ rs) = quote_rune is_print r ++ quote_runes is_print rs

unfoldable pub quote : (ℕ → Bool) → Bytes → Bytes
unfolding quote_runes runes
quote is_print s = 34 ∷ quote_runes is_print (runes s) ++ 34 ∷ []
