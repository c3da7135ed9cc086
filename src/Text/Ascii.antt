-- ===== src/Text/Ascii.antt =====
-- The letter case of texts. On ASCII texts Go's strings.ToLower and strings.ToUpper change the
-- letters byte by byte; on other texts they go through the Unicode tables, which are a parameter.
use cachy.Base.{ℕ, ◌+◌, ◌-◌, Bool, ◌&&◌, ◌||◌, map, ltb, leb, ◌==◌, if◌then◌else◌, all}
use cachy.Text.Strings.{Bytes, equal}

-- What package `unicode` says of text that is not ASCII, and of the classes of runes.
pub record UnicodeTables : Type 0 where
  pub lower : Bytes → Bytes
  pub upper : Bytes → Bytes
  pub fold_equal : Bytes → Bytes → Bool
  pub is_punct : ℕ → Bool
  pub is_symbol : ℕ → Bool

unfoldable pub is_ascii : Bytes → Bool
is_ascii = all (λ c. ltb c 0x80)

unfoldable pub lower_byte : ℕ → ℕ
lower_byte c = if leb b'A' c && leb c b'Z' then c + 32 else c

unfoldable pub upper_byte : ℕ → ℕ
upper_byte c = if leb b'a' c && leb c b'z' then c - 32 else c

-- strings.ToLower
unfoldable pub to_lower : UnicodeTables → Bytes → Bytes
unfolding is_ascii lower_byte
to_lower u s = if is_ascii s then map lower_byte s else u.lower s

-- strings.ToUpper
unfoldable pub to_upper : UnicodeTables → Bytes → Bytes
unfolding is_ascii upper_byte
to_upper u s = if is_ascii s then map upper_byte s else u.upper s

-- strings.EqualFold
unfoldable pub equal_fold : UnicodeTables → Bytes → Bytes → Bool
unfolding is_ascii lower_byte equal
equal_fold u s t =
    if is_ascii s && is_ascii t
    then equal (map lower_byte s) (map lower_byte t)
    else u.fold_equal s t

-- Tables that change no rune, for the runs on ASCII text.
abbrev pub plain_tables : UnicodeTables
plain_tables = record {
  lower = λ s. s;
  upper = λ s. s;
  fold_equal = equal;
  is_punct = λ r.
      (leb 33 r && leb r 35)
      || (leb 37 r && leb r 42)
      || (leb 44 r && leb r 47)
      || (leb 58 r && leb r 59)
      || (leb 63 r && leb r 64)
      || (leb 91 r && leb r 93)
      || (r == 95)
      || (r == 123)
      || (r == 125);
  is_symbol = λ r.
      (r == 36)
      || (r == 43)
      || (leb 60 r && leb r 62)
      || (r == 94)
      || (r == 96)
      || (r == 124)
      || (r == 126);
}
