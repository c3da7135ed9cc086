-- ===== src/Ccr/Marker/RoundTrip.antt =====
-- Parsing a rendered marker, and rendering a parsed one.
use cachy.Base.{
  ℕ, ◌+◌, ◌≤◌, ◌<◌, ◌^◌, ◌≡◌, ◌≢◌, ap, sym, ◌∙◌, true, false, List, [], ◌∷◌, ◌++◌, arith, ltb,
  length, all, All, All-append, length-append, ok,
}
use cachy.Base.Int.{pos_part, pos, IsInt64}
use cachy.Text.{
  Bytes, codes, equal, equal_iff, has_prefix, has_suffix, trim_prefix, trim_suffix, cut, find,
  has_prefix-append, has_suffix-append, trim_prefix-append, trim_suffix-append,
}
use cachy.Text.Space.{fields, fields_func}
use cachy.Text.Decimal.{print_nat, print_int}
use cachy.Text.Decimal.RoundTrip.{length-print_nat, IsDigit, print_nat-IsDigit, atoi-print_nat}
use cachy.Ccr.Marker.{
  Address, Marker, is_valid_address, is_hex, is_hex_digit, format_marker, marker_prefix,
  marker_suffix, marker_version, marker_inner, render_marker, parse_fields, parse_marker,
  or_invalid,
}
use cachy.Ccr.Marker.Words.{IsWordByte, fields_from-first, fields_from-last}

-- The parts of a valid address.
record IsAddress (a : Address) : Type 0 where
  pub algorithm_is : a.algorithm ≡ codes "sha256"
  pub hex_length : length a.hex ≡ 64
  pub hex_digits : all is_hex_digit a.hex ≡ true
  pub size : ℕ
  pub size_is : a.bytes ≡ pos size

is_valid_address-IsAddress : (a : Address) → is_valid_address a ≡ true → IsAddress a
unfolding is_valid_address is_hex
is_valid_address-IsAddress a h = ground (arith, equal_iff a.algorithm (codes "sha256"))

is_hex_digit-IsWordByte : (c : ℕ) → is_hex_digit c ≡ true → IsWordByte c
unfolding is_hex_digit
is_hex_digit-IsWordByte c h = ground arith

all_hex-IsWordByte : (s : Bytes) → all is_hex_digit s ≡ true → All IsWordByte s
all_hex-IsWordByte [] h = tt
all_hex-IsWordByte (c ∷ s) h = ground (arith, is_hex_digit-IsWordByte c, all_hex-IsWordByte s)

digits-IsWordByte : (s : Bytes) → All IsDigit s → All IsWordByte s
digits-IsWordByte [] h = tt
digits-IsWordByte (c ∷ s) h = ((omega arith, omega arith), digits-IsWordByte s h.1)

-- The three words of a marker.
abbrev hash_word : Bytes → Bytes
hash_word hex = codes "sha256:" ++ hex

abbrev size_word : Bytes → Bytes
size_word digits = codes "bytes:" ++ digits

fields-words :
    (hash size : Bytes)
    → All IsWordByte hash
    → All IsWordByte size
    → hash ≢ []
    → size ≢ []
    → fields (marker_version ++ (b' ' ∷ (hash ++ (b' ' ∷ size))))
      ≡ marker_version ∷ hash ∷ size ∷ []
unfolding fields fields_func
fields-words hash size h s hn sn =
    fields_from-first marker_version (hash ++ (b' ' ∷ size)) (λ e. cc) (omega arith)
    ∙ ap (◌∷◌ marker_version)
        (fields_from-first hash size hn h ∙ ap (◌∷◌ hash) (fields_from-last size sn s))

-- A valid address is parsed from the three words.
parse_fields-words :
    (a : Address) (n : ℕ)
    → is_valid_address a ≡ true
    → a.algorithm ≡ codes "sha256"
    → a.bytes ≡ pos n
    → n < 2 ^ 63
    → parse_fields (marker_version ∷ hash_word a.hex ∷ size_word (print_nat n) ∷ [])
      ≡ ok (record { version = marker_version; address = a })
unfolding parse_fields or_invalid equal cut find has_prefix
parse_fields-words a n v al by lt =
    let e : record { algorithm = codes "sha256"; hex = a.hex; bytes = pos n } ≡ a =
      λ i. record { algorithm = sym al i; hex = a.hex; bytes = sym by i } in
    rw (atoi-print_nat n lt) (rw e (rw v))

marker_inner-words :
    (a : Address) (n : ℕ)
    → a.algorithm ≡ codes "sha256"
    → a.bytes ≡ pos n
    → marker_inner a
      ≡ marker_version ++ (b' ' ∷ (hash_word a.hex ++ (b' ' ∷ size_word (print_nat n))))
unfolding print_int
marker_inner-words a n al by = λ i.
    marker_version
    ++ (codes " " ++ (al i ++ (codes ":" ++ (a.hex ++ (codes " bytes:" ++ print_int (by i))))))

-- Between its prefix and its suffix a text that is not too long is parsed by its fields.
parse_marker-fields :
    (inner : Bytes)
    → ltb 128 (length (marker_prefix ++ (inner ++ marker_suffix))) ≡ false
    → parse_marker (marker_prefix ++ (inner ++ marker_suffix)) ≡ parse_fields (fields inner)
unfolding parse_marker
parse_marker-fields inner short = ground (
  arith,
  short,
  has_prefix-append marker_prefix (inner ++ marker_suffix),
  has_suffix-append (marker_prefix ++ inner) marker_suffix,
  trim_prefix-append marker_prefix (inner ++ marker_suffix),
  trim_suffix-append inner marker_suffix,
)

module _ (a : Address) (m : Bytes) (rendered : render_marker a ≡ ok m) where
  rendered_valid : is_valid_address a ≡ true
  unfolding render_marker
  rendered_valid = ground arith

  rendered_is : m ≡ format_marker a
  unfolding render_marker
  rendered_is = ground arith

  rendered_short : ltb 128 (length (format_marker a)) ≡ false
  unfolding render_marker
  rendered_short = ground arith

  -- `ParseMarker` reads back the address that `RenderMarker` wrote, if its size fits an `int`.
  pub parse-render :
      IsInt64 a.bytes → parse_marker m ≡ ok (record { version = marker_version; address = a })
  parse-render fits =
      let v = is_valid_address-IsAddress a rendered_valid in
      let digits = print_nat-IsDigit v.size in
      ap parse_marker rendered_is
      ∙ unfold format_marker in
        parse_marker-fields (marker_inner a) rendered_short
        ∙ ap (λ (t : Bytes). parse_fields (fields t))
            (marker_inner-words a v.size v.algorithm_is v.size_is)
        ∙ ap parse_fields (
            fields-words (hash_word a.hex) (size_word (print_nat v.size))
              (All-append IsWordByte (codes "sha256:") a.hex (omega arith)
                (all_hex-IsWordByte a.hex v.hex_digits))
              (All-append IsWordByte (codes "bytes:") _ (omega arith)
                (digits-IsWordByte _ digits.0))
              (λ e. cc) (λ e. cc))
        ∙ parse_fields-words a v.size rendered_valid v.algorithm_is v.size_is
            (omega (arith, ap pos_part v.size_is))

-- What `ParseMarker` accepts is a valid address.
parse_fields-valid :
    (fs : List Bytes) (m : Marker)
    → parse_fields fs ≡ ok m
    → (is_valid_address m.address ≡ true) × (m.version ≡ marker_version)
unfolding parse_fields or_invalid
parse_fields-valid (x ∷ y ∷ z ∷ []) m h = ground arith
parse_fields-valid _ m h = cc

-- A marker that `ParseMarker` accepts has at most 128 bytes, stands between the prefix and the
-- suffix, and has a valid address and the version `v1`.
parse_marker-valid :
    (text : Bytes) (m : Marker)
    → parse_marker text ≡ ok m
    → (is_valid_address m.address ≡ true)
      × (m.version ≡ marker_version)
      × (length text ≤ 128)
      × (has_prefix text marker_prefix ≡ true)
      × (has_suffix text marker_suffix ≡ true)
unfolding parse_marker
parse_marker-valid text m h = ground (
  arith,
  parse_fields-valid (fields (trim_suffix (trim_prefix text marker_prefix) marker_suffix)) m,
)

length-words :
    (hex digits : Bytes)
    → length (
        marker_prefix
        ++ ((marker_version ++ (b' ' ∷ (hash_word hex ++ (b' ' ∷ size_word digits))))
            ++ marker_suffix))
      ≡ 31 + length hex + length digits
length-words hex digits = omega (
  arith,
  length-append (hex ++ (b' ' ∷ size_word digits)) marker_suffix,
  length-append hex (b' ' ∷ size_word digits),
)

length-format_marker :
    (a : Address) → IsAddress a → IsInt64 a.bytes → length (format_marker a) ≤ 128
unfolding format_marker
length-format_marker a v fits =
    let total =
      ap (λ (t : Bytes). length (marker_prefix ++ (t ++ marker_suffix)))
        (marker_inner-words a v.size v.algorithm_is v.size_is)
      ∙ length-words a.hex (print_nat v.size) in
    let small : v.size < 2 ^ 63 = omega (arith, ap pos_part v.size_is) in
    omega (arith, total, v.hex_length, length-print_nat v.size 18 (omega arith))

-- Every valid address whose size an `int` holds is rendered: its marker is never too long.
render_total :
    (a : Address)
    → is_valid_address a ≡ true
    → IsInt64 a.bytes
    → (m : Bytes) × (render_marker a ≡ ok m) × (length m ≤ 128)
unfolding render_marker
render_total a v fits =
    let short = length-format_marker a (is_valid_address-IsAddress a v) fits in
    (format_marker a, ground arith, short)
