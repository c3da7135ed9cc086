-- ===== src/Ccr/Marker/Words.antt =====
-- The fields of a text of printable ASCII words.
use cachy.Base.{
  ◌≢◌, ℕ, ◌≤◌, ◌<◌, ◌≡◌, refl, ap, sym, ◌∙◌, false, [], ◌∷◌, ◌++◌, arith, All, append-nil,
  append_assoc,
}
use cachy.Text.{Bytes}
use cachy.Text.Utf8.{runes, runes_from, decode}
use cachy.Text.Space.{is_space, fields_from}

-- A printable ASCII byte that is not a space.
abbrev pub IsWordByte : ℕ → Type 0
IsWordByte c = (33 ≤ c) × (c < 127)

decode-ascii : (c : ℕ) (s : Bytes) → c < 128 → decode c s ≡ record { value = c; width = 1 }
unfolding decode
decode-ascii c s h = ground arith

runes-ascii :
    (c : ℕ) (s : Bytes) → c < 128 → runes (c ∷ s) ≡ record { value = c; raw = c ∷ [] } ∷ runes s
unfolding runes runes_from
runes-ascii c s h = rw (decode-ascii c s h)

is_space-word : (c : ℕ) → IsWordByte c → is_space c ≡ false
unfolding is_space
is_space-word c h = ground arith

-- A word is read into the current field.
fields_from-word :
    (w s cur : Bytes)
    → All IsWordByte w
    → fields_from is_space (runes (w ++ s)) cur ≡ fields_from is_space (runes s) (cur ++ w)
unfolding fields_from
fields_from-word [] s cur h = ap (fields_from is_space (runes s)) (sym (append-nil cur))
fields_from-word (c ∷ w) s cur h = rw (runes-ascii c (w ++ s) (omega arith)) (
    rw (is_space-word c h.0, fields_from)
      (fields_from-word w s (cur ++ c ∷ []) h.1
        ∙ ap (fields_from is_space (runes s)) (append_assoc cur (c ∷ []) w)))

-- A space ends the current field.
fields_from-space :
    (x : ℕ) (s cur : Bytes)
    → fields_from is_space (runes (b' ' ∷ s)) (x ∷ cur)
      ≡ (x ∷ cur) ∷ fields_from is_space (runes s) []
unfolding fields_from is_space
fields_from-space x s cur = rw (runes-ascii b' ' s (omega arith))

fields_from-end : (x : ℕ) (cur : Bytes) → fields_from is_space (runes []) (x ∷ cur) ≡ (x ∷ cur) ∷ []
unfolding fields_from runes runes_from
fields_from-end x cur = refl

-- A word and a space in front of a text are its first field.
pub fields_from-first :
    (w s : Bytes)
    → w ≢ []
    → All IsWordByte w
    → fields_from is_space (runes (w ++ (b' ' ∷ s))) [] ≡ w ∷ fields_from is_space (runes s) []
fields_from-first [] s ne h = absurd (ne refl)
fields_from-first (c ∷ w) s ne h =
    fields_from-word (c ∷ w) (b' ' ∷ s) [] h ∙ fields_from-space c s w

-- A word alone is the only field.
pub fields_from-last :
    (w : Bytes) → w ≢ [] → All IsWordByte w → fields_from is_space (runes w) [] ≡ w ∷ []
fields_from-last [] ne h = absurd (ne refl)
fields_from-last (c ∷ w) ne h =
    ap (λ (t : Bytes). fields_from is_space (runes t) []) (sym (append-nil (c ∷ w)))
    ∙ fields_from-word (c ∷ w) [] [] h
    ∙ fields_from-end c w
