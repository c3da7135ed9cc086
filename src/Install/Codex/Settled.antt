-- ===== src/Install/Codex/Settled.antt =====
-- The line ends at the end of a text: what trimming them keeps.
use cachy.Base.{
  ℕ, ◌≡◌, refl, ap, ◌∙◌, sym, Bool, true, false, ◌&&◌, [], ◌∷◌, ◌++◌, arith, if◌then◌else◌, is_nil,
  any, all, ltb, append-nil, append_assoc,
}
use cachy.Text.{Bytes, codes, trim_right, split, split_from, has_prefix}
use cachy.Text.Space.{trim_space, is_space}
use cachy.Text.Space.Ends.{trim_space-snoc}
use cachy.Install.Codex.{
  is_line_end, trailing_newline, sets_model_provider, has_top_level_model_provider,
}

-- The bytes at the end that `trim_right` takes away.
pub ends : (ℕ → Bool) → Bytes → Bytes
ends p [] = []
ends p (c ∷ s) = if is_nil (trim_right p s) && p c then c ∷ s else ends p s

module _ (p : ℕ → Bool) where
  pub trim_right-ends : (s : Bytes) → trim_right p s ++ ends p s ≡ s
  unfolding trim_right ends
  trim_right-ends [] = refl
  trim_right-ends (c ∷ s) = ground (arith, trim_right-ends s)

  ends-all : (s : Bytes) → all p (ends p s) ≡ true
  unfolding trim_right ends
  ends-all [] = refl
  ends-all (c ∷ s) = ground (arith, ends-all s, all_of_trim s)
    where
      all_of_trim : (s : Bytes) → trim_right p s ≡ [] → all p s ≡ true
      all_of_trim [] h = refl
      all_of_trim (c ∷ s) h = ground (arith, all_of_trim s)

  trim_right-all : (s : Bytes) → all p s ≡ true → trim_right p s ≡ []
  unfolding trim_right
  trim_right-all [] h = refl
  trim_right-all (c ∷ s) h = ground (arith, trim_right-all s)

  trim_right-append : (s e : Bytes) → all p e ≡ true → trim_right p (s ++ e) ≡ trim_right p s
  unfolding trim_right
  trim_right-append [] e h = trim_right-all e h
  trim_right-append (c ∷ s) e h = rw (trim_right-append s e h) refl

  -- What holds through line ends at the end holds through their trimming.
  trim_right-trim_right : (s : Bytes) → trim_right p (trim_right p s) ≡ trim_right p s
  trim_right-trim_right s =
      sym (trim_right-append (trim_right p s) (ends p s) (ends-all s))
      ∙ ap (trim_right p) (trim_right-ends s)

line_end-space : (c : ℕ) → is_line_end c ≡ true → is_space c ≡ true
unfolding is_space
line_end-space c h = ground arith

line_end-ascii : (c : ℕ) → is_line_end c ≡ true → ltb c 0x80 ≡ true
line_end-ascii c h = ground arith

-- A function that one line end at the end does not change is not changed by all of them.
module _ {ℓ} {B : Type ℓ} (f : Bytes → B)
    (step : (s : Bytes) (c : ℕ) → is_line_end c ≡ true → f (s ++ c ∷ []) ≡ f s) where
  through_ends : (e s : Bytes) → all is_line_end e ≡ true → f (s ++ e) ≡ f s
  through_ends [] s h = rw append-nil refl
  through_ends (c ∷ e) s h =
      let parts : (is_line_end c ≡ true) × (all is_line_end e ≡ true) = ground arith in
      ap f (sym (append_assoc s (c ∷ []) e))
      ∙ through_ends e (s ++ c ∷ []) parts.1
      ∙ step s c parts.0

  through_trim_right : (s : Bytes) → f (trim_right is_line_end s) ≡ f s
  through_trim_right s =
      sym (through_ends (ends is_line_end s) (trim_right is_line_end s) (ends-all is_line_end s))
      ∙ ap f (trim_right-ends is_line_end s)

trim_space-line_end :
    (s : Bytes) (c : ℕ) → is_line_end c ≡ true → trim_space (s ++ c ∷ []) ≡ trim_space s
trim_space-line_end s c h = trim_space-snoc s c (line_end-ascii c h) (line_end-space c h)

trailing_newline-line_end :
    (s : Bytes) (c : ℕ) → is_line_end c ≡ true → trailing_newline (s ++ c ∷ []) ≡ trailing_newline s
unfolding trailing_newline
trailing_newline-line_end s c h = rw (trim_space-line_end s c h) refl

sets_model_provider-line_end :
    (s : Bytes) (c : ℕ)
    → is_line_end c ≡ true
    → sets_model_provider (s ++ c ∷ []) ≡ sets_model_provider s
unfolding sets_model_provider
sets_model_provider-line_end s c h = rw (trim_space-line_end s c h) refl

sets_model_provider-nil : sets_model_provider [] ≡ false
unfolding sets_model_provider trim_space
sets_model_provider-nil = refl

any-line_end :
    (s cur : Bytes) (c : ℕ)
    → is_line_end c ≡ true
    → any sets_model_provider (split_from (codes "\n") 0 (s ++ c ∷ []) cur)
      ≡ any sets_model_provider (split_from (codes "\n") 0 s cur)
unfolding split_from has_prefix
any-line_end [] cur c h =
    ground (arith, sets_model_provider-line_end cur c h, sets_model_provider-nil)
any-line_end (x ∷ s) cur c h =
    ground (arith, any-line_end s [] c h, any-line_end s (cur ++ x ∷ []) c h)

has_top_level-line_end :
    (s : Bytes) (c : ℕ)
    → is_line_end c ≡ true
    → has_top_level_model_provider (s ++ c ∷ []) ≡ has_top_level_model_provider s
unfolding has_top_level_model_provider split
has_top_level-line_end s c h = any-line_end s [] c h

-- The text without the line ends at its end, and one line feed behind it, if it is not blank.
abbrev pub settled : Bytes → Bytes
settled s = trim_right is_line_end s ++ trailing_newline s

trailing_newline-all : (s : Bytes) → all is_line_end (trailing_newline s) ≡ true
unfolding trailing_newline
trailing_newline-all s = ground arith

pub trim_right-settled : (s : Bytes) → trim_right is_line_end (settled s) ≡ trim_right is_line_end s
trim_right-settled s =
    trim_right-append is_line_end (trim_right is_line_end s) (trailing_newline s)
      (trailing_newline-all s)
    ∙ trim_right-trim_right is_line_end s

pub has_top_level-settled :
    (s : Bytes) → has_top_level_model_provider (settled s) ≡ has_top_level_model_provider s
has_top_level-settled s =
    through_ends has_top_level_model_provider has_top_level-line_end (trailing_newline s)
      (trim_right is_line_end s) (trailing_newline-all s)
    ∙ through_trim_right has_top_level_model_provider has_top_level-line_end s

-- Behind the text and two line feeds, nothing of them remains.
pub joined_settled :
    (s : Bytes)
    → trim_right is_line_end (trim_right is_line_end s ++ codes "\n\n")
        ++ trailing_newline (trim_right is_line_end s ++ codes "\n\n")
      ≡ settled s
joined_settled s =
    rw
      (
        trim_right-append is_line_end (trim_right is_line_end s) (codes "\n\n") refl,
        trim_right-trim_right is_line_end s,
        through_ends trailing_newline trailing_newline-line_end (codes "\n\n")
            (trim_right is_line_end s) refl,
        through_trim_right trailing_newline trailing_newline-line_end s,
      )
      refl

trailing_newline-nil : trailing_newline [] ≡ []
unfolding trailing_newline trim_space
trailing_newline-nil = refl

pub settled-nil : (s : Bytes) → trim_right is_line_end s ≡ [] → settled s ≡ []
settled-nil s h =
    rw
      (
        h,
        sym (through_trim_right trailing_newline trailing_newline-line_end s),
        h,
        trailing_newline-nil,
      )
      refl
