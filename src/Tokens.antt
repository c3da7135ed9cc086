-- ===== src/Tokens.antt =====
-- internal/tokens/counter.go: token counts, exact by a registered counter or estimated from the
-- text. `none` stands for a nil *CounterSet; the registered counters are a list, the last one first.
mod Tests
use cachy.Base.{
  ℕ, ◌+◌, ◌/◌, max, Bool, true, false, not, ◌&&◌, ◌||◌, Option, none, some, List, [], ◌∷◌, ◌++◌,
  if◌then◌else◌, length, keep, is_nil, Result, ok, ◌>>=◌,
}
use cachy.Base.Int.{ℤ, pos, ltb_ℤ, ◌-ℤ◌, wrap64}
use cachy.Text.{Bytes, codes, equal}
use cachy.Text.Utf8.{Rune, runes, rune_count}
use cachy.Text.Space.{is_space, fields_func}
use cachy.Text.Ascii.{UnicodeTables}

-- The message of a Go error.
abbrev pub Error : Type 0
Error = Bytes

pub record ProviderModel : Type 0 where
  pub provider : Bytes
  pub model : Bytes

pub record Count : Type 0 where
  pub tokens : ℤ
  pub exact : Bool
  pub method : Bytes

pub record Savings : Type 0 where
  pub original : Count
  pub proposed : Count
  pub delta : ℤ
  pub improved : Bool

abbrev Counter : Type 0
Counter = Bytes → Result Error Count

pub record CounterSet : Type 0 where
  pub exact_counters : List (ProviderModel × Counter)

unfoldable pub new_counter_set : CounterSet
new_counter_set = record { exact_counters = [] }

register_exact : Option CounterSet → Bytes → Bytes → Option Counter → Option CounterSet
register_exact none provider model counter = none
register_exact (some s) provider model none = some s
register_exact (some s) provider model (some counter) = some (record {
  exact_counters = (record { provider = provider; model = model }, counter) ∷ s.exact_counters;
})

abbrev method_estimated : Bytes
method_estimated = codes "estimated"

count_words : UnicodeTables → Bytes → ℕ
unfolding fields_func is_space
count_words u text = length (fields_func text (λ r. is_space r || u.is_punct r || u.is_symbol r))

count_non_space : Bytes → ℕ
unfolding is_space runes
count_non_space text = length (keep (λ (r : Rune). not (is_space r.value)) (runes text))

count_punctuation : UnicodeTables → Bytes → ℕ
unfolding runes
count_punctuation u text =
    length (keep (λ (r : Rune). u.is_punct r.value || u.is_symbol r.value) (runes text))

-- Rounding up a quotient of float64 is exact below 2^53 runes.
estimate : UnicodeTables → Bytes → Count
unfolding count_words count_non_space count_punctuation rune_count
estimate u [] = record { tokens = pos 0; exact = false; method = method_estimated }
estimate u (c ∷ cs) =
    let text = c ∷ cs in
    let by_chars = (count_non_space text + 3) / 4 in
    let by_words = max (count_words u text + count_punctuation u text) by_chars in
    record {
      tokens = pos (max by_words ((rune_count text + 7) / 8));
      exact = false;
      method = method_estimated;
    }

lookup_counter : ProviderModel → List (ProviderModel × Counter) → Option Counter
lookup_counter pm [] = none
lookup_counter pm ((key, counter) ∷ rest) =
    let other = lookup_counter pm rest in
    if equal key.provider pm.provider && equal key.model pm.model then some counter else other

exact_count : ProviderModel → Count → Count
exact_count pm c = record c {
  exact = true;
  method = if is_nil c.method then pm.provider ++ codes "/" ++ pm.model else c.method;
}

count_with : UnicodeTables → ProviderModel → Bytes → Option Counter → Result Error Count
unfolding exact_count
count_with u pm text none = ok (estimate u text)
count_with u pm text (some counter) = do c ← counter text; ok (exact_count pm c)

count : UnicodeTables → Option CounterSet → ProviderModel → Bytes → Result Error Count
unfolding count_with lookup_counter
count u none pm text = ok (estimate u text)
count u (some s) pm text = count_with u pm text (lookup_counter pm s.exact_counters)

pub savings :
    UnicodeTables → Option CounterSet → ProviderModel → Bytes → Bytes → Result Error Savings
savings u s pm original proposed = do
  o ← count u s pm original
  p ← count u s pm proposed
  let delta = wrap64 (o.tokens -ℤ p.tokens)
  ok (record { original = o; proposed = p; delta = delta; improved = ltb_ℤ (pos 0) delta })
