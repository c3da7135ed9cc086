-- ===== src/Tokens/Tests.antt =====
-- Runs of the token counts.
use cachy.Base.{◌≡◌, refl, true, false, Option, some, length, ok}
use cachy.Base.Int.{◌-ℤ◌, wrap64, pos}
use cachy.Text.{equal, codes}
use cachy.Text.Ascii.{plain_tables}
use cachy.Tokens.{
  ProviderModel, CounterSet, Counter, new_counter_set, register_exact, estimate, count, savings,
}

estimate_run : (estimate plain_tables (codes "one two")).tokens ≡ pos 2
unfolding estimate
estimate_run = refl

-- Counts bytes.
abbrev by_bytes : Counter
by_bytes text = ok (record { tokens = pos (length text); exact = false; method = codes "bytes" })

abbrev counters : Option CounterSet
counters = register_exact (some new_counter_set) (codes "openai") (codes "gpt") (some by_bytes)

abbrev gpt : ProviderModel
gpt = record { provider = codes "openai"; model = codes "gpt" }

savings_run :
    savings plain_tables counters gpt (codes "aaaaa") (codes "aa")
    ≡ ok (record {
      original = record { tokens = pos 5; exact = true; method = codes "bytes" };
      proposed = record { tokens = pos 2; exact = true; method = codes "bytes" };
      delta = pos 3;
      improved = true;
    })
unfolding savings register_exact count equal wrap64 ◌-ℤ◌
savings_run = refl
