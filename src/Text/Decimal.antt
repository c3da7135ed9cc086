-- ===== src/Text/Decimal.antt =====
-- `%d` and strconv.Atoi.
pub mod RoundTrip
use mathlib.Core.Logic.{dite}
use mathlib.Core.WellFounded.{Acc, WellFounded}
use native.Mathlib.Decide.{dec_lt}
use cachy.Base.{
  ℕ, zero, suc, ◌+◌, ◌-◌, ◌*◌, ◌/◌, ◌%◌, ◌^◌, ◌<◌, ◌||◌, Option, none, some, [], ◌∷◌, ◌++◌, arith,
  ltb, leb, ◌==◌, if◌then◌else◌,
}
use cachy.Base.Int.{ℤ, pos, negsuc}
use cachy.Text.Strings.{Bytes}

Acc-below : (k n : ℕ) → n < k → Acc ◌<◌ n
Acc-below zero n h = elim h [ ]
Acc-below (suc k) n h = Acc.intro n (λ m hm. Acc-below k m (omega arith))

lt_wf : WellFounded ◌<◌
unfolding Acc-below
lt_wf = record { apply = λ n. Acc-below (suc n) n (omega arith) }

pub tenth_lt : {n : ℕ} → 9 < n → n / 10 < n
tenth_lt h = omega arith

-- The digits of `n`, the last one behind the others.
digits_acc : (n : ℕ) → Acc ◌<◌ n → Bytes
digits_acc n (Acc.intro _ smaller) =
    dite (dec_lt 9 n)
      (λ h. digits_acc (n / 10) (smaller (n / 10) (tenth_lt h)) ++ (b'0' + n % 10) ∷ [])
      (λ _. (b'0' + n) ∷ [])

-- fmt.Sprintf("%d", n) of a number that is not negative
unfoldable pub print_nat : ℕ → Bytes
unfolding digits_acc lt_wf dec_lt
print_nat n = digits_acc n (lt_wf.apply n)

unfoldable pub print_int : ℤ → Bytes
unfolding print_nat
print_int (pos n) = print_nat n
print_int (negsuc n) = b'-' ∷ print_nat (suc n)

-- One digit more.
unfoldable pub scan : Bytes → ℕ → Option ℕ
scan [] n = some n
scan (c ∷ s) n = if ltb c b'0' || ltb b'9' c then none else scan s (n * 10 + (c - b'0'))

-- The digits without their sign: at least one of them.
unfoldable pub scan_some : Bytes → Option ℕ
unfolding scan
scan_some [] = none
scan_some (c ∷ s) = scan (c ∷ s) 0

abbrev negate : ℕ → ℤ
negate zero = pos 0
negate (suc n) = negsuc n

-- strconv.Atoi: a sign, then decimal digits, in the range of an `int`
unfoldable pub atoi : Bytes → Option ℤ
unfolding scan_some
atoi [] = none
atoi (c ∷ s) =
    if c == b'-'
    then elim (scan_some s) [
      | none ↦ none
      | some n ↦ if leb n (2 ^ 63) then some (negate n) else none
    ]
    else elim (scan_some (if c == b'+' then s else c ∷ s)) [
      | none ↦ none
      | some n ↦ if ltb n (2 ^ 63) then some (pos n) else none
    ]
