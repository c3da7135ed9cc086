-- ===== src/Text/Decimal/RoundTrip.antt =====
-- Reading back a printed number.
use mathlib.Core.WellFounded.{Acc}
use mathlib.Core.Logic.{dite}
use mathlib.Core.List.{concat-ne-nil}
use native.Mathlib.Nat.{pow-suc}
use native.Mathlib.Decide.{dec_lt}
use cachy.Base.{
  zero, suc, length, length-append, ℕ, ◌+◌, ◌-◌, ◌*◌, ◌/◌, ◌%◌, ◌^◌, ◌<◌, ◌≤◌, ◌≡◌, ◌≢◌, refl, ap,
  ◌∙◌, some, [], ◌∷◌, ◌++◌, arith, All, All-append,
}
use cachy.Base.Int.{pos}
use cachy.Text.Strings.{Bytes}
use cachy.Text.Decimal.{lt_wf, tenth_lt, digits_acc, print_nat, scan, scan_some, atoi}

-- A decimal digit.
abbrev pub IsDigit : ℕ → Type 0
IsDigit c = (b'0' ≤ c) × (c ≤ b'9')

scan-append : (s t : Bytes) (n m : ℕ) → scan s n ≡ some m → scan (s ++ t) n ≡ scan t m
unfolding scan
scan-append [] t n m h = ground arith
scan-append (c ∷ s) t n m h = ground (arith, scan-append s t (n * 10 + (c - b'0')) m)

scan-digit : (d n : ℕ) → d < 10 → scan ((b'0' + d) ∷ []) n ≡ some (n * 10 + d)
unfolding scan
scan-digit d n h = ground arith

-- One round of `digits_acc`, over the function that it calls for a smaller number.
digits_step : (n : ℕ) → ((m : ℕ) → m < n → Bytes) → Dec (9 < n) → Bytes
digits_step n rec d =
    dite d (λ h. rec (n / 10) (tenth_lt h) ++ (b'0' + n % 10) ∷ []) (λ _. (b'0' + n) ∷ [])

scan-digits_step :
    (n : ℕ) (rec : (m : ℕ) → m < n → Bytes) (d : Dec (9 < n))
    → ((m : ℕ) (lt : m < n) → scan (rec m lt) 0 ≡ some m)
    → scan (digits_step n rec d) 0 ≡ some n
unfolding digits_step
scan-digits_step n rec (yes h) ih =
    scan-append (rec (n / 10) (tenth_lt h)) _ 0 (n / 10) (ih (n / 10) (tenth_lt h))
    ∙ scan-digit (n % 10) (n / 10) (omega arith)
    ∙ ap some (omega arith)
scan-digits_step n rec (no h) ih = scan-digit n 0 (omega arith) ∙ ap some (omega arith)

-- From zero the digits of `n` scan to `n`.
scan-digits_acc : (n : ℕ) (w : Acc ◌<◌ n) → scan (digits_acc n w) 0 ≡ some n
unfolding digits_acc digits_step
scan-digits_acc n (Acc.intro _ smaller) =
    scan-digits_step n (λ m lt. digits_acc m (smaller m lt)) (dec_lt 9 n)
      (λ m lt. scan-digits_acc m (smaller m lt))

digits_step-IsDigit :
    (n : ℕ) (rec : (m : ℕ) → m < n → Bytes) (d : Dec (9 < n))
    → ((m : ℕ) (lt : m < n) → All IsDigit (rec m lt) × (rec m lt ≢ []))
    → All IsDigit (digits_step n rec d) × (digits_step n rec d ≢ [])
unfolding digits_step
digits_step-IsDigit n rec (yes h) ih = (
  All-append IsDigit _ _ (ih (n / 10) (tenth_lt h)).0 ((omega arith, omega arith), tt),
  concat-ne-nil _ (rec (n / 10) (tenth_lt h)),
)
digits_step-IsDigit n rec (no h) ih = (((omega arith, omega arith), tt), λ e. cc)

digits_acc-IsDigit : (n : ℕ) (w : Acc ◌<◌ n) → All IsDigit (digits_acc n w) × (digits_acc n w ≢ [])
unfolding digits_acc digits_step
digits_acc-IsDigit n (Acc.intro _ smaller) =
    digits_step-IsDigit n (λ m lt. digits_acc m (smaller m lt)) (dec_lt 9 n)
      (λ m lt. digits_acc-IsDigit m (smaller m lt))

-- A printed number consists of digits, at least one.
pub print_nat-IsDigit : (n : ℕ) → All IsDigit (print_nat n) × (print_nat n ≢ [])
unfolding print_nat
print_nat-IsDigit n = digits_acc-IsDigit n (lt_wf.apply n)

scan-some-print_nat : (n : ℕ) → scan (print_nat n) 0 ≡ some n
unfolding print_nat
scan-some-print_nat n = scan-digits_acc n (lt_wf.apply n)

atoi-digits :
    (s : Bytes) (n : ℕ)
    → s ≢ []
    → All IsDigit s
    → scan s 0 ≡ some n
    → n < 2 ^ 63
    → atoi s ≡ some (pos n)
unfolding atoi scan_some
atoi-digits [] n ne h e lt = absurd (ne refl)
atoi-digits (c ∷ s) n ne h e lt = ground arith

-- `Atoi` reads back what `%d` prints of a number that an `int` holds.
pub atoi-print_nat : (n : ℕ) → n < 2 ^ 63 → atoi (print_nat n) ≡ some (pos n)
atoi-print_nat n lt =
    atoi-digits (print_nat n) n (print_nat-IsDigit n).1 (print_nat-IsDigit n).0
      (scan-some-print_nat n) lt

digits_step-length :
    (n k : ℕ) (rec : (m : ℕ) → m < n → Bytes) (d : Dec (9 < n))
    → ((m j : ℕ) (lt : m < n) → m < 10 ^ suc j → length (rec m lt) ≤ suc j)
    → n < 10 ^ suc k
    → length (digits_step n rec d) ≤ suc k
unfolding digits_step
digits_step-length n zero rec (yes h) ih lt = absurd (omega arith)
digits_step-length n (suc k) rec (yes h) ih lt = omega (
  arith,
  length-append (rec (n / 10) (tenth_lt h)) ((b'0' + n % 10) ∷ []),
  ih (n / 10) k (tenth_lt h) (omega (arith, pow-suc 10 (suc k))),
)
digits_step-length n zero rec (no h) ih lt = omega arith
digits_step-length n (suc k) rec (no h) ih lt = omega arith

digits_acc-length : (n k : ℕ) (w : Acc ◌<◌ n) → n < 10 ^ suc k → length (digits_acc n w) ≤ suc k
unfolding digits_acc digits_step
digits_acc-length n k (Acc.intro _ smaller) lt =
    digits_step-length n k (λ m l. digits_acc m (smaller m l)) (dec_lt 9 n)
      (λ m j l. digits_acc-length m j (smaller m l)) lt

-- A number below a power of ten has at most that many digits.
pub length-print_nat : (n k : ℕ) → n < 10 ^ suc k → length (print_nat n) ≤ suc k
unfolding print_nat
length-print_nat n k = digits_acc-length n k (lt_wf.apply n)
