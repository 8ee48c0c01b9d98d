-- ===== src/Text/Decimal.antt =====
-- `to_string` of an unsigned integer, and `parse` of what it prints.
use logfence.Prelude.{
  ℕ, zero, suc, ◌+◌, ◌-◌, ◌*◌, ◌/◌, ◌%◌, ◌≤◌, ◌<◌, [], ◌∷◌, ◌++◌, ◌≡◌, ◌≢◌, refl, ◌∙◌, arith, some,
  Bytes, All, All-append, ltb, inl, inr, Bool-cases, ltb→lt, Lacks, All-imp, length, length-append,
  ◌^◌, lt→ltb,
}
use native.Mathlib.Nat.{pow-suc}
use mathlib.Core.List.{concat-ne-nil}
use logfence.Text.{scan_radix, from_str_radix, decimal_on, decimal}

abbrev pub IsDigit : ℕ → Type 0
IsDigit c = (b'0' ≤ c) × (c ≤ b'9')

decimal_on-IsDigit : (f n : ℕ) → All IsDigit (decimal_on f n)
unfolding decimal_on
decimal_on-IsDigit zero n = tt
decimal_on-IsDigit (suc f) n = elim (Bool-cases (ltb n 10)) [
  | inl small ↦ rw small ((omega arith, omega (arith, ltb→lt n 10 small)), tt)
  | inr large ↦ rw large (
      All-append IsDigit (decimal_on f (n / 10)) _ (decimal_on-IsDigit f (n / 10))
        ((omega arith, omega arith), tt))
]

pub decimal-IsDigit : (n : ℕ) → All IsDigit (decimal n)
unfolding decimal
decimal-IsDigit n = decimal_on-IsDigit (suc n) n

-- A print holds no byte that is not a digit.
pub decimal-Lacks : (n d : ℕ) → ¬ IsDigit d → Lacks d (decimal n)
decimal-Lacks n d h =
    All-imp IsDigit (λ c. c ≢ d) (λ c k e. h (omega arith, omega arith)) (decimal n)
      (decimal-IsDigit n)

-- The scan of `a` and then of `b`, if that of `a` gave `n`.
scan_radix-append :
    (max n m : ℕ) (a b : Bytes)
    → scan_radix 10 max a n ≡ some m
    → scan_radix 10 max (a ++ b) n ≡ scan_radix 10 max b m
unfolding scan_radix
scan_radix-append max n m [] b h = ground arith
scan_radix-append max n m (c ∷ a) b h =
    ground (arith, scan_radix-append max (n * 10 + (c - b'0')) m a b)

scan_last : (max n : ℕ) → n ≤ max → scan_radix 10 max ((b'0' + n % 10) ∷ []) (n / 10) ≡ some n
unfolding scan_radix
scan_last max n h = ground arith

scan-decimal_on : (max f n : ℕ) → n < f → n ≤ max → scan_radix 10 max (decimal_on f n) 0 ≡ some n
unfolding decimal_on
scan-decimal_on max zero n h k = absurd (omega arith)
scan-decimal_on max (suc f) n h k = elim (Bool-cases (ltb n 10)) [
  | inl small ↦ rw small (let lt = ltb→lt n 10 small in unfold scan_radix in ground arith)
  | inr large ↦ rw large (
      scan_radix-append max 0 (n / 10) (decimal_on f (n / 10)) _
        (scan-decimal_on max f (n / 10) (ground arith) (omega arith))
      ∙ scan_last max n k)
]

-- Digits carry no sign to take off.
from_str_radix-digits :
    (max : ℕ) (s : Bytes) → s ≢ [] → All IsDigit s → from_str_radix 10 max s ≡ scan_radix 10 max s 0
unfolding from_str_radix
from_str_radix-digits max [] ne h = absurd (ne refl)
from_str_radix-digits max (c ∷ s) ne (hc, hs) = ground arith

pub decimal-ne-nil : (n : ℕ) → decimal n ≢ []
unfolding decimal decimal_on
decimal-ne-nil n = elim (Bool-cases (ltb n 10)) [
  | inl small ↦ rw small (λ e. cc)
  | inr large ↦ rw large (concat-ne-nil _ (decimal_on n (n / 10)))
]

-- Every number that the type holds is read back from its print.
pub from_str_radix-decimal : (max n : ℕ) → n ≤ max → from_str_radix 10 max (decimal n) ≡ some n
from_str_radix-decimal max n h =
    from_str_radix-digits max (decimal n) (decimal-ne-nil n) (decimal-IsDigit n)
    ∙ unfold decimal in scan-decimal_on max (suc n) n (omega arith) h

-- A number below `10 ^ k` has at most `k` digits.
length-decimal_on : (f k n : ℕ) → n < 10 ^ suc k → length (decimal_on f n) ≤ suc k
unfolding decimal_on
length-decimal_on zero k n h = omega arith
length-decimal_on (suc f) zero n h = rw (lt→ltb n 10 h) (omega arith)
length-decimal_on (suc f) (suc k) n h = elim (Bool-cases (ltb n 10)) [
  | inl small ↦ rw small (omega arith)
  | inr large ↦ rw large (
      omega (
        arith,
        length-append (decimal_on f (n / 10)) ((b'0' + n % 10) ∷ []),
        length-decimal_on f k (n / 10) (omega (arith, pow-suc 10 (suc k))),
      ))
]

pub length-decimal : (n : ℕ) → n < 2 ^ 64 → length (decimal n) ≤ 20
unfolding decimal
length-decimal n h = length-decimal_on (suc n) 19 n (omega arith)
