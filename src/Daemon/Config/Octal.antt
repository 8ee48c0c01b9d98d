-- ===== src/Daemon/Config/Octal.antt =====
-- The texts that spell a mode in octal, and the reading of `socket_mode`.
use logfence.Prelude.{
  ℕ, ◌+◌, ◌-◌, ◌*◌, ◌≤◌, ◌&&◌, Bool, true, false, Bool-cases, [], ◌∷◌, ◌++◌, ◌≡◌, ◌≢◌, ◌⊎◌, ◌↔◌,
  inl, inr, refl, sym, ap, ◌∙◌, subst, arith, Option, none, some, Bytes, All, ltb, leb, ◌==◌,
  if◌then◌else◌,
}
use logfence.Text.{scan_radix, from_str_radix}
use logfence.Daemon.Config.{u32_max, trim_zeros, or_zero, socket_mode_bits}

abbrev pub IsOctalDigit : ℕ → Type 0
IsOctalDigit c = (b'0' ≤ c) × (c ≤ b'7')

-- The number that octal digits spell behind those that spell `n`.
abbrev pub octal_on : ℕ → Bytes → ℕ
octal_on n [] = n
octal_on n (c ∷ s) = octal_on (n * 8 + (c - b'0')) s

-- Octal digits, or none, that spell a number of 32 bits.
pub record Digits (s : Bytes) (n : ℕ) : Type 0 where
  pub digits : All IsOctalDigit s
  pub value : octal_on 0 s ≡ n
  pub word : n ≤ u32_max

-- Digits behind a plus sign, which may have zeros before it.
pub record Signed (s : Bytes) (n : ℕ) : Type 0 where
  pub zeros : Bytes
  pub behind : Bytes
  pub all_zeros : All (λ c. c ≡ b'0') zeros
  pub text : s ≡ zeros ++ b'+' ∷ behind
  pub some_digit : behind ≢ []
  pub spelled : Digits behind n

abbrev pub Spells : Bytes → ℕ → Type 0
Spells s n = Digits s n ⊎ Signed s n

if_some :
    (b : Bool) (r : Option ℕ) (m : ℕ) → (if b then r else none) ≡ some m → (b ≡ true) × (r ≡ some m)
if_some true r m h = (refl, h)
if_some false r m h = absurd (cc)

octal_on-ge : (n : ℕ) (s : Bytes) → n ≤ octal_on n s
octal_on-ge n [] = omega arith
octal_on-ge n (c ∷ s) = omega (arith, octal_on-ge (n * 8 + (c - b'0')) s)

scan_radix-spelled :
    (s : Bytes) (n m : ℕ)
    → n ≤ u32_max
    → scan_radix 8 u32_max s n ≡ some m
    → All IsOctalDigit s × (octal_on n s ≡ m) × (m ≤ u32_max)
unfolding scan_radix
scan_radix-spelled [] n m k h = let same : n ≡ m = cc in (tt, same, omega (arith, k, same))
scan_radix-spelled (c ∷ s) n m k h =
    let next = n * 8 + (c - b'0') in
    let (tests, rest) =
      if_some (leb b'0' c && ltb c (b'0' + 8) && leb next u32_max) (scan_radix 8 u32_max s next) m
        h in
    let digit : IsOctalDigit c = ground arith in
    let (digits, value, word) = scan_radix-spelled s next m (ground arith) rest in
    ((digit, digits), value, word)

scan_radix-octal :
    (s : Bytes) (n : ℕ)
    → All IsOctalDigit s
    → octal_on n s ≤ u32_max
    → scan_radix 8 u32_max s n ≡ some (octal_on n s)
unfolding scan_radix
scan_radix-octal [] n d k = refl
scan_radix-octal (c ∷ s) n (digit, digits) k =
    let next = n * 8 + (c - b'0') in
    let below : next ≤ u32_max = omega (arith, octal_on-ge next s, k) in
    let tests : (leb b'0' c && ltb c (b'0' + 8) && leb next u32_max) ≡ true =
      ground (arith, digit, below) in
    rw tests (scan_radix-octal s next digits k)

from_str_radix-scan :
    (c : ℕ) (s : Bytes)
    → c ≢ b'+'
    → from_str_radix 8 u32_max (c ∷ s) ≡ scan_radix 8 u32_max (c ∷ s) 0
unfolding from_str_radix
from_str_radix-scan c s h = elim (Bool-cases (c == b'+')) [
  | inl plus ↦ absurd (h (ground arith))
  | inr other ↦ rw other refl
]

from_str_radix-signed :
    (d : ℕ) (s : Bytes) → from_str_radix 8 u32_max (b'+' ∷ d ∷ s) ≡ scan_radix 8 u32_max (d ∷ s) 0
unfolding from_str_radix
from_str_radix-signed d s = refl

-- Without leading zeros.
trimmed-spelled : (s : Bytes) (n : ℕ) → from_str_radix 8 u32_max (or_zero s) ≡ some n → Spells s n
unfolding from_str_radix scan_radix
trimmed-spelled [] n h =
    let same : 0 ≡ n = cc in inl (record { digits = tt; value = same; word = omega (arith, same) })
trimmed-spelled (c ∷ []) n h = elim (Bool-cases (c == b'+')) [
  | inl plus ↦ absurd (ground arith)
  | inr other ↦
      let (digits, value, word) =
        scan_radix-spelled (c ∷ []) 0 n (omega arith)
          (sym (from_str_radix-scan c [] (ground arith)) ∙ h) in
      inl (record { digits = digits; value = value; word = word })
]
trimmed-spelled (c ∷ d ∷ s) n h = elim (Bool-cases (c == b'+')) [
  | inl plus ↦
      let sign : c ≡ b'+' = ground arith in
      let (digits, value, word) = scan_radix-spelled (d ∷ s) 0 n (omega arith) (
        sym (from_str_radix-signed d s)
        ∙ subst (λ x. from_str_radix 8 u32_max (x ∷ d ∷ s) ≡ some n) sign h) in
      inr (record {
        zeros = [];
        behind = d ∷ s;
        all_zeros = tt;
        text = ap (λ x. x ∷ d ∷ s) sign;
        some_digit = λ e. cc;
        spelled = record { digits = digits; value = value; word = word };
      })
  | inr other ↦
      let (digits, value, word) =
        scan_radix-spelled (c ∷ d ∷ s) 0 n (omega arith)
          (sym (from_str_radix-scan c (d ∷ s) (ground arith)) ∙ h) in
      inl (record { digits = digits; value = value; word = word })
]

zero-Spells : (s : Bytes) (n : ℕ) → Spells s n → Spells (b'0' ∷ s) n
zero-Spells s n (inl d) =
    inl (record { digits = ((omega arith, omega arith), d.digits); value = d.value; word = d.word })
zero-Spells s n (inr g) = inr (record {
  zeros = b'0' ∷ g.zeros;
  behind = g.behind;
  all_zeros = (refl, g.all_zeros);
  text = ap (λ t. b'0' ∷ t) g.text;
  some_digit = g.some_digit;
  spelled = g.spelled;
})

trim_zeros-Spells : (s : Bytes) (n : ℕ) → Spells (trim_zeros s) n → Spells s n
unfolding trim_zeros
trim_zeros-Spells [] n h = h
trim_zeros-Spells (c ∷ s) n h = elim (Bool-cases (c == b'0')) [
  | inl zero_first ↦
      let same : c ≡ b'0' = ground arith in
      let kept : trim_zeros (c ∷ s) ≡ trim_zeros s = rw zero_first refl in
      subst (λ x. Spells (x ∷ s) n) (sym same)
        (zero-Spells s n (trim_zeros-Spells s n (subst (λ t. Spells t n) kept h)))
  | inr other ↦
      let kept : trim_zeros (c ∷ s) ≡ c ∷ s = rw other refl in subst (λ t. Spells t n) kept h
]

trim_zeros-octal :
    (s : Bytes)
    → All IsOctalDigit s
    → All IsOctalDigit (trim_zeros s) × (octal_on 0 (trim_zeros s) ≡ octal_on 0 s)
unfolding trim_zeros
trim_zeros-octal [] d = (tt, refl)
trim_zeros-octal (c ∷ s) (digit, digits) = elim (Bool-cases (c == b'0')) [
  | inl zero_first ↦
      let same : c ≡ b'0' = ground arith in
      let (rest, value) = trim_zeros-octal s digits in
      rw zero_first (rest, value ∙ ap (λ x. octal_on (0 * 8 + (x - b'0')) s) (sym same))
  | inr other ↦ rw other ((digit, digits), refl)
]

trim_zeros-sign :
    (zeros s : Bytes) → All (λ c. c ≡ b'0') zeros → trim_zeros (zeros ++ b'+' ∷ s) ≡ b'+' ∷ s
unfolding trim_zeros
trim_zeros-sign [] s h = refl
trim_zeros-sign (c ∷ zeros) s (same, rest) = rw (same, trim_zeros-sign zeros s rest)

or_zero-octal :
    (s : Bytes)
    → All IsOctalDigit s
    → octal_on 0 s ≤ u32_max
    → from_str_radix 8 u32_max (or_zero s) ≡ some (octal_on 0 s)
or_zero-octal [] d k = unfold from_str_radix in (unfold scan_radix in refl)
or_zero-octal (c ∷ s) d k =
    from_str_radix-scan c s (λ e. absurd (omega (arith, d, e))) ∙ scan_radix-octal (c ∷ s) 0 d k

signed-octal :
    (s : Bytes)
    → s ≢ []
    → All IsOctalDigit s
    → octal_on 0 s ≤ u32_max
    → from_str_radix 8 u32_max (b'+' ∷ s) ≡ some (octal_on 0 s)
signed-octal [] ne d k = absurd (ne refl)
signed-octal (c ∷ s) ne d k = from_str_radix-signed c s ∙ scan_radix-octal (c ∷ s) 0 d k

-- The reading of `validate` is that of the texts that spell a mode in octal.
pub socket_mode_bits_iff : (s : Bytes) (n : ℕ) → (socket_mode_bits s ≡ some n) ↔ Spells s n
unfolding socket_mode_bits
socket_mode_bits_iff s n = (
  (λ h. trim_zeros-Spells s n (trimmed-spelled (trim_zeros s) n h)),
  (λ spells. elim spells [
    | inl d ↦
        let (digits, value) = trim_zeros-octal s d.digits in
        let at_end : octal_on 0 (trim_zeros s) ≡ n = value ∙ d.value in
        or_zero-octal (trim_zeros s) digits (omega (arith, at_end, d.word)) ∙ ap some at_end
    | inr g ↦
        ap (λ t. from_str_radix 8 u32_max (or_zero t))
          (ap trim_zeros g.text ∙ trim_zeros-sign g.zeros g.behind g.all_zeros)
        ∙ signed-octal g.behind g.some_digit g.spelled.digits
            (omega (arith, g.spelled.value, g.spelled.word))
        ∙ ap some g.spelled.value
  ]),
)
