-- ===== src/Text/Split.antt =====
-- Laws of `strip_prefix` and `split_once`.
use logfence.Prelude.{
  ℕ, [], ◌∷◌, ◌++◌, ◌≡◌, ◌≢◌, refl, ap, arith, Option, none, some, Bytes, Lacks, ◌==◌, inl, inr,
  Bool-cases, ne→==, ==→eq, ==→ne, subst,
}
use logfence.Text.{strip_byte, strip_prefix, split_once, before_split}

pub strip_prefix-append : (p s : Bytes) → strip_prefix p (p ++ s) ≡ some s
unfolding strip_prefix
strip_prefix-append [] s = refl
strip_prefix-append (c ∷ p) s = ground (arith, strip_prefix-append p s)

-- A text without the delimiter is the first part of a split.
pub split_once-append : (d : ℕ) (a b : Bytes) → Lacks d a → split_once d (a ++ d ∷ b) ≡ some (a, b)
unfolding split_once
split_once-append d [] b h = ground arith
split_once-append d (c ∷ a) b (hc, ha) = rw (split_once-append d a b ha) (rw (ne→== c d hc))

-- What a split says of the text: its parts spell it and the first lacks the delimiter, or there
-- is no delimiter.
abbrev pub SplitsAt : ℕ → Bytes → Option (Bytes × Bytes) → Type 0
SplitsAt d s none = Lacks d s
SplitsAt d s (some (a, b)) = (s ≡ a ++ d ∷ b) × Lacks d a

pub split_once-none : (d : ℕ) (s : Bytes) → Lacks d s → split_once d s ≡ none
unfolding split_once
split_once-none d [] h = refl
split_once-none d (c ∷ s) (hc, hs) = rw (split_once-none d s hs) (rw (ne→== c d hc))

before_split-SplitsAt :
    (d c : ℕ) (s : Bytes) (o : Option (Bytes × Bytes))
    → c ≢ d
    → SplitsAt d s o
    → SplitsAt d (c ∷ s) (before_split c o)
before_split-SplitsAt d c s none ne h = (ne, h)
before_split-SplitsAt d c s (some (a, b)) ne (e, h) = (ap (◌∷◌ c) e, (ne, h))

pub split_once-SplitsAt : (d : ℕ) (s : Bytes) → SplitsAt d s (split_once d s)
unfolding split_once
split_once-SplitsAt d [] = tt
split_once-SplitsAt d (c ∷ s) = elim (Bool-cases (c == d)) [
  | inl same ↦ rw same (ap (λ x. x ∷ s) (==→eq c d same), tt)
  | inr other ↦ rw other (before_split-SplitsAt d c s _ (==→ne c d other) (split_once-SplitsAt d s))
]

pub split_once_sound :
    (d : ℕ) (s a b : Bytes) → split_once d s ≡ some (a, b) → (s ≡ a ++ d ∷ b) × Lacks d a
split_once_sound d s a b h = subst (SplitsAt d s) h (split_once-SplitsAt d s)

pub strip_byte_sound : (c : ℕ) (s r : Bytes) → strip_byte c s ≡ some r → s ≡ c ∷ r
unfolding strip_byte
strip_byte_sound c [] r h = absurd (cc)
strip_byte_sound c (x ∷ s) r h = ground arith

pub strip_prefix_sound : (p s r : Bytes) → strip_prefix p s ≡ some r → s ≡ p ++ r
unfolding strip_prefix
strip_prefix_sound [] s r h = cc
strip_prefix_sound (c ∷ p) [] r h = absurd (cc)
strip_prefix_sound (c ∷ p) (x ∷ s) r h = ground (arith, strip_prefix_sound p s r)
