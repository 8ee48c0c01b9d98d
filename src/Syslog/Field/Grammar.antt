-- ===== src/Syslog/Field/Grammar.antt =====
-- `validate_printusascii_field` against the grammar of RFC 5424: 1 to N printable characters.
use logfence.Prelude.{
  ℕ, ◌≤◌, [], ◌∷◌, ◌≡◌, ◌≢◌, ◌↔◌, refl, arith, none, Bytes, length, All, ok, le→ltb,
}
use mathlib.Core.List.{cons-ne-nil}
use logfence.Syslog.Field.{first_outside, is_printusascii, validate_printusascii_field}

abbrev pub IsPrintUsAscii : ℕ → Type 0
IsPrintUsAscii c = (33 ≤ c) × (c ≤ 126)

abbrev pub IsPrintField : ℕ → Bytes → Type 0
IsPrintField max_len s = (s ≢ []) × (length s ≤ max_len) × All IsPrintUsAscii s

first_outside-none : (s : Bytes) → All IsPrintUsAscii s → first_outside is_printusascii s ≡ none
unfolding first_outside
first_outside-none [] h = refl
first_outside-none (c ∷ s) (hc, hs) = ground (arith, first_outside-none s hs)

first_outside_sound : (s : Bytes) → first_outside is_printusascii s ≡ none → All IsPrintUsAscii s
unfolding first_outside
first_outside_sound [] h = tt
first_outside_sound (c ∷ s) h = ground (arith, first_outside_sound s)

-- The validation accepts exactly the fields of 1 to `max_len` bytes that are all printable ASCII.
pub validate_printusascii_field_iff :
    (s field : Bytes) (max_len : ℕ)
    → (validate_printusascii_field s field max_len ≡ ok tt) ↔ IsPrintField max_len s
unfolding validate_printusascii_field
validate_printusascii_field_iff [] field max_len = (λ h. absurd (cc), λ h. absurd (h.0 refl))
validate_printusascii_field_iff (c ∷ s) field max_len = (
  (λ h. (cons-ne-nil c s, ground arith, first_outside_sound (c ∷ s) (ground arith))),
  (λ h. rw (le→ltb max_len (length (c ∷ s)) h.1, first_outside-none (c ∷ s) h.2)),
)
