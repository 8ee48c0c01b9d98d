-- ===== src/Syslog/Field.antt =====
-- `validate_printusascii_field`: HOSTNAME, APP-NAME, PROCID and MSGID.
pub mod Grammar
use logfence.Prelude.{
  ℕ, Bool, [], ◌∷◌, Option, none, some, Bytes, codes, length, is_empty, ltb, between, if◌then◌else◌,
  Outcome, ok, err, ◌>>◌, reject_if,
}
use logfence.Syslog.Types.{ParseError, invalid_field, message, too_long, bad_character}

-- The first byte that fails the test. In UTF-8 text every byte of a character above U+007F does,
-- so it is the first byte of the first character that fails.
unfoldable pub first_outside : (ℕ → Bool) → Bytes → Option ℕ
first_outside good [] = none
first_outside good (c ∷ s) = let later = first_outside good s in if good c then later else some c

abbrev pub is_printusascii : ℕ → Bool
is_printusascii c = between 33 126 c

-- The loop over the characters of a field or name.
abbrev pub reject_character : Bytes → Bytes → Option ℕ → Outcome ParseError (Unit {0})
reject_character field text none = ok tt
reject_character field text (some c) = err (invalid_field field (bad_character text c))

unfoldable pub validate_printusascii_field : Bytes → Bytes → ℕ → Outcome ParseError (Unit {0})
unfolding first_outside
validate_printusascii_field s field max_len = do
  reject_if (is_empty s) (invalid_field field (message (codes "must not be empty")))
  reject_if (ltb max_len (length s)) (invalid_field field (too_long max_len (length s)))
  reject_character field (codes "contains non-printable ASCII character ")
      (first_outside is_printusascii s)
