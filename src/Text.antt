-- ===== src/Text.antt =====
-- What the crates use of the standard library on text: `trim_end_matches`, `strip_prefix`,
-- `split_once`, `starts_with`, slicing by byte offsets, `from_str_radix`/`parse` of an unsigned
-- integer, `to_string` of one, and `std::str::from_utf8`. A text is the list of its UTF-8 bytes.
pub mod Split
pub mod Trim
pub mod Decimal
pub mod Utf8
use logfence.Prelude.{
  ℕ, zero, suc, ◌+◌, ◌-◌, ◌*◌, ◌/◌, ◌%◌, ◌≤◌, ◌<◌, Bool, true, false, ◌&&◌, ◌||◌, List, [], ◌∷◌,
  ◌++◌, Option, none, some, Bytes, ltb, leb, ◌==◌, if◌then◌else◌, between, is_empty, length,
  Outcome, ok, err, panic,
}

-- `s.strip_prefix(c)` for an ASCII character `c`.
unfoldable pub strip_byte : ℕ → Bytes → Option Bytes
strip_byte c [] = none
strip_byte c (x ∷ s) = if x == c then some s else none

-- `s.strip_prefix(p)`
unfoldable pub strip_prefix : Bytes → Bytes → Option Bytes
strip_prefix [] s = some s
strip_prefix (c ∷ p) [] = none
strip_prefix (c ∷ p) (x ∷ s) = let rest = strip_prefix p s in if x == c then rest else none

abbrev pub is_some {ℓ} : {A : Type ℓ} → Option A → Bool
is_some none = false
is_some (some a) = true

-- `s.starts_with(p)`
abbrev pub starts_with : Bytes → Bytes → Bool
starts_with p s = is_some (strip_prefix p s)

-- Put `c` before the first part of a split.
abbrev pub before_split : ℕ → Option (Bytes × Bytes) → Option (Bytes × Bytes)
before_split c none = none
before_split c (some (a, b)) = some (c ∷ a, b)

-- `s.split_once(d)` for an ASCII character `d`: the text before and after the first `d`.
unfoldable pub split_once : ℕ → Bytes → Option (Bytes × Bytes)
split_once d [] = none
split_once d (c ∷ s) =
    let later = split_once d s in if c == d then some ([], s) else before_split c later

-- `matches!(c, '\n' | '\r' | '\0')`
abbrev pub is_trimmed : ℕ → Bool
is_trimmed c = c == 10 || c == 13 || c == 0

-- `s.trim_end_matches(['\n', '\r', '\0'])`
unfoldable pub trim_end : Bytes → Bytes
trim_end [] = []
trim_end (c ∷ s) = let rest = trim_end s in if is_trimmed c && is_empty rest then [] else c ∷ rest

abbrev pub is_digit : ℕ → Bool
is_digit c = between b'0' b'9' c

-- The digits that remain, read onto `n`: `checked_mul` and `checked_add` of `from_str_radix`.
unfoldable pub scan_radix : ℕ → ℕ → Bytes → ℕ → Option ℕ
scan_radix radix max [] n = some n
scan_radix radix max (c ∷ s) n =
    let next = n * radix + (c - b'0') in
    let rest = scan_radix radix max s next in
    if leb b'0' c && ltb c (b'0' + radix) && leb next max then rest else none

abbrev pub without_sign : Bytes → Bytes
without_sign [] = []
without_sign (c ∷ s) = if c == b'+' && (if is_empty s then false else true) then s else c ∷ s

-- `from_str_radix(s, radix)` for an unsigned type with the greatest value `max` and a radix of at
-- most ten: no empty text, one leading `+` before a digit, no overflow.
unfoldable pub from_str_radix : ℕ → ℕ → Bytes → Option ℕ
unfolding scan_radix
from_str_radix radix max [] = none
from_str_radix radix max (c ∷ s) = scan_radix radix max (without_sign (c ∷ s)) 0

abbrev pub u8_max : ℕ
u8_max = 255

abbrev pub usize_max : ℕ
usize_max = 18446744073709551615

-- `n.to_string()`: the fuel is more than the number of digits.
unfoldable pub decimal_on : ℕ → ℕ → Bytes
decimal_on zero n = []
decimal_on (suc f) n =
    let front = decimal_on f (n / 10) in
    if ltb n 10 then (b'0' + n) ∷ [] else front ++ (b'0' + n % 10) ∷ []

unfoldable pub decimal : ℕ → Bytes
unfolding decimal_on
decimal n = decimal_on (suc n) n

-- A UTF-8 continuation byte, at which no slice may begin or end.
abbrev pub is_continuation : ℕ → Bool
is_continuation c = between 0x80 0xbf c

-- `&s[a..b]` where `part` is the text between the two offsets and the byte at `b` is ASCII or the
-- end of the text: the slice panics if `a` is inside a character.
unfoldable pub slice : {E : Type 0} → Bytes → Outcome E Bytes
slice [] = ok []
slice (c ∷ part) = if is_continuation c then panic else ok (c ∷ part)

-- What the first byte of a character asks for: how many bytes are due after it, and the range
-- of the next of them; `none` if no character begins so.
unfoldable pub utf8_lead : ℕ → Option (ℕ × ℕ × ℕ)
utf8_lead c =
    if ltb c 0x80
    then some (0, 0, 0)
    else if between 0xc2 0xdf c
    then some (1, 0x80, 0xbf)
    else if c == 0xe0
    then some (2, 0xa0, 0xbf)
    else if c == 0xed
    then some (2, 0x80, 0x9f)
    else if between 0xe1 0xef c
    then some (2, 0x80, 0xbf)
    else if c == 0xf0
    then some (3, 0x90, 0xbf)
    else if c == 0xf4
    then some (3, 0x80, 0x8f)
    else if between 0xf1 0xf3 c
    then some (3, 0x80, 0xbf)
    else none

abbrev pub utf8_next : (ℕ → ℕ → ℕ → Bool) → Option (ℕ × ℕ × ℕ) → Bool
utf8_next rest none = false
utf8_next rest (some (left, lo, hi)) = rest left lo hi

-- The validation of a byte sequence as UTF-8: `left` bytes of a character are still due, the
-- next of them between `lo` and `hi`.
unfoldable pub utf8_from : ℕ → ℕ → ℕ → Bytes → Bool
unfolding utf8_lead
utf8_from zero lo hi [] = true
utf8_from (suc left) lo hi [] = false
utf8_from (suc left) lo hi (c ∷ s) =
    let rest = utf8_from left 0x80 0xbf s in if between lo hi c then rest else false
utf8_from zero lo hi (c ∷ s) =
    let rest = λ (l a b : ℕ). utf8_from l a b s in utf8_next rest (utf8_lead c)

-- `std::str::from_utf8(s).is_ok()`
unfoldable pub is_utf8 : Bytes → Bool
unfolding utf8_from
is_utf8 s = utf8_from 0 0 0 s

abbrev pub zeros : ℕ → Bytes → Bytes
zeros zero s = s
zeros (suc n) s = b'0' ∷ zeros n s

-- `{:0w}` of the digits of a number.
abbrev pub zero_padded : ℕ → Bytes → Bytes
zero_padded w s = zeros (w - length s) s
