-- ===== src/Syslog/Timestamp.antt =====
-- `validate_timestamp` and its helpers. An offset into the bytes is the rest of the text there.
pub mod Grammar
use logfence.Prelude.{
  ℕ, zero, suc, ◌+◌, ◌-◌, ◌*◌, Bool, true, ◌&&◌, ◌||◌, not, [], ◌∷◌, Bytes, codes, length, take,
  drop, is_empty, ltb, ◌==◌, between, if◌then◌else◌, Outcome, ok, err, ◌>>=◌, ◌>>◌, reject_if,
}
use logfence.Text.{is_digit}
use logfence.Syslog.Types.{ParseError, invalid_field, message}

abbrev pub ts_err : Bytes → ParseError
ts_err reason = invalid_field (codes "TIMESTAMP") (message reason)

-- `b[i]`; every read stands behind a test of the length.
abbrev pub byte_at : Bytes → ℕ → ℕ
byte_at [] i = 0
byte_at (c ∷ b) zero = c
byte_at (c ∷ b) (suc i) = byte_at b i

-- `&b[from..to]`
abbrev pub range : Bytes → ℕ → ℕ → Bytes
range b from to = take (to - from) (drop from b)

abbrev every_digit : Bytes → Bool
every_digit [] = true
every_digit (c ∷ b) = is_digit c && every_digit b

unfoldable pub all_digits : Bytes → Bool
all_digits b = not (is_empty b) && every_digit b

unfoldable pub parse2digit : Bytes → ℕ
parse2digit b = (byte_at b 0 - b'0') * 10 + (byte_at b 1 - b'0')

-- YYYY-MM-DDThh:mm:ss
unfoldable pub matches_format : Bytes → Bool
matches_format b = not (
    not (all_digits (range b 0 4))
    || not (byte_at b 4 == b'-')
    || not (all_digits (range b 5 7))
    || not (byte_at b 7 == b'-')
    || not (all_digits (range b 8 10))
    || not (byte_at b 10 == b'T')
    || not (all_digits (range b 11 13))
    || not (byte_at b 13 == b':')
    || not (all_digits (range b 14 16))
    || not (byte_at b 16 == b':')
    || not (all_digits (range b 17 19)))

unfoldable pub check_ranges : Bytes → Outcome ParseError (Unit {0})
check_ranges b = do
  let month = parse2digit (range b 5 7)
  let day = parse2digit (range b 8 10)
  let hour = parse2digit (range b 11 13)
  let minute = parse2digit (range b 14 16)
  let second = parse2digit (range b 17 19)
  reject_if (not (between 1 12 month)) (ts_err (codes "month out of range (01–12)"))
  reject_if (not (between 1 31 day)) (ts_err (codes "day out of range (01–31)"))
  reject_if (ltb 23 hour) (ts_err (codes "hour out of range (00–23)"))
  reject_if (ltb 59 minute) (ts_err (codes "minute out of range (00–59)"))
  reject_if (ltb 60 second) (ts_err (codes "second out of range (00–60)"))

abbrev one_more : ℕ × Bytes → ℕ × Bytes
one_more (n, rest) = (n + 1, rest)

-- The number of leading digits, and the rest behind them.
unfoldable pub skip_digits : Bytes → ℕ × Bytes
skip_digits [] = (0, [])
skip_digits (c ∷ b) = let later = skip_digits b in if is_digit c then one_more later else (0, c ∷ b)

-- The optional fractional seconds; the rest behind them.
unfoldable pub skip_fraction : Bytes → Outcome ParseError Bytes
skip_fraction [] = ok []
skip_fraction (c ∷ b) =
    if c == b'.'
    then (do
      let (frac_len, rest) = skip_digits b
      reject_if (not (between 1 6 frac_len))
          (ts_err (codes "fractional seconds must be 1–6 digits"))
      ok rest)
    else ok (c ∷ b)

-- The `hh:mm` of an offset, behind its sign; the rest behind it.
unfoldable pub skip_offset : Bytes → Outcome ParseError Bytes
skip_offset b = do
  reject_if (ltb (length b) 5) (ts_err (codes "timezone offset too short"))
  reject_if
      (not (all_digits (range b 0 2))
        || not (byte_at b 2 == b':')
        || not (all_digits (range b 3 5)))
      (ts_err (codes "timezone offset does not match hh:mm format"))
  let tz_hour = parse2digit (range b 0 2)
  let tz_min = parse2digit (range b 3 5)
  reject_if (ltb 23 tz_hour || ltb 59 tz_min) (ts_err (codes "timezone offset out of range"))
  ok (drop 5 b)

unfoldable pub skip_timezone : Bytes → Outcome ParseError Bytes
skip_timezone [] = err (ts_err (codes "missing timezone"))
skip_timezone (c ∷ b) =
    if c == b'Z'
    then ok b
    else if c == b'+' || c == b'-'
    then skip_offset b
    else err (ts_err (codes "invalid timezone indicator (expected 'Z' or '+'/'-')"))

unfoldable pub validate_timestamp : Bytes → Outcome ParseError (Unit {0})
validate_timestamp b = do
  reject_if (ltb (length b) 20) (ts_err (codes "too short for RFC 5424 timestamp"))
  reject_if (not (matches_format b)) (ts_err (codes "does not match YYYY-MM-DDThh:mm:ss format"))
  check_ranges b
  zone ← skip_fraction (drop 19 b)
  rest ← skip_timezone zone
  reject_if (not (is_empty rest)) (ts_err (codes "trailing characters after timezone"))
