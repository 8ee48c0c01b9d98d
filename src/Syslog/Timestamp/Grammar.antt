-- ===== src/Syslog/Timestamp/Grammar.antt =====
-- The timestamps of RFC 5424 as a record, and its text.
use logfence.Prelude.{
  ℕ, ◌+◌, ◌/◌, ◌%◌, ◌≤◌, ◌<◌, Bool, true, false, [], ◌∷◌, ◌++◌, ◌≡◌, ◌≢◌, refl, arith, Bytes,
  length, All, ok, between, if◌then◌else◌, le→ltb, ne→==,
}
use logfence.Text.Decimal.{IsDigit}
use logfence.Syslog.Timestamp.{
  all_digits, parse2digit, matches_format, check_ranges, skip_digits, skip_fraction, skip_offset,
  skip_timezone, validate_timestamp,
}

pub data Zone : Type 0 where
  utc : Zone
  -- the sign `+` or `-`, the hours and the minutes
  offset : Bool → ℕ → ℕ → Zone

-- The fraction is the digits behind the dot; an empty one is left out with its dot.
pub record Timestamp : Type 0 where
  pub year : ℕ
  pub month : ℕ
  pub day : ℕ
  pub hour : ℕ
  pub minute : ℕ
  pub second : ℕ
  pub fraction : Bytes
  pub zone : Zone

abbrev pub IsZone : Zone → Type 0
IsZone utc = Unit
IsZone (offset plus h m) = (h ≤ 23) × (m ≤ 59)

-- The ranges that the source allows: day 31 in every month, and a leap second.
pub record IsTimestamp (t : Timestamp) : Type 0 where
  pub year_range : t.year ≤ 9999
  pub month_range : (1 ≤ t.month) × (t.month ≤ 12)
  pub day_range : (1 ≤ t.day) × (t.day ≤ 31)
  pub hour_range : t.hour ≤ 23
  pub minute_range : t.minute ≤ 59
  pub second_range : t.second ≤ 60
  pub fraction_digits : All IsDigit t.fraction
  pub fraction_length : length t.fraction ≤ 6
  pub zone_range : IsZone t.zone

-- A number as two digits, with the text behind it.
abbrev pub pad2 : ℕ → Bytes → Bytes
pad2 n rest = (b'0' + n / 10) ∷ (b'0' + n % 10) ∷ rest

abbrev pub pad4 : ℕ → Bytes → Bytes
pad4 n rest = pad2 (n / 100) (pad2 (n % 100) rest)

abbrev pub zone_text : Zone → Bytes
zone_text utc = b'Z' ∷ []
zone_text (offset plus h m) = (if plus then b'+' else b'-') ∷ pad2 h (b':' ∷ pad2 m [])

abbrev pub fraction_text : Bytes → Bytes → Bytes
fraction_text [] rest = rest
fraction_text (c ∷ cs) rest = b'.' ∷ ((c ∷ cs) ++ rest)

abbrev pub timestamp_text : Timestamp → Bytes
timestamp_text t = pad4 t.year (
    b'-'
    ∷ pad2 t.month (
        b'-'
        ∷ pad2 t.day (
            b'T'
            ∷ pad2 t.hour (
                b':'
                ∷ pad2 t.minute
                    (b':' ∷ pad2 t.second (fraction_text t.fraction (zone_text t.zone)))))))

all_digits-pad2 : (n : ℕ) → n < 100 → all_digits (pad2 n []) ≡ true
unfolding all_digits
all_digits-pad2 n h = ground arith

all_digits-pad4 : (n : ℕ) → n < 10000 → all_digits (pad4 n []) ≡ true
unfolding all_digits
all_digits-pad4 n h = ground arith

parse2digit-pad2 : (n : ℕ) → n < 100 → parse2digit (pad2 n []) ≡ n
unfolding parse2digit
parse2digit-pad2 n h = omega arith

skip_digits-append :
    (cs : Bytes) (c : ℕ) (rest : Bytes)
    → All IsDigit cs
    → ¬ IsDigit c
    → skip_digits (cs ++ c ∷ rest) ≡ (length cs, c ∷ rest)
unfolding skip_digits
skip_digits-append [] c rest h k = ground arith
skip_digits-append (d ∷ cs) c rest (hd, hs) k = ground (arith, skip_digits-append cs c rest hs k)

-- What a zone begins with: no digit and no dot.
zone_head :
    (z : Zone) → (c : ℕ) × (rest : Bytes) × (zone_text z ≡ c ∷ rest) × (¬ IsDigit c) × (c ≢ b'.')
zone_head utc = (b'Z', [], refl, (λ h. absurd (omega arith)), omega arith)
zone_head (offset true h m) = (b'+', _, refl, (λ h. absurd (omega arith)), omega arith)
zone_head (offset false h m) = (b'-', _, refl, (λ h. absurd (omega arith)), omega arith)

skip_fraction-text :
    (cs : Bytes) (z : Zone)
    → All IsDigit cs
    → length cs ≤ 6
    → skip_fraction (fraction_text cs (zone_text z)) ≡ ok (zone_text z)
unfolding skip_fraction
skip_fraction-text [] z h k =
    let (c, rest, e, _, no_dot) = zone_head z in rw e (rw (ne→== c b'.' no_dot))
skip_fraction-text (d ∷ cs) z h k =
    let (c, rest, e, no_digit, _) = zone_head z in
    rw e (rw (skip_digits-append (d ∷ cs) c rest h no_digit) (ground arith))

skip_offset-text : (h m : ℕ) → h ≤ 23 → m ≤ 59 → skip_offset (pad2 h (b':' ∷ pad2 m [])) ≡ ok []
unfolding skip_offset
skip_offset-text h m hh hm = rw (all_digits-pad2 h (omega arith)) (
    rw (all_digits-pad2 m (omega arith)) (
      rw (parse2digit-pad2 h (omega arith))
        (rw (parse2digit-pad2 m (omega arith)) (rw (le→ltb 23 h hh) (rw (le→ltb 59 m hm))))))

skip_timezone-text : (z : Zone) → IsZone z → skip_timezone (zone_text z) ≡ ok []
unfolding skip_timezone
skip_timezone-text utc h = refl
skip_timezone-text (offset true h m) (hh, hm) = skip_offset-text h m hh hm
skip_timezone-text (offset false h m) (hh, hm) = skip_offset-text h m hh hm

matches_format-text : (t : Timestamp) → IsTimestamp t → matches_format (timestamp_text t) ≡ true
unfolding matches_format
matches_format-text t h = rw (all_digits-pad4 t.year (omega arith)) (
    rw (all_digits-pad2 t.month (omega arith)) (
      rw (all_digits-pad2 t.day (omega arith)) (
        rw (all_digits-pad2 t.hour (omega arith)) (
          rw (all_digits-pad2 t.minute (omega arith))
            (rw (all_digits-pad2 t.second (omega arith)))))))

within : (lo hi n : ℕ) → lo ≤ n → n ≤ hi → between lo hi n ≡ true
within lo hi n h k = ground arith

check_ranges-text : (t : Timestamp) → IsTimestamp t → check_ranges (timestamp_text t) ≡ ok tt
unfolding check_ranges
check_ranges-text t h = rw (parse2digit-pad2 t.month (omega arith)) (
    rw (parse2digit-pad2 t.day (omega arith)) (
      rw (parse2digit-pad2 t.hour (omega arith)) (
        rw (parse2digit-pad2 t.minute (omega arith)) (
          rw (parse2digit-pad2 t.second (omega arith)) (
            rw (within 1 12 t.month (omega arith) (omega arith)) (
              rw (within 1 31 t.day (omega arith) (omega arith)) (
                rw (le→ltb 23 t.hour h.hour_range) (
                  rw (le→ltb 59 t.minute h.minute_range)
                    (rw (le→ltb 60 t.second h.second_range))))))))))

zone_text-ne-nil : (z : Zone) → 0 < length (zone_text z)
zone_text-ne-nil utc = omega arith
zone_text-ne-nil (offset plus h m) = omega arith

fraction_text-long : (cs rest : Bytes) → 0 < length rest → 0 < length (fraction_text cs rest)
fraction_text-long [] rest h = h
fraction_text-long (c ∷ cs) rest h = omega arith

-- The text of a timestamp whose parts are in range, with up to six digits of fraction and `Z` or a
-- numeric offset, is accepted.
pub validate-timestamp_text :
    (t : Timestamp) → IsTimestamp t → validate_timestamp (timestamp_text t) ≡ ok tt
unfolding validate_timestamp
validate-timestamp_text t h =
    let long = fraction_text-long t.fraction _ (zone_text-ne-nil t.zone) in
    rw (le→ltb (length (timestamp_text t)) 20 (omega (arith, long))) (
      rw (matches_format-text t h) (
        rw (check_ranges-text t h) (
          rw (skip_fraction-text t.fraction t.zone h.fraction_digits h.fraction_length)
            (rw (skip_timezone-text t.zone h.zone_range)))))
