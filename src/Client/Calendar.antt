-- ===== src/Client/Calendar.antt =====
-- The time functions of crates/logfence-client/src/builder.rs. A number of days is a `u64`, and `z`
-- and `era` are written in two's complement of 64 bits. The arithmetic wraps around, as in a
-- release build; with overflow checks the additions to a number of days from 2^63 - 719468 to
-- 2^63 - 1 panic. The casts of `doe` and of the month and day keep the number. That of the year
-- wraps.
pub mod Days
pub mod Text
use logfence.Prelude.{
  ℕ, ◌+◌, ◌-◌, ◌*◌, ◌/◌, ◌%◌, ◌^◌, Bool, [], ◌∷◌, ◌++◌, Bytes, ltb, leb, if◌then◌else◌,
}
use logfence.Text.{decimal, zero_padded}

-- A year, a month and a day of it, before the casts.
pub record Civil : Type 0 where
  pub year : ℕ
  pub month : ℕ
  pub day : ℕ

pub data Int32 : Type 0 where
  nonneg : ℕ → Int32
  -- the number below zero
  negative : ℕ → Int32

-- `y as i32`
abbrev pub as_i32 : ℕ → Int32
as_i32 y = let low = y % 2 ^ 32 in if ltb low (2 ^ 31) then nonneg low else negative (2 ^ 32 - low)

-- `yoe`
unfoldable pub year_of_era : ℕ → ℕ
year_of_era doe = (doe - doe / 1460 + doe / 36524 - doe / 146096) / 365

-- `mp`
abbrev pub from_march : ℕ → ℕ
from_march doy = (5 * doy + 2) / 153

-- `m`
unfoldable pub month_of : ℕ → ℕ
month_of doy = let mp = from_march doy in if ltb mp 10 then mp + 3 else mp - 9

-- `d`
unfoldable pub day_of : ℕ → ℕ
day_of doy = doy - (153 * from_march doy + 2) / 5 + 1

-- The end of the function, from a year that begins in March and the day of that year.
unfoldable pub civil : ℕ → ℕ → Civil
civil y doy =
    let m = month_of doy in
    record { year = if leb m 2 then y + 1 else y; month = m; day = day_of doy }

-- From the era and the day of the era.
unfoldable pub civil_of_era : ℕ → ℕ → Civil
civil_of_era era doe =
    let yoe = year_of_era doe in civil (yoe + era * 400) (doe - (365 * yoe + yoe / 4 - yoe / 100))

-- A difference, and a quotient that is rounded towards zero, of numbers in two's complement.
abbrev pub wrapping_sub : ℕ → ℕ → ℕ
wrapping_sub a b = (a + 2 ^ 64 - b % 2 ^ 64) % 2 ^ 64

abbrev pub signed_div : ℕ → ℕ → ℕ
signed_div a b = if ltb a (2 ^ 63) then a / b else wrapping_sub 0 ((2 ^ 64 - a) / b)

-- `z` is the `i64` in two's complement.
unfoldable pub civil_parts : ℕ → Civil
civil_parts days =
    let z = (days + 719468) % 2 ^ 64 in
    let era = signed_div (if ltb z (2 ^ 63) then z else wrapping_sub z 146096) 146097 in
    civil_of_era era (wrapping_sub z (era * 146097))

-- `civil_from_days`
unfoldable pub civil_from_days : ℕ → Int32 × ℕ × ℕ
civil_from_days days = let c = civil_parts days in (as_i32 c.year, c.month, c.day)

-- `{year:04}`, where the sign counts.
abbrev pub year_text : Int32 → Bytes
year_text (nonneg n) = zero_padded 4 (decimal n)
year_text (negative n) = b'-' ∷ zero_padded 3 (decimal n)

abbrev pub two_digits : ℕ → Bytes
two_digits n = zero_padded 2 (decimal n)

unfoldable pub epoch_secs_to_rfc3339 : ℕ → Bytes
epoch_secs_to_rfc3339 secs =
    let days = secs / 86400 in
    let rem = secs % 86400 in
    let (year, month, day) = civil_from_days days in
    year_text year
    ++ b'-'
      ∷ (two_digits month
          ++ b'-'
            ∷ (two_digits day
                ++ b'T'
                  ∷ (two_digits (rem / 3600)
                      ++ b':'
                        ∷ (two_digits (rem % 3600 / 60)
                            ++ b':' ∷ (two_digits (rem % 60) ++ b'Z' ∷ [])))))
