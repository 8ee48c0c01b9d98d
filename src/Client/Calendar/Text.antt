-- ===== src/Client/Calendar/Text.antt =====
-- The timestamps of the client are those of the grammar that the daemon's validator accepts.
use logfence.Prelude.{
  ℕ, ◌+◌, ◌-◌, ◌*◌, ◌/◌, ◌%◌, ◌≤◌, ◌<◌, ◌≡◌, refl, ap, ◌∙◌, arith, true, [], ◌∷◌, ◌++◌, Bytes,
  bytes_eq, bytes_eq_iff, tests_below, tests_below_sound, lt→ltb, subst, ok,
}
use logfence.Text.{decimal, decimal_on, zero_padded}
use logfence.Syslog.Timestamp.{validate_timestamp}
use logfence.Syslog.Timestamp.Grammar.{
  Timestamp, IsTimestamp, utc, pad2, pad4, timestamp_text, validate-timestamp_text,
}
use logfence.Client.Calendar.{
  Civil, as_i32, year_text, two_digits, month_of, day_of, civil, civil_of_era, civil_from_days,
  epoch_secs_to_rfc3339,
}
use logfence.Client.Calendar.Days.{
  year_of_era_range, date_after, civil_since, civil_since-date_after, civil_parts-date_after,
}

two_table : tests_below (λ n. bytes_eq (two_digits n) (pad2 n [])) 100 ≡ true
unfolding tests_below bytes_eq decimal decimal_on
two_table = refl

four_table : tests_below (λ n. bytes_eq (zero_padded 4 (decimal n)) (pad4 n [])) 10000 ≡ true
unfolding tests_below bytes_eq decimal decimal_on
four_table = refl

two_digits-pad2 : (n : ℕ) (rest : Bytes) → n < 100 → two_digits n ++ rest ≡ pad2 n rest
two_digits-pad2 n rest h =
    ap (λ s. s ++ rest)
      ((bytes_eq_iff (two_digits n) (pad2 n [])).0 (tests_below_sound _ 100 n h two_table))

year_text-pad4 : (n : ℕ) (rest : Bytes) → n < 10000 → year_text (as_i32 n) ++ rest ≡ pad4 n rest
year_text-pad4 n rest h =
    let low : n % 4294967296 ≡ n = omega (arith, h) in
    let small = lt→ltb n 2147483648 (omega (arith, h)) in
    rw (low, small)
      (ap (λ s. s ++ rest)
        ((bytes_eq_iff (zero_padded 4 (decimal n)) (pad4 n [])).0
          (tests_below_sound _ 10000 n h four_table)))

-- The dates up to the end of the year 9999.
record IsShown (c : Civil) : Type 0 where
  pub year_range : c.year ≤ 9999
  pub month_range : (1 ≤ c.month) × (c.month ≤ 12)
  pub day_range : (1 ≤ c.day) × (c.day ≤ 31)

civil-IsShown : (y doy : ℕ) → doy ≤ 365 → y ≤ 9999 → (y ≡ 9999 → doy < 306) → IsShown (civil y doy)
unfolding civil month_of day_of
civil-IsShown y doy h k l = record {
  year_range = ground arith;
  month_range = ground arith;
  day_range = ground arith;
}

civil_since-IsShown : (days : ℕ) → days < 2932897 → IsShown (civil_since days)
unfolding civil_since civil_of_era
civil_since-IsShown days h =
    let z = days + 719468 in
    let era = z / 146097 in
    let doe = z - era * 146097 in
    let (low, from, to) = year_of_era_range doe (omega arith) in
    civil-IsShown _ _ (omega (arith, low, from, to)) (omega (arith, low, from, to))
      (λ e. omega (arith, low, from, to, e))

-- The moment so many seconds after the Unix epoch.
abbrev pub moment : ℕ → Timestamp
moment secs =
    let date = date_after (secs / 86400) in
    let rem = secs % 86400 in
    record {
      year = date.year;
      month = date.month;
      day = date.day;
      hour = rem / 3600;
      minute = rem % 3600 / 60;
      second = rem % 60;
      fraction = [];
      zone = utc;
    }

date_after-IsShown : (days : ℕ) → days < 2932897 → IsShown (date_after days)
date_after-IsShown days h = subst IsShown (civil_since-date_after days) (civil_since-IsShown days h)

pub moment-IsTimestamp : (secs : ℕ) → secs < 253402300800 → IsTimestamp (moment secs)
moment-IsTimestamp secs h =
    let shown = date_after-IsShown (secs / 86400) (omega (arith, h)) in
    record {
      year_range = shown.year_range;
      month_range = shown.month_range;
      day_range = shown.day_range;
      hour_range = omega arith;
      minute_range = omega arith;
      second_range = omega arith;
      fraction_digits = tt;
      fraction_length = omega arith;
      zone_range = tt;
    }

-- The printed parts, each behind the one before it.
parts_text :
    (t : Timestamp)
    → IsTimestamp t
    → year_text (as_i32 t.year)
        ++ b'-'
          ∷ (two_digits t.month
              ++ b'-'
                ∷ (two_digits t.day
                    ++ b'T'
                      ∷ (two_digits t.hour
                          ++ b':'
                            ∷ (two_digits t.minute ++ b':' ∷ (two_digits t.second ++ b'Z' ∷ [])))))
      ≡ timestamp_text (record t { fraction = []; zone = utc })
parts_text t h =
    year_text-pad4 t.year _ (omega (arith, h.year_range))
    ∙ ap (λ r. pad4 t.year (b'-' ∷ r))
        (two_digits-pad2 t.month _ (omega (arith, h.month_range))
          ∙ ap (λ r. pad2 t.month (b'-' ∷ r))
              (two_digits-pad2 t.day _ (omega (arith, h.day_range))
                ∙ ap (λ r. pad2 t.day (b'T' ∷ r))
                    (two_digits-pad2 t.hour _ (omega (arith, h.hour_range))
                      ∙ ap (λ r. pad2 t.hour (b':' ∷ r))
                          (two_digits-pad2 t.minute _ (omega (arith, h.minute_range))
                            ∙ ap (λ r. pad2 t.minute (b':' ∷ r))
                                (two_digits-pad2 t.second _ (omega (arith, h.second_range)))))))

-- Up to the end of the year 9999, the text for a number of seconds is that of the moment so long
-- after 1970-01-01T00:00:00Z in the Gregorian calendar, and the daemon's validator accepts it.
pub epoch_secs_to_rfc3339_lem :
    (secs : ℕ)
    → secs < 253402300800
    → (epoch_secs_to_rfc3339 secs ≡ timestamp_text (moment secs))
      × (validate_timestamp (epoch_secs_to_rfc3339 secs) ≡ ok tt)
unfolding epoch_secs_to_rfc3339 civil_from_days
epoch_secs_to_rfc3339_lem secs h =
    let valid = moment-IsTimestamp secs h in
    let shown : epoch_secs_to_rfc3339 secs ≡ timestamp_text (moment secs) =
      ap
        (λ c.
          year_text (as_i32 c.year)
          ++ b'-'
            ∷ (two_digits c.month
                ++ b'-'
                  ∷ (two_digits c.day
                      ++ b'T'
                        ∷ (two_digits (secs % 86400 / 3600)
                            ++ b':'
                              ∷ (two_digits (secs % 86400 % 3600 / 60)
                                  ++ b':' ∷ (two_digits (secs % 86400 % 60) ++ b'Z' ∷ []))))))
        (civil_parts-date_after (secs / 86400) (omega (arith, h)))
      ∙ parts_text (moment secs) valid in
    (shown, ap validate_timestamp shown ∙ validate-timestamp_text (moment secs) valid)
