-- ===== src/Client/Calendar/Days.antt =====
-- `civil_from_days` against the Gregorian calendar: from 1970-01-01, one day after the other.
use logfence.Prelude.{
  ℕ, zero, suc, ◌+◌, ◌-◌, ◌*◌, ◌/◌, ◌%◌, ◌≤◌, ◌<◌, ◌≡◌, refl, sym, ap, subst, ◌∙◌, arith, Bool,
  true, ◌&&◌, ◌||◌, not, ltb, ◌==◌, if◌then◌else◌, tests_below, tests_below_sound, Bool-cases, inl,
  inr, ltb→lt, lt→ltb, ◌^◌,
}
use logfence.Client.Calendar.{
  Civil, as_i32, year_of_era, month_of, day_of, civil, civil_of_era, civil_parts, wrapping_sub,
  civil_from_days,
}

abbrev pub is_leap : ℕ → Bool
is_leap y = y % 4 == 0 && (not (y % 100 == 0) || y % 400 == 0)

-- The days of a month in a year that is not leap.
abbrev pub common_length : ℕ → ℕ
common_length m = if m == 2 then 28 else if m == 4 || m == 6 || m == 9 || m == 11 then 30 else 31

abbrev pub month_length : ℕ → ℕ → ℕ
month_length y m = if m == 2 && is_leap y then 29 else common_length m

unfoldable pub next_day : Civil → Civil
next_day t =
    if ltb t.day (month_length t.year t.month)
    then record t { day = t.day + 1 }
    else if ltb t.month 12
    then record { year = t.year; month = t.month + 1; day = 1 }
    else record { year = t.year + 1; month = 1; day = 1 }

-- The date so many days after the Unix epoch.
unfoldable pub date_after : ℕ → Civil
date_after zero = record { year = 1970; month = 1; day = 1 }
date_after (suc n) = next_day (date_after n)

-- The first day of a year of an era.
abbrev pub start : ℕ → ℕ
start q = 365 * q + q / 4 - q / 100 + q / 400

pub year_of_era_range :
    (doe : ℕ)
    → doe < 146097
    → (year_of_era doe ≤ 399)
      × (start (year_of_era doe) ≤ doe)
      × (doe < start (year_of_era doe + 1))
unfolding year_of_era
year_of_era_range doe h = (omega (arith, h), omega (arith, h), omega (arith, h))

year_of_era-eq : (q doe : ℕ) → q ≤ 399 → start q ≤ doe → doe < start (q + 1) → year_of_era doe ≡ q
unfolding year_of_era
year_of_era-eq q doe h k l = omega (arith, h, k, l)

-- What the day after the `doy`-th of a year from March should be, short of the end of February.
abbrev day_follows : ℕ → Bool
day_follows doy =
    let m = month_of doy in
    let d = day_of doy in
    let m2 = month_of (doy + 1) in
    let d2 = day_of (doy + 1) in
    if ltb d (common_length m)
    then m2 == m && d2 == d + 1
    else not (m == 2) && d2 == 1 && (if ltb m 12 then m2 == m + 1 else m2 == 1 && m == 12)

day_table : tests_below day_follows 364 ≡ true
unfolding tests_below month_of day_of
day_table = refl

civil-common : (y doy : ℕ) → doy < 364 → civil y (doy + 1) ≡ next_day (civil y doy)
unfolding civil next_day
civil-common y doy h = ground (arith, tests_below_sound day_follows 364 doy h day_table)

civil-leap : (y : ℕ) → 366 ≡ start (y + 1) - start y → civil y 365 ≡ next_day (civil y 364)
unfolding civil next_day month_of day_of
civil-leap y h = ground arith

-- The day after the last of February begins a year.
civil-last :
    (y doy : ℕ) → doy + 1 ≡ start (y + 1) - start y → civil (y + 1) 0 ≡ next_day (civil y doy)
unfolding civil next_day month_of day_of
civil-last y doy h = ground arith

civil-suc :
    (y doy : ℕ) → doy + 1 < start (y + 1) - start y → civil y (doy + 1) ≡ next_day (civil y doy)
civil-suc y doy h = elim (Bool-cases (ltb doy 364)) [
  | inl common ↦ civil-common y doy (ltb→lt doy 364 common)
  | inr late ↦
      let last : doy ≡ 364 = ground arith in
      let long : 366 ≡ start (y + 1) - start y = omega (arith, h, last) in
      subst (λ d. civil y (d + 1) ≡ next_day (civil y d)) (sym last) (civil-leap y long)
]

-- A year of an era is as long as the same year of any other.
start_period :
    (q era : ℕ) → start (q + era * 400 + 1) - start (q + era * 400) ≡ start (q + 1) - start q
start_period q era = omega arith

-- With the year of the era at hand.
civil_of_era-at :
    (era q doe : ℕ)
    → q ≤ 399
    → start q ≤ doe
    → doe < start (q + 1)
    → civil_of_era era doe ≡ civil (q + era * 400) (doe - start q)
unfolding civil_of_era
civil_of_era-at era q doe h k l =
    rw (year_of_era-eq q doe h k l) (ap (civil (q + era * 400)) (omega arith))

civil_of_era-suc :
    (era doe : ℕ) → doe + 1 < 146097 → civil_of_era era (doe + 1) ≡ next_day (civil_of_era era doe)
civil_of_era-suc era doe h =
    let q = year_of_era doe in
    let (low, from, to) = year_of_era_range doe (omega arith) in
    let period = start_period q era in
    rw (civil_of_era-at era q doe low from to) (elim (Bool-cases (ltb (doe + 1) (start (q + 1)))) [
      | inl same ↦
          let inside = ltb→lt (doe + 1) (start (q + 1)) same in
          rw (civil_of_era-at era q (doe + 1) low (omega arith) inside) (
            ap (civil (q + era * 400)) (omega arith)
            ∙ civil-suc (q + era * 400) (doe - start q) (omega (arith, period, inside)))
      | inr other ↦
          let first : doe + 1 ≡ start (q + 1) = ground arith in
          let early : q + 1 ≤ 399 = omega arith in
          rw (civil_of_era-at era (q + 1) (doe + 1) early (omega arith) (omega arith)) (
            ap (λ z. civil (q + 1 + era * 400) z) (omega arith)
            ∙ ap (λ y. civil y 0) (omega arith)
            ∙ civil-last (q + era * 400) (doe - start q) (omega (arith, period, first)))
    ])

civil_of_era-last : (era : ℕ) → civil_of_era (era + 1) 0 ≡ next_day (civil_of_era era 146096)
civil_of_era-last era =
    rw
      (
        civil_of_era-at (era + 1) 0 0 (omega arith) (omega arith) (omega arith),
        civil_of_era-at era 399 146096 (omega arith) (omega arith) (omega arith),
      )
      (ap (λ y. civil y 0) (omega arith) ∙ civil-last (399 + era * 400) 365 (omega arith))

-- Without wrapping around.
unfoldable pub civil_since : ℕ → Civil
civil_since days =
    let z = days + 719468 in let era = z / 146097 in civil_of_era era (z - era * 146097)

civil_since-suc : (days : ℕ) → civil_since (days + 1) ≡ next_day (civil_since days)
unfolding civil_since
civil_since-suc days =
    let z = days + 719468 in
    let era = z / 146097 in
    let doe = z - era * 146097 in
    elim (Bool-cases (ltb (doe + 1) 146097)) [
      | inl same ↦
          let inside = ltb→lt (doe + 1) 146097 same in
          ap (λ e. civil_of_era e (days + 1 + 719468 - e * 146097)) (omega (arith, inside))
          ∙ ap (civil_of_era era) (omega (arith, inside))
          ∙ civil_of_era-suc era doe inside
      | inr other ↦
          let last : doe ≡ 146096 = ground arith in
          ap (λ e. civil_of_era e (days + 1 + 719468 - e * 146097)) (omega (arith, last))
          ∙ ap (civil_of_era (era + 1)) (omega (arith, last))
          ∙ civil_of_era-last era
          ∙ ap (λ d. next_day (civil_of_era era d)) (sym last)
    ]

civil_since-zero : civil_since 0 ≡ date_after 0
unfolding civil_since civil_of_era civil year_of_era month_of day_of date_after
civil_since-zero = refl

pub civil_since-date_after : (days : ℕ) → civil_since days ≡ date_after days
civil_since-date_after zero = civil_since-zero
civil_since-date_after (suc n) =
    ap civil_since (omega arith)
    ∙ civil_since-suc n
    ∙ ap next_day (civil_since-date_after n)
    ∙ unfold date_after in refl

-- Up to the greatest quotient of a `u64` by 86400, nothing wraps around.
civil_parts-small : (days : ℕ) → days ≤ 213503982334601 → civil_parts days ≡ civil_since days
unfolding civil_parts civil_since
civil_parts-small days h =
    let z = days + 719468 in
    let era = z / 146097 in
    let kept : (days + 719468) % 2 ^ 64 ≡ z = omega (arith, h) in
    let day : wrapping_sub z (era * 146097) ≡ z - era * 146097 = omega (arith, h) in
    rw kept (
      rw (lt→ltb z (2 ^ 63) (omega (arith, h)))
        (rw (lt→ltb z (2 ^ 63) (omega (arith, h))) (ap (civil_of_era era) day)))

pub civil_parts-date_after :
    (days : ℕ) → days ≤ 213503982334601 → civil_parts days ≡ date_after days
civil_parts-date_after days h = civil_parts-small days h ∙ civil_since-date_after days

-- Up to 213503982334601 days, which is the greatest quotient of a `u64` of seconds by 86400, the
-- algorithm gives the date that is reached from 1970-01-01 by going to the next day of the
-- Gregorian calendar so many times; the year is wrapped to 32 bits.
pub civil_from_days-date_after :
    (days : ℕ)
    → days ≤ 213503982334601
    → civil_from_days days
      ≡ (as_i32 (date_after days).year, (date_after days).month, (date_after days).day)
unfolding civil_from_days
civil_from_days-date_after days h = rw (civil_parts-date_after days h)
