-- ===== src/Date/Calendar.antt =====
-- A calendar date, made a Julian day, is printed as that date.
use fcgi_cpp_appserver.Common.{
  ℕ, ◌+◌, ◌-◌, ◌*◌, ◌/◌, ◌%◌, ◌≤◌, ◌<◌, ◌≡◌, refl, ◌⊎◌, ◌∙◌, ap, Bool, not, ◌||◌, ◌&&◌, Option,
  some, get_or, ltb, ◌==◌, if◌then◌else◌, arith,
}
use fcgi_cpp_appserver.Common.Bytes.{Bytes}
use fcgi_cpp_appserver.Date.{
  word, shift_year, shift_month, julian_day_of, ymd_to_julian_day, digit_at, yyyymmdd_to_julian_day,
  Civil, without_centuries, civil_from, digits_of, yyyymmdd, add_days,
}

-- The Gregorian calendar.
abbrev pub is_leap : ℕ → Bool
is_leap y = y % 4 == 0 && (not (y % 100 == 0) || y % 400 == 0)

abbrev pub month_length : ℕ → ℕ → ℕ
month_length y m =
    if m == 2
    then (if is_leap y then 29 else 28)
    else if m == 4 || (m == 6 || (m == 9 || m == 11))
    then 30
    else 31

pub record IsDate (y m d : ℕ) : Type 0 where
  pub year_low : 1 ≤ y
  pub year_high : y ≤ 9999
  pub month_low : 1 ≤ m
  pub month_high : m ≤ 12
  pub day_low : 1 ≤ d
  pub day_high : d ≤ month_length y m

-- A date with the year from March on.
record IsShifted (y m d : ℕ) : Type 0 where
  low : 3 ≤ m
  high : m ≤ 14
  year : y ≤ 9999
  first : 1 ≤ d
  last : d ≤ (
      if m == 14
      then (if is_leap (y + 1) then 29 else 28)
      else if m == 4 || (m == 6 || (m == 9 || m == 11))
      then 30
      else 31)

-- The days from the first of March to the first of the month, and 122.
abbrev months : ℕ → ℕ
months m = 306001 * (m + 1) / 10000

-- `b` of the inverse, which the centuries are out of.
abbrev julian : ℕ → ℕ → ℕ → ℕ
julian y m d = d + 1461 * (y + 4716) / 4 + months m

-- What a date's place in its year is bounded by.
abbrev Place : ℕ → ℕ → Type 0
Place y q = (123 ≤ q) × ((q ≤ 487) ⊎ ((q ≤ 488) × (y % 4 ≡ 3) × ((y % 100 < 99) ⊎ (y % 400 ≡ 399))))

IsShifted-Place : (y m d : ℕ) → IsShifted y m d → Place y (d + months m)
IsShifted-Place y m d v = ground (arith, v.low, v.high, v.first, v.last)

-- The centuries that the inverse finds, and what is left without them.
centuries :
    (y q : ℕ)
    → Place y q
    → (2 * (2 * (2 + y / 100 / 4 + q + 1461 * (y + 4716) / 4) - (2 * (y / 100) + 3049) + 1)
          + 8 * 146097
          - 7468865)
        / 146097
      ≡ y / 100 + 4
centuries y q p = omega arith

years : (y q : ℕ) → Place y q → (10 * (2 * (q + 1461 * (y + 4716) / 4)) - 2442) / 7305 ≡ y + 4716
years y q p = omega arith

-- The Julian day of a date, in halves.
abbrev day_number : ℕ → ℕ → ℕ → ℕ
day_number y m d =
    2 * (2 + y / 100 / 4 + (d + months m) + 1461 * (y + 4716) / 4) - (2 * (y / 100) + 3049)

julian_day_of_lem : (y m d : ℕ) → IsShifted y m d → julian_day_of y m d ≡ some (day_number y m d)
unfolding julian_day_of
julian_day_of_lem y m d v = ground (arith, v.low, v.high, v.first, v.year)

without_centuries_lem :
    (y m d : ℕ)
    → IsShifted y m d
    → without_centuries (day_number y m d + 1) ≡ 2 * (d + months m + 1461 * (y + 4716) / 4)
unfolding without_centuries
without_centuries_lem y m d v =
    let p = IsShifted-Place y m d v in
    rw (centuries y (d + months m) p) (omega (arith, p.0, v.year))

month_found :
    (y m d : ℕ)
    → IsShifted y m d
    → 5000 * (2 * (d + months m + 1461 * (y + 4716) / 4) - 2 * (1461 * (y + 4716) / 4)) / 306001
      ≡ m + 1
month_found y m d v = ground (arith, v.low, v.high, v.first, v.last)

civil_from_lem :
    (y m d : ℕ)
    → IsShifted y m d
    → civil_from (2 * (d + months m + 1461 * (y + 4716) / 4)) ≡ record {
      year = if ltb 12 m then y + 1 else y;
      month = if ltb 12 m then m - 12 else m;
      day = d;
    }
unfolding civil_from
civil_from_lem y m d v =
    let p = IsShifted-Place y m d v in
    rw (years y (d + months m) p, month_found y m d v)
      (ground (arith, v.low, v.high, v.first, v.year))

digit_at_ascii :
    (s : Bytes) (i : ℕ) → get_or s i 0 < 128 → digit_at s i ≡ (get_or s i 0 + (word - 48)) % word
digit_at_ascii s i h = ground (arith, h)

module _ (y m d : ℕ) (v : IsDate y m d) where
  shifted : IsShifted (shift_year y m) (shift_month m) d
  shifted = record {
    low = ground (arith, v.month_low);
    high = ground (arith, v.month_high);
    year = ground (arith, v.year_low, v.year_high);
    first = v.day_low;
    last = ground (arith, v.year_low, v.year_high, v.month_low, v.month_high, v.day_high);
  }

  -- The date as the fields of `Civil`.
  abbrev pub civil : Civil
  civil = record { year = y; month = m; day = d }

  -- The Julian day of the date.
  abbrev pub number : ℕ
  number = day_number (shift_year y m) (shift_month m) d

  pub ymd_to_julian_day_lem : ymd_to_julian_day y m d ≡ some number
  unfolding ymd_to_julian_day
  ymd_to_julian_day_lem = julian_day_of_lem (shift_year y m) (shift_month m) d shifted

  civil_back :
      civil_from (2 * (d + months (shift_month m) + 1461 * (shift_year y m + 4716) / 4)) ≡ civil
  civil_back =
      civil_from_lem (shift_year y m) (shift_month m) d shifted
      ∙ ground (arith, v.year_low, v.year_high, v.month_low, v.month_high)

  digits_back : yyyymmdd number ≡ digits_of civil
  unfolding yyyymmdd
  digits_back =
      rw (without_centuries_lem (shift_year y m) (shift_month m) d shifted)
        (ap digits_of civil_back)

  day_small : d ≤ 31
  day_small = ground (arith, v.day_high)

  digits_read : yyyymmdd_to_julian_day (digits_of civil) ≡ ymd_to_julian_day y m d
  unfolding yyyymmdd_to_julian_day
  digits_read =
      let s = digits_of civil in
      let d0 = digit_at_ascii s 0 (omega arith) in
      let d1 = digit_at_ascii s 1 (omega arith) in
      let d2 = digit_at_ascii s 2 (omega arith) in
      let d3 = digit_at_ascii s 3 (omega arith) in
      let d4 = digit_at_ascii s 4 (omega arith) in
      let d5 = digit_at_ascii s 5 (omega arith) in
      let d6 = digit_at_ascii s 6 (omega arith) in
      let d7 = digit_at_ascii s 7 (omega arith) in
      let year_read : (digit_at s 0 * 1000 + digit_at s 1 * 100 + digit_at s 2 * 10 + digit_at s 3)
            % word
          ≡ y =
        omega (arith, v.year_high, d0, d1, d2, d3) in
      let month_read : (digit_at s 4 * 10 + digit_at s 5) % word ≡ m =
        omega (arith, v.month_high, d4, d5) in
      let day_read : (digit_at s 6 * 10 + digit_at s 7) % word ≡ d =
        omega (arith, day_small, d6, d7) in
      rw (year_read, month_read, day_read) refl

  -- A date of the years 1 to 9999, written with eight digits, is read as a Julian day that is written
  -- as these digits.
  pub yyyymmdd-yyyymmdd_to_julian_day :
      (j : ℕ) × (yyyymmdd_to_julian_day (digits_of civil) ≡ some j) × (yyyymmdd j ≡ digits_of civil)
  yyyymmdd-yyyymmdd_to_julian_day = (number, digits_read ∙ ymd_to_julian_day_lem, digits_back)

-- The day behind a date of the calendar.
abbrev pub next_day : ℕ → ℕ → ℕ → Option ℕ
next_day y m d =
    if ltb d (month_length y m)
    then ymd_to_julian_day y m (d + 1)
    else if ltb m 12
    then ymd_to_julian_day y (m + 1) 1
    else ymd_to_julian_day (y + 1) 1 1

module _ (y m d : ℕ) (v : IsDate y m d) where
  next_in_month : d < month_length y m → ymd_to_julian_day y m (d + 1) ≡ some (number y m d v + 2)
  next_in_month h =
      ymd_to_julian_day_lem y m (d + 1) (record {
        year_low = v.year_low;
        year_high = v.year_high;
        month_low = v.month_low;
        month_high = v.month_high;
        day_low = omega arith;
        day_high = omega arith;
      })
      ∙ ap some (omega arith)

  next_in_year :
      d ≡ month_length y m → m < 12 → ymd_to_julian_day y (m + 1) 1 ≡ some (number y m d v + 2)
  next_in_year e h =
      ymd_to_julian_day_lem y (m + 1) 1 (record {
        year_low = v.year_low;
        year_high = v.year_high;
        month_low = omega arith;
        month_high = omega arith;
        day_low = omega arith;
        day_high = ground arith;
      })
      ∙ ap some (ground (arith, e, v.month_low, v.year_low, v.year_high))

  next_year :
      y < 9999
      → d ≡ month_length y m
      → m ≡ 12
      → ymd_to_julian_day (y + 1) 1 1 ≡ some (number y m d v + 2)
  next_year b e h =
      ymd_to_julian_day_lem (y + 1) 1 1 (record {
        year_low = omega arith;
        year_high = omega arith;
        month_low = omega arith;
        month_high = omega arith;
        day_low = omega arith;
        day_high = omega arith;
      })
      ∙ ap some (ground (arith, e, h))

-- The Julian day of the date behind one of the years 1 to 9998 is its own and one more.
pub ymd_to_julian_day-next :
    (y m d : ℕ)
    → IsDate y m d
    → y < 9999
    → (j : ℕ) × (ymd_to_julian_day y m d ≡ some j) × (next_day y m d ≡ some (add_days j 1))
unfolding add_days
ymd_to_julian_day-next y m d v h = (
  number y m d v,
  ymd_to_julian_day_lem y m d v,
  ground (
    arith,
    v.day_high,
    v.month_high,
    next_in_month y m d v,
    next_in_year y m d v,
    next_year y m d v h,
  ),
)
