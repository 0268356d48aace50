-- ===== src/Date.antt =====
-- `Date` of src/server/date.h. A Julian day is a whole number or one and a half: the numbers here count
-- half days. The source computes with doubles; 365.25, 36524.25, 122.1 and 30.6001 are taken as exact,
-- which no floor notices: a quotient that is not whole stays 1 / 146097 or more away from one that is.
pub mod Calendar
pub mod Quants
use fcgi_cpp_appserver.Common.{
  ℕ, ◌+◌, ◌-◌, ◌*◌, ◌/◌, ◌%◌, Bool, ◌||◌, Option, none, some, List, [], ◌∷◌, ltb, leb, ◌==◌,
  if◌then◌else◌, length, get_or, not,
}
use fcgi_cpp_appserver.Common.Bytes.{Bytes}

-- An `unsigned int` is below this.
abbrev pub word : ℕ
word = 4294967296

abbrev pub quants_per_day : ℕ
quants_per_day = 96

abbrev pub seconds_per_day : ℕ
seconds_per_day = 86400

abbrev pub seconds_per_quant : ℕ
seconds_per_quant = 900

-- UNIX_EPOCH_JULIAN_DAY, 2440587.5 days.
abbrev pub unix_epoch_julian_day : ℕ
unix_epoch_julian_day = 4881175

abbrev pub is_early : ℕ → Bool
is_early month = month == 1 || month == 2

-- `year` and `month` as the formula takes them: January and February are months 13 and 14.
abbrev pub shift_year : ℕ → ℕ → ℕ
shift_year year month = if is_early month then (year + (word - 1)) % word else year

abbrev pub shift_month : ℕ → ℕ
shift_month month = if is_early month then month + 12 else month

-- The formula behind that; `none` is a negative number.
unfoldable pub julian_day_of : ℕ → ℕ → ℕ → Option ℕ
julian_day_of year month day =
    let a = year / 100 in
    let b = a / 4 in
    let e = 1461 * ((year + 4716) % word) / 4 in
    let f = 306001 * ((month + 1) % word) / 10000 in
    let sum = 2 * (2 + b + day + e + f) in
    if ltb sum (2 * a + 3049) then none else some (sum - (2 * a + 3049))

unfoldable pub ymd_to_julian_day : ℕ → ℕ → ℕ → Option ℕ
unfolding julian_day_of
ymd_to_julian_day year month day = julian_day_of (shift_year year month) (shift_month month) day

-- `s[i] - '0'`, in an `unsigned int`. A `char` is signed: from 128 on a byte stands for 256 less. The
-- character behind the last one is a NUL.
abbrev char_value : ℕ → ℕ
char_value c = if ltb c 128 then c else c + (word - 256)

abbrev pub digit_at : Bytes → ℕ → ℕ
digit_at s i = (char_value (get_or s i 0) + (word - 48)) % word

-- `none` is a read behind the NUL, or a negative number.
unfoldable pub yyyymmdd_to_julian_day : Bytes → Option ℕ
unfolding ymd_to_julian_day
yyyymmdd_to_julian_day s =
    if ltb (length s) 7
    then none
    else ymd_to_julian_day
        ((digit_at s 0 * 1000 + digit_at s 1 * 100 + digit_at s 2 * 10 + digit_at s 3) % word)
        ((digit_at s 4 * 10 + digit_at s 5) % word) ((digit_at s 6 * 10 + digit_at s 7) % word)

-- The whole days from the epoch on.
unfoldable pub epoch_to_julian_day : ℕ → ℕ
epoch_to_julian_day epoch = 2 * (epoch / seconds_per_day) + unix_epoch_julian_day

-- What `yyyymmdd` computes of a Julian day in front of its digits.
pub record Civil : Type 0 where
  pub year : ℕ
  pub month : ℕ
  pub day : ℕ

-- `b`, from `z`, which is `m_julian_day + 0.5`. For `w` not to be negative the 8 centuries in front of
-- the year 400 are added to it, and subtracted again: 8 from `w` and 2 from `x`. So days are from the
-- year -400 on.
unfoldable pub without_centuries : ℕ → ℕ
without_centuries z =
    let w = (2 * z + 8 * 146097 - 7468865) / 146097 in
    let x = w / 4 in z + 2 + 2 * w + 2 * 2 - 2 * 8 - 2 * x + 2 * 1524

-- `c` to `f`, from `b`.
unfoldable pub civil_from : ℕ → Civil
civil_from b =
    let c = (10 * b - 2442) / 7305 in
    let d = 1461 * c / 4 in
    let e = 5000 * (b - 2 * d) / 306001 in
    let f = 306001 * e / 10000 in
    let month = if leb (e - 1) 12 then e - 1 else e - 13 in
    record {
      year = if is_early month then c - 4715 else c - 4716;
      month = month;
      day = (b - 2 * d - 2 * f) / 2;
    }

abbrev pub digit : ℕ → ℕ
digit n = b'0' + n % 10

abbrev pub digits_of : Civil → Bytes
digits_of t =
    digit (t.year / 1000)
    ∷ digit (t.year / 100)
    ∷ digit (t.year / 10)
    ∷ digit t.year
    ∷ digit (t.month / 10)
    ∷ digit t.month
    ∷ digit (t.day / 10)
    ∷ digit t.day
    ∷ []

unfoldable pub yyyymmdd : ℕ → Bytes
unfolding civil_from without_centuries
yyyymmdd julian_day = digits_of (civil_from (without_centuries (julian_day + 1)))

-- The operators. A difference is not below the first Julian day.
unfoldable pub add_days : ℕ → ℕ → ℕ
add_days julian_day days = julian_day + 2 * days

unfoldable pub sub_days : ℕ → ℕ → ℕ
sub_days julian_day days = julian_day - 2 * days

unfoldable pub same_day : ℕ → ℕ → Bool
same_day a b = a / 2 == b / 2

unfoldable pub other_day : ℕ → ℕ → Bool
other_day a b = not (a / 2 == b / 2)

-- Of a day from the epoch on.
unfoldable pub start_quant_id : ℕ → ℕ
start_quant_id julian_day = (julian_day - unix_epoch_julian_day) / 2 * quants_per_day % word

unfoldable pub end_quant_id : ℕ → ℕ
end_quant_id julian_day =
    ((julian_day - unix_epoch_julian_day) / 2 * quants_per_day + quants_per_day + (word - 1)) % word
