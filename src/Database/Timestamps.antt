-- ===== src/Database/Timestamps.antt =====
-- The text of a point in time has nineteen characters, and can be read back.
use fcgi_cpp_appserver.Common.{
  ℕ, zero, suc, ◌+◌, ◌-◌, ◌*◌, ◌/◌, ◌%◌, ◌≤◌, ◌<◌, ◌≡◌, refl, ◌∙◌, ap, [], ◌∷◌, ◌++◌, ltb, length,
  get_or, arith, inl, inr, Bool-cases,
}
use fcgi_cpp_appserver.Common.Bytes.{Bytes}
use fcgi_cpp_appserver.Common.Decimal.{show, show_loop}
use fcgi_cpp_appserver.Database.Columns.{Moment, pad, convert_timestamp}

pub record IsMoment (t : Moment) : Type 0 where
  pub year : t.year < 10000
  pub month : t.month < 100
  pub day : t.day < 100
  pub hour : t.hour < 100
  pub minute : t.minute < 100
  pub second : t.second < 100

abbrev pub digit : ℕ → ℕ
digit n = b'0' + n % 10

loop_one : (f n : ℕ) → n < 10 → show_loop f n ≡ digit n ∷ []
unfolding show_loop
loop_one zero n h = ap (λ d. d ∷ []) (omega arith)
loop_one (suc f) n h = ground arith

loop_more : (f n : ℕ) → 10 ≤ n → 1 ≤ f → show_loop f n ≡ show_loop (f - 1) (n / 10) ++ digit n ∷ []
unfolding show_loop
loop_more zero n h k = absurd (omega arith)
loop_more (suc f) n h k = let e : suc f - 1 ≡ f = omega arith in rw e (ground arith)

two_digits : (f n : ℕ) → 10 ≤ n → n < 100 → 1 ≤ f → show_loop f n ≡ digit (n / 10) ∷ digit n ∷ []
two_digits f n h k l = loop_more f n h l ∙ rw (loop_one (f - 1) (n / 10) (omega arith))

three_digits :
    (f n : ℕ)
    → 100 ≤ n
    → n < 1000
    → 2 ≤ f
    → show_loop f n ≡ digit (n / 100) ∷ digit (n / 10) ∷ digit n ∷ []
three_digits f n h k l =
    let e : n / 10 / 10 ≡ n / 100 = omega arith in
    loop_more f n (omega arith) (omega arith)
    ∙ rw (two_digits (f - 1) (n / 10) (omega arith) (omega arith) (omega arith), e)

four_digits :
    (f n : ℕ)
    → 1000 ≤ n
    → n < 10000
    → 3 ≤ f
    → show_loop f n ≡ digit (n / 1000) ∷ digit (n / 100) ∷ digit (n / 10) ∷ digit n ∷ []
four_digits f n h k l =
    let e : n / 10 / 100 ≡ n / 1000 = omega arith in
    let e' : n / 10 / 10 ≡ n / 100 = omega arith in
    loop_more f n (omega arith) (omega arith)
    ∙ rw (three_digits (f - 1) (n / 10) (omega arith) (omega arith) (omega arith), e, e')

pub pad_two : (n : ℕ) → n < 100 → pad 2 n ≡ digit (n / 10) ∷ digit n ∷ []
unfolding show
pad_two n h = elim (Bool-cases (ltb n 10)) [
  | inl one ↦ let e : digit (n / 10) ≡ b'0' = ground arith in rw (loop_one n n (ground arith), e)
  | inr two ↦ rw (two_digits n n (ground arith) h (ground arith))
]

pub pad_four :
    (n : ℕ)
    → n < 10000
    → pad 4 n ≡ digit (n / 1000) ∷ digit (n / 100) ∷ digit (n / 10) ∷ digit n ∷ []
unfolding show
pad_four n h = elim (Bool-cases (ltb n 10)) [
  | inl one ↦ rw (loop_one n n (ground arith)) (ground arith)
  | inr more ↦ elim (Bool-cases (ltb n 100)) [
    | inl two ↦ rw (two_digits n n (ground arith) (ground arith) (ground arith)) (ground arith)
    | inr more' ↦ elim (Bool-cases (ltb n 1000)) [
      | inl three ↦
          rw (three_digits n n (ground arith) (ground arith) (ground arith)) (ground arith)
      | inr four ↦ rw (four_digits n n (ground arith) h (ground arith))
    ]
  ]
]

-- The number that the digits at two places stand for.
abbrev pair_at : Bytes → ℕ → ℕ
pair_at s i = (get_or s i 0 - b'0') * 10 + (get_or s (i + 1) 0 - b'0')

-- What a text of the form "yyyy-mm-dd hh:mm:ss" stands for.
abbrev pub read_moment : Bytes → Moment
read_moment s = record {
  year = pair_at s 0 * 100 + pair_at s 2;
  month = pair_at s 5;
  day = pair_at s 8;
  hour = pair_at s 11;
  minute = pair_at s 14;
  second = pair_at s 17;
}

pair_value : (n : ℕ) → n < 100 → (digit (n / 10) - b'0') * 10 + (digit n - b'0') ≡ n
pair_value n h = omega arith

year_value :
    (n : ℕ)
    → n < 10000
    → ((digit (n / 1000) - b'0') * 10 + (digit (n / 100) - b'0')) * 100
        + ((digit (n / 10) - b'0') * 10 + (digit n - b'0'))
      ≡ n
year_value n h = omega arith

-- A moment of a year below 10000 is written with nineteen characters, from which it can be read.
pub read_moment-convert_timestamp :
    (t : Moment)
    → IsMoment t
    → (length (convert_timestamp t) ≡ 19) × (read_moment (convert_timestamp t) ≡ t)
unfolding convert_timestamp
read_moment-convert_timestamp t v =
    rw
      (
        pad_four t.year v.year,
        pad_two t.month v.month,
        pad_two t.day v.day,
        pad_two t.hour v.hour,
        pad_two t.minute v.minute,
        pad_two t.second v.second,
      )
      (
        refl,
        rw
            (
              year_value t.year v.year,
              pair_value t.month v.month,
              pair_value t.day v.day,
              pair_value t.hour v.hour,
              pair_value t.minute v.minute,
              pair_value t.second v.second,
            )
            refl,
      )
