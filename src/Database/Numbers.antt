-- ===== src/Database/Numbers.antt =====
-- The numbers that `asInt` of src/db/db_pool.h reads back from the text of a column.
use fcgi_cpp_appserver.Common.{
  ℕ, zero, suc, ◌+◌, ◌*◌, ◌-◌, ◌/◌, ◌%◌, ◌<◌, ◌≤◌, ◌≡◌, ◌⊎◌, refl, ap, ◌∙◌, Bool, true, false, ◌&&◌,
  some, [], ◌∷◌, ◌++◌, if◌then◌else◌, arith, inl, inr,
}
use fcgi_cpp_appserver.Common.Bytes.{Bytes, c_str}
use fcgi_cpp_appserver.Common.Decimal.{show, show_loop}
use fcgi_cpp_appserver.Database.Columns.{
  is_digit, read_digits, read_number, read_signed, read_int, show_signed, clip,
}

abbrev pub are_digits : Bytes → Bool
are_digits [] = true
are_digits (c ∷ s) = is_digit c && are_digits s

are_digits-append :
    (s t : Bytes) → are_digits s ≡ true → are_digits t ≡ true → are_digits (s ++ t) ≡ true
are_digits-append [] t h k = k
are_digits-append (c ∷ s) t h k = ground (arith, are_digits-append s t)

read_digits-append :
    (n d : ℕ) (s : Bytes)
    → are_digits s ≡ true
    → d < 10
    → read_digits n (s ++ (b'0' + d) ∷ []) ≡ read_digits n s * 10 + d
unfolding read_digits
read_digits-append n d [] h k = ground arith
read_digits-append n d (c ∷ s) h k = ground (arith, read_digits-append (n * 10 + (c - b'0')) d s)

pub le-or-lt : (a b : ℕ) → (a ≤ b) ⊎ (b < a)
le-or-lt a b = ground arith

pub show_loop-small : (fuel n : ℕ) → n < 10 → show_loop (suc fuel) n ≡ (b'0' + n) ∷ []
unfolding show_loop
show_loop-small fuel n h = ground arith

pub show_loop-big :
    (fuel n : ℕ) → 10 ≤ n → show_loop (suc fuel) n ≡ show_loop fuel (n / 10) ++ (b'0' + n % 10) ∷ []
unfolding show_loop
show_loop-big fuel n h = ground arith

pub show_loop-digits : (fuel n : ℕ) → n ≤ fuel → are_digits (show_loop fuel n) ≡ true
unfolding show_loop
show_loop-digits zero n h = ground arith
show_loop-digits (suc fuel) n h = elim (le-or-lt 10 n) [
  | inr small ↦ rw (show_loop-small fuel n small) (ground arith)
  | inl big ↦ rw (show_loop-big fuel n big) (
      are_digits-append (show_loop fuel (n / 10)) ((b'0' + n % 10) ∷ [])
        (show_loop-digits fuel (n / 10) (omega arith)) (ground arith))
]

read_digits-show_loop : (fuel n : ℕ) → n ≤ fuel → read_digits 0 (show_loop fuel n) ≡ n
unfolding show_loop read_digits
read_digits-show_loop zero n h = ground arith
read_digits-show_loop (suc fuel) n h = elim (le-or-lt 10 n) [
  | inr small ↦ rw (show_loop-small fuel n small) (ground arith)
  | inl big ↦ rw (show_loop-big fuel n big) (
      read_digits-append 0 (n % 10) (show_loop fuel (n / 10))
        (show_loop-digits fuel (n / 10) (omega arith)) (omega arith)
      ∙ ap (λ k. k * 10 + n % 10) (read_digits-show_loop fuel (n / 10) (omega arith))
      ∙ omega arith)
]

abbrev pub is_some_text : Bytes → Bool
is_some_text [] = false
is_some_text (c ∷ s) = true

is_some_text-append : (s : Bytes) (c : ℕ) → is_some_text (s ++ c ∷ []) ≡ true
is_some_text-append [] c = refl
is_some_text-append (d ∷ s) c = refl

pub show_loop-text : (fuel n : ℕ) → is_some_text (show_loop fuel n) ≡ true
unfolding show_loop
show_loop-text zero n = refl
show_loop-text (suc fuel) n = elim (le-or-lt 10 n) [
  | inr small ↦ rw (show_loop-small fuel n small) refl
  | inl big ↦
      rw (show_loop-big fuel n big) (is_some_text-append (show_loop fuel (n / 10)) (b'0' + n % 10))
]

read_number_lem :
    (negative : Bool) (s : Bytes)
    → are_digits s ≡ true
    → is_some_text s ≡ true
    → read_number negative s ≡ some (negative, clip negative (read_digits 0 s))
read_number_lem negative [] h k = ground arith
read_number_lem negative (c ∷ s) h k = ground arith

read_signed_lem :
    (negative : Bool) (s : Bytes)
    → are_digits s ≡ true
    → is_some_text s ≡ true
    → read_int (if negative then b'-' ∷ s else s) ≡ some (negative, clip negative (read_digits 0 s))
unfolding read_int read_signed
read_signed_lem true s h k = read_number_lem true s h k
read_signed_lem false [] h k = ground arith
read_signed_lem false (c ∷ s) h k = ground arith

-- What an `int` can hold.
abbrev pub IsInt : Bool → ℕ → Type 0
IsInt negative n = n ≤ (if negative then 2147483648 else 2147483647)

clip_int : (negative : Bool) (n : ℕ) → IsInt negative n → clip negative n ≡ n
clip_int true n h = ground arith
clip_int false n h = ground arith

-- The number of a LONG column is read back by `asInt` from the text that `asString` makes of it, with
-- its sign, if it fits an `int`.
pub read_int-show_signed :
    (negative : Bool) (n : ℕ)
    → IsInt negative n
    → read_int (show_signed negative n) ≡ some (negative, n)
unfolding show
read_int-show_signed negative n h =
    read_signed_lem negative (show n) (show_loop-digits n n (omega arith)) (show_loop-text n n)
    ∙ ap (λ k. some (negative, k))
        (ap (clip negative) (read_digits-show_loop n n (omega arith)) ∙ clip_int negative n h)

c_str-digits : (s : Bytes) → are_digits s ≡ true → c_str s ≡ s
unfolding c_str
c_str-digits [] h = refl
c_str-digits (c ∷ s) h = ground (arith, c_str-digits s)

-- The text of a number has no NUL in it.
pub c_str-show_signed :
    (negative : Bool) (n : ℕ) → c_str (show_signed negative n) ≡ show_signed negative n
unfolding show c_str
c_str-show_signed true n =
    ap (λ t. b'-' ∷ t) (c_str-digits (show n) (show_loop-digits n n (omega arith)))
c_str-show_signed false n = c_str-digits (show n) (show_loop-digits n n (omega arith))
