-- ===== src/Database/Columns.antt =====
-- `column_to_string` of src/db/db_pool.h, and the number that `asInt` reads from its text.
use fcgi_cpp_appserver.Common.{
  ℕ, ◌+◌, ◌-◌, ◌*◌, ◌||◌, ◌&&◌, Bool, true, false, Option, none, some, [], ◌∷◌, ◌++◌, ltb, leb,
  ◌==◌, if◌then◌else◌, length, replicate,
}
use fcgi_cpp_appserver.Common.Bytes.{Bytes, codes}
use fcgi_cpp_appserver.Common.Decimal.{show}

-- A `MYSQL_TIME`.
pub record Moment : Type 0 where
  pub year : ℕ
  pub month : ℕ
  pub day : ℕ
  pub hour : ℕ
  pub minute : ℕ
  pub second : ℕ

-- A column's buffer, by its type: a number with its sign, the text that a stream writes for a floating
-- one, the `actual_length` bytes of a text.
pub data Column : Type 0 where
  tiny short long long_long : Bool → ℕ → Column
  double float : Bytes → Column
  string var_string blob : Bytes → Column
  time date : Column
  date_time timestamp : Moment → Column
  other : Column

-- `o << std::setw(width) << n`, filled with '0'.
abbrev pub pad : ℕ → ℕ → Bytes
pad width n = replicate (width - length (show n)) b'0' ++ show n

unfoldable pub convert_timestamp : Moment → Bytes
convert_timestamp t =
    pad 4 t.year
    ++ b'-'
      ∷ (pad 2 t.month
          ++ b'-'
            ∷ (pad 2 t.day
                ++ b' ' ∷ (pad 2 t.hour ++ b':' ∷ (pad 2 t.minute ++ b':' ∷ pad 2 t.second))))

abbrev pub show_signed : Bool → ℕ → Bytes
show_signed negative n = if negative then b'-' ∷ show n else show n

-- `none` is the `db_exception` of the types TIME and DATE.
unfoldable pub column_to_string : Column → Option Bytes
unfolding convert_timestamp
column_to_string (tiny negative n) = some (show_signed negative n)
column_to_string (short negative n) = some (show_signed negative n)
column_to_string (long negative n) = some (show_signed negative n)
column_to_string (long_long negative n) = some (show_signed negative n)
column_to_string (double s) = some s
column_to_string (float s) = some s
column_to_string (string s) = some s
column_to_string (var_string s) = some s
column_to_string (blob s) = some s
column_to_string time = none
column_to_string date = none
column_to_string (date_time t) = some (convert_timestamp t)
column_to_string (timestamp t) = some (convert_timestamp t)
column_to_string other = some []

-- The type that the exception's message names.
unfoldable pub type_name : Column → Bytes
type_name time = codes "MYSQL_TYPE_TIME"
type_name _ = codes "MYSQL_TYPE_DATE"

-- `s >> i` for an `int`: blanks, a sign, digits. A number that does not fit becomes the nearest one.
abbrev pub is_blank : ℕ → Bool
is_blank c = c == b' ' || leb 9 c && leb c 13

abbrev pub is_digit : ℕ → Bool
is_digit c = leb b'0' c && leb c b'9'

unfoldable pub read_digits : ℕ → Bytes → ℕ
read_digits n [] = n
read_digits n (c ∷ s) =
    let rest = read_digits (n * 10 + (c - b'0')) s in if is_digit c then rest else n

abbrev pub clip : Bool → ℕ → ℕ
clip negative n =
    if negative
    then (if ltb 2147483648 n then 2147483648 else n)
    else if ltb 2147483647 n
    then 2147483647
    else n

abbrev pub read_number : Bool → Bytes → Option (Bool × ℕ)
read_number negative [] = none
read_number negative (c ∷ s) =
    if is_digit c then some (negative, clip negative (read_digits 0 (c ∷ s))) else none

unfoldable pub read_signed : Bytes → Option (Bool × ℕ)
unfolding read_digits
read_signed [] = none
read_signed (c ∷ s) =
    if c == b'-'
    then read_number true s
    else if c == b'+'
    then read_number false s
    else read_number false (c ∷ s)

unfoldable pub read_int : Bytes → Option (Bool × ℕ)
unfolding read_signed
read_int [] = none
read_int (c ∷ s) = if is_blank c then read_int s else read_signed (c ∷ s)
