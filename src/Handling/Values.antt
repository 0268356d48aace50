-- ===== src/Handling/Values.antt =====
-- The values that the handlers of src/server read from a row.
use fcgi_cpp_appserver.Common.{ℕ, ◌<◌, Bool, ◌≡◌, refl, some, get_elem?, length, arith}
use fcgi_cpp_appserver.Common.Bytes.{Bytes}
use fcgi_cpp_appserver.Database
use fcgi_cpp_appserver.Database.{Stmt, Row, as_string, text_of}
use fcgi_cpp_appserver.Database.Columns
use fcgi_cpp_appserver.Database.Columns.{
  Column, Moment, column_to_string, convert_timestamp, show_signed,
}
use fcgi_cpp_appserver.Database.Numbers.{IsInt, read_int-show_signed}
use fcgi_cpp_appserver.Database.Timestamps.{IsMoment, read_moment-convert_timestamp}
use fcgi_cpp_appserver.Handling.{returns, as_int}

-- A column whose text is that of a number that fits an `int`.
abbrev pub IsNumber : Row → ℕ → Bool → ℕ → Type 0
IsNumber r colno negative n =
    ((c : Column) × (get_elem? r.columns colno ≡ some c)
      × (column_to_string c ≡ some (show_signed negative n))
      × IsInt negative n)

-- A column of type DATETIME.
abbrev pub IsTime : Row → ℕ → Type 0
IsTime r colno =
    ((t : Moment) × (get_elem? r.columns colno ≡ some (Columns.date_time t)) × IsMoment t)

-- `asInt` gives the number.
pub as_int-IsNumber :
    (s : Stmt) (colno : ℕ) (negative : Bool) (n : ℕ)
    → IsNumber s.current colno negative n
    → as_int s colno ≡ returns (negative, n)
unfolding as_int Database.as_int as_string text_of
as_int-IsNumber s colno negative n (c, at, text, fits) =
    rw (at, text_of, text, read_int-show_signed negative n fits) refl

-- `asInt` gives the number of a LONG column.
pub as_int_lem :
    (s : Stmt) (colno : ℕ) (negative : Bool) (n : ℕ)
    → get_elem? s.current.columns colno ≡ some (Columns.long negative n)
    → IsInt negative n
    → as_int s colno ≡ returns (negative, n)
unfolding column_to_string
as_int_lem s colno negative n e h =
    as_int-IsNumber s colno negative n (Columns.long negative n, e, refl, h)

-- The text of a time has more than ten characters.
pub as_string-IsTime :
    (s : Stmt) (colno : ℕ)
    → IsTime s.current colno
    → (text : Bytes) × (as_string s colno ≡ Database.returns text) × (10 < length text)
unfolding as_string text_of column_to_string
as_string-IsTime s colno (t, at, valid) =
    (convert_timestamp t, rw at refl, rw ((read_moment-convert_timestamp t valid).0) (omega arith))
