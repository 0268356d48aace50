-- ===== src/Database.antt =====
-- `DBStmt` and `db_exception` of src/db/db_pool.h. The MySQL client is a parameter: what it answers to a
-- statement. Closing a statement succeeds.
pub mod Columns
pub mod Timestamps
pub mod Numbers
pub mod Binding
pub mod Lock
use fcgi_cpp_appserver.Common.{
  ℕ, zero, suc, ◌+◌, ◌-◌, Bool, true, false, Option, none, some, List, [], ◌∷◌, ◌++◌, ltb, leb,
  if◌then◌else◌, length, replicate, set, get_elem?, map,
}
use fcgi_cpp_appserver.Common.Bytes.{Bytes, codes}
use fcgi_cpp_appserver.Database.Columns
use fcgi_cpp_appserver.Database.Columns.{Column}

pub record DbException : Type 0 where
  pub msg : Bytes
  pub stage : Bytes

-- What a `MYSQL_BIND` of a parameter holds. A blob's text is sent apart, just before the statement runs.
pub data Param : Type 0 where
  long : Bool → ℕ → Param
  double string blob : Bytes → Param

-- A row as `mysql_stmt_fetch` leaves it in the buffers, which a NULL leaves alone, and which columns are
-- NULL; or an error. No text is longer than its buffer.
pub record Row : Type 0 where
  pub columns : List Column
  pub nulls : List Bool

pub data Fetched : Type 0 where
  row : Row → Fetched
  failed : Bytes → Fetched

-- The client: how many parameters a statement has, or the error of `mysql_stmt_prepare`; and the rows
-- that it gives with its parameters bound, or the error of `mysql_stmt_execute`. A parameter that is not
-- bound is `none`: its `MYSQL_BIND` holds what the memory held before.
pub record Client : Type 0 where
  pub prepare : Bytes → Option ℕ
  pub run : Bytes → List (Option Param) → Option (List Fetched)
  pub error : Bytes

pub record Stmt : Type 0 where
  pub text : Bytes
  pub params : List (Option Param)
  pub left : List Fetched
  pub current : Row

abbrev pub no_row : Row
no_row = record { columns = []; nulls = [] }

-- A call that may throw a `db_exception`.
pub data Result {ℓ} (A : Type ℓ) : Type ℓ where
  returns : A → Result A
  throws : DbException → Result A

infixl 5 ◌>>=◌
abbrev pub ◌>>=◌ {ℓ κ} : {A : Type ℓ} {B : Type κ} → Result A → (A → Result B) → Result B
returns a >>= f = f a
throws e >>= f = throws e

-- The constructor.
unfoldable pub prepare : Client → Bytes → Result Stmt
prepare client text = elim (client.prepare text) [
  | none ↦ throws (record { msg = client.error; stage = codes "prepare" })
  | some count ↦
      returns (record { text = text; params = replicate count none; left = []; current = no_row })
]

-- `if(colno < m_param_count)`.
unfoldable pub bind : Stmt → ℕ → Param → Stmt
bind s colno p =
    if ltb colno (length s.params) then record s { params = set s.params colno (some p) } else s

abbrev pub bind_int : Stmt → ℕ → Bool → ℕ → Stmt
bind_int s colno negative n = bind s colno (long negative n)

abbrev pub bind_double : Stmt → ℕ → Bytes → Stmt
bind_double s colno text = bind s colno (double text)

abbrev pub bind_string : Stmt → ℕ → Bytes → Stmt
bind_string s colno value = bind s colno (string value)

abbrev pub bind_blob : Stmt → ℕ → Bytes → Stmt
bind_blob s colno value = bind s colno (blob value)

-- Where a call in front of `mysql_stmt_execute` fails, the exception names that call as its stage; this
-- is not told apart here.
unfoldable pub execute : Client → Stmt → Result Stmt
execute client s = elim (client.run s.text s.params) [
  | none ↦ throws (record { msg = client.error; stage = codes "execute" })
  | some rows ↦ returns (record s { left = rows })
]

-- `fetch`, by the rows that are left: `none` is `false`.
unfoldable pub fetch_from : List Fetched → Stmt → Result (Option Stmt)
fetch_from [] s = returns none
fetch_from (failed e ∷ rows) s = throws (record { msg = e; stage = codes "stmt_fetch" })
fetch_from (row r ∷ rows) s = returns (some (record s { left = rows; current = r }))

unfoldable pub fetch : Stmt → Result (Option Stmt)
unfolding fetch_from
fetch s = fetch_from s.left s

-- `asString`, by the column.
unfoldable pub text_of : Option Column → Result Bytes
unfolding Columns.column_to_string
text_of none = returns []
text_of (some c) = elim (Columns.column_to_string c) [
  | none ↦ throws (record {
    msg = codes "Don't know how to convert type " ++ Columns.type_name c;
    stage = codes "stmt_fetch";
  })
  | some text ↦ returns text
]

unfoldable pub as_string : Stmt → ℕ → Result Bytes
unfolding text_of
as_string s colno = text_of (get_elem? s.current.columns colno)

-- `asInt`; `none` is what an `int` that was never set holds, where the text begins with no number.
unfoldable pub as_int : Stmt → ℕ → Result (Option (Bool × ℕ))
unfolding Columns.read_int
as_int s colno = as_string s colno >>= λ text. returns (Columns.read_int text)

-- `is_null`; `none` is a read behind the columns.
unfoldable pub is_null : Stmt → ℕ → Option Bool
is_null s colno = get_elem? s.current.nulls colno
