-- ===== src/Handling.antt =====
-- What the handlers share: how a call ends that uses the database, the loop over a statement's rows, the
-- page that `return_error` of src/server/sitemap_handler.cpp and src/server/wp_handler.cpp writes, and
-- the answer with a document.
pub mod Values
pub mod Ends
use fcgi_cpp_appserver.Common.{
  ℕ, ◌-◌, ◌%◌, Bool, true, false, Option, none, some, List, [], ◌∷◌, ◌++◌, if◌then◌else◌,
}
use fcgi_cpp_appserver.Common.Bytes.{Bytes, codes, c_str}
use fcgi_cpp_appserver.Common.Decimal.{show}
use fcgi_cpp_appserver.Database
use fcgi_cpp_appserver.Database.{
  Client, DbException, Fetched, row, failed, Stmt, Result, fetch_from, prepare, execute,
  bind_string,
}
use fcgi_cpp_appserver.Exception.{Exception, runtime_error}
use fcgi_cpp_appserver.Xml.{Doc}

-- A call returns, ends in a `db_exception` or another exception, does what C++ leaves undefined, or goes
-- on after all its fuel.
pub data Run {ℓ} (A : Type ℓ) : Type ℓ where
  returns : A → Run A
  db_error : DbException → Run A
  throws : Exception → Run A
  undefined out_of_fuel : Run A

infixl 5 ◌>>=◌
abbrev pub ◌>>=◌ {ℓ κ} : {A : Type ℓ} {B : Type κ} → Run A → (A → Run B) → Run B
returns a >>= f = f a
db_error e >>= f = db_error e
throws e >>= f = throws e
undefined >>= f = undefined
out_of_fuel >>= f = out_of_fuel

abbrev pub lift {ℓ} : {A : Type ℓ} → Result A → Run A
lift (Database.returns a) = returns a
lift (Database.throws e) = db_error e

-- `while(stmt.fetch())`, by the rows that are left: each round calls `fetch`, and makes of the state
-- what the body does with the row.
unfoldable pub each_row {ℓ} : {S : Type ℓ} → (Stmt → S → Run S) → List Fetched → Stmt → S → Run S
each_row body [] stmt s = returns s
each_row body (failed e ∷ rows) stmt s =
    lift (fetch_from (failed e ∷ rows) stmt) >>= λ next. returns s
each_row body (row r ∷ rows) stmt s =
    body (record stmt { left = rows; current = r }) s >>= λ t. each_row body rows stmt t

-- A statement that is prepared, given its parameters, and executed.
unfoldable pub run_stmt : Client → Bytes → (Stmt → Stmt) → Run Stmt
run_stmt client query binds = do
  stmt ← lift (prepare client query)
  lift (execute client (binds stmt))

-- An `int` of the program, as a `size_t` and as an `unsigned`.
abbrev pub to_size : Bool × ℕ → ℕ
to_size (negative, n) = if negative then (18446744073709551616 - n) % 18446744073709551616 else n

abbrev pub to_unsigned : Bool × ℕ → ℕ
to_unsigned (negative, n) = if negative then (4294967296 - n) % 4294967296 else n

-- `asInt`, where the text begins with a number; an `int` that was never set is undefined. (Since C++11
-- the stream sets it to 0 unless the text is empty.)
unfoldable pub as_int : Stmt → ℕ → Run (Bool × ℕ)
as_int stmt colno = lift (Database.as_int stmt colno) >>= λ read. elim read [
  | none ↦ undefined
  | some i ↦ returns i
]

unfoldable pub return_error : Bytes → ℕ → Bytes
return_error msg status =
    codes "Status: "
    ++ (show status
        ++ (codes
              "\r\nContent-Type: text/html\r\n\r\n<html><head><title>Error</title></head><body><h2>An error has occured</h2><p>"
            ++ (msg ++ codes "</p></body></html>")))

-- The header and the document, which libxml2 writes, or cannot: `none`.
unfoldable pub send_doc : (Doc → Option Bytes) → Bytes → Doc → Bytes × Option Exception
send_doc dump content_type doc =
    let head = codes "Status: 200\r\nContent-Type: " ++ (content_type ++ codes "\r\n\r\n") in
    elim (dump doc) [
      | none ↦ (head, some (runtime_error (codes "cannot serialize document")))
      | some text ↦ (head ++ text, none)
    ]

-- A `try` block with its handler for `db_exception`: what the request is answered with, or none where
-- the call has no defined end.
unfoldable pub answer_with : Run (Bytes × Option Exception) → Option (Bytes × Option Exception)
answer_with (returns out) = some out
answer_with (db_error e) = some (return_error (c_str e.msg) 200, none)
answer_with (throws e) = some ([], some e)
answer_with undefined = none
answer_with out_of_fuel = none
