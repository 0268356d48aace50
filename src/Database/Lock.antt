-- ===== src/Database/Lock.antt =====
-- `DBScopedLock` of src/db/db_pool.h: a lock of the database's server, by its name.
use fcgi_cpp_appserver.Common.{
  ℕ, ◌≡◌, refl, ap, ◌∙◌, Bool, true, false, not, ◌&&◌, Option, none, some, List, [], ◌∷◌, ◌==◌,
  if◌then◌else◌, replicate,
}
use fcgi_cpp_appserver.Common.Bytes.{Bytes, codes}
use fcgi_cpp_appserver.Database.Columns.{long_long, column_to_string}
use fcgi_cpp_appserver.Database.Numbers.{read_int-show_signed, IsInt}
use fcgi_cpp_appserver.Database.{
  Client, string, Fetched, row, Row, no_row, Stmt, Result, returns, throws, ◌>>=◌, prepare, bind,
  bind_string, execute, fetch, as_int, as_string, text_of, is_null, fetch_from,
}

-- `unknown` is a read behind the row's columns, or of an `int` that was never set.
pub data Grant : Type 0 where
  granted refused unknown : Grant

unfoldable pub judge_int : Option (Bool × ℕ) → Grant
judge_int none = unknown
judge_int (some (negative, n)) = if not negative && n == 1 then granted else refused

-- The row of `get_lock`, `none` being no row.
unfoldable pub judge : Option Stmt → Result Grant
unfolding judge_int
judge none = returns refused
judge (some s) = elim (is_null s 0) [
  | none ↦ returns unknown
  | some true ↦ returns refused
  | some false ↦ as_int s 0 >>= λ i. returns (judge_int i)
]

unfoldable pub refuse : Grant → Result Grant
refuse granted = returns granted
refuse unknown = returns unknown
refuse refused =
    throws (record { msg = codes "cannot optain version lock"; stage = codes "get_lock" })

-- The constructor, from the end: behind `execute`, behind the preparation, and as a whole.
unfoldable pub told : Stmt → Result Grant
unfolding judge refuse
told t = fetch t >>= λ r. judge r >>= λ g. refuse g

unfoldable pub ask : Client → Bytes → Stmt → Result Grant
unfolding told
ask client lockname s = execute client (bind_string s 0 lockname) >>= λ t. told t

unfoldable pub acquire : Client → Bytes → Result Grant
unfolding ask
acquire client lockname =
    prepare client (codes "select get_lock(?, 0)") >>= λ s. ask client lockname s

-- The destructor.
unfoldable pub release : Client → Bytes → Result Stmt
release client lockname =
    prepare client (codes "do release_lock(?)") >>= λ s. execute client (bind_string s 0 lockname)

-- What the lock's holder is told, by the row's number and whether it is NULL.
abbrev pub grant_of : Bool → Bool → ℕ → Grant
grant_of null negative n =
    if null then refused else if not negative && n == 1 then granted else refused

abbrev pub lock_row : Bool → Bool → ℕ → Row
lock_row null negative n = record { columns = long_long negative n ∷ []; nulls = null ∷ [] }

judge-row :
    (s : Stmt) (null negative : Bool) (n : ℕ)
    → IsInt negative n
    → judge (some (record s { current = lock_row null negative n }))
      ≡ returns (grant_of null negative n)
unfolding judge is_null as_int as_string text_of column_to_string judge_int
judge-row s true negative n h = refl
judge-row s false negative n h = ap (λ o. returns (judge_int o)) (read_int-show_signed negative n h)

prepares :
    (client : Client) (count : ℕ) (text : Bytes)
    → client.prepare text ≡ some count
    → prepare client text
      ≡ returns (record { text = text; params = replicate count none; left = []; current = no_row })
unfolding prepare
prepares client count text e = rw (prepare, e) refl

executes :
    (client : Client) (s : Stmt) (rows : List Fetched)
    → client.run s.text s.params ≡ some rows
    → execute client s ≡ returns (record s { left = rows })
unfolding execute
executes client s rows e = rw (execute, e) refl

asks :
    (client : Client) (lockname : Bytes) (null negative : Bool) (n : ℕ) (rows : List Fetched)
    → client.run (codes "select get_lock(?, 0)") (some (string lockname) ∷ [])
      ≡ some (row (lock_row null negative n) ∷ rows)
    → IsInt negative n
    → ask client lockname (record {
      text = codes "select get_lock(?, 0)";
      params = none ∷ [];
      left = [];
      current = no_row;
    })
      ≡ refuse (grant_of null negative n)
unfolding ask told fetch fetch_from bind
asks client lockname null negative n rows r h =
    let s : Stmt = record {
      text = codes "select get_lock(?, 0)";
      params = some (string lockname) ∷ [];
      left = [];
      current = no_row;
    } in
    let left_of : Stmt = record s { left = rows } in
    ap (λ o. o >>= λ t. told t) (executes client s (row (lock_row null negative n) ∷ rows) r)
    ∙ ap (λ o. o >>= λ g. refuse g) (judge-row left_of null negative n h)

-- Where the server prepares the statement, with its one parameter, and answers to it with a row, the
-- constructor has the lock just where the row's number is 1 and not NULL, and throws otherwise.
pub acquire-grant_of :
    (client : Client) (lockname : Bytes) (null negative : Bool) (n : ℕ) (rows : List Fetched)
    → client.prepare (codes "select get_lock(?, 0)") ≡ some 1
    → client.run (codes "select get_lock(?, 0)") (some (string lockname) ∷ [])
      ≡ some (row (lock_row null negative n) ∷ rows)
    → IsInt negative n
    → acquire client lockname ≡ refuse (grant_of null negative n)
unfolding acquire
acquire-grant_of client lockname null negative n rows p r h =
    ap (λ o. o >>= λ s. ask client lockname s) (prepares client 1 (codes "select get_lock(?, 0)") p)
    ∙ asks client lockname null negative n rows r h
