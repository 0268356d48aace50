-- ===== src/Handling/Ends.antt =====
-- The calls of the handlers of src/server that have a defined end: they return, or they throw.
use fcgi_cpp_appserver.Common.{
  ◌≡◌, refl, subst, Option, none, some, List, [], ◌∷◌, inl, inr, Option-cases,
}
use fcgi_cpp_appserver.Common.Bytes.{Bytes, c_str}
use fcgi_cpp_appserver.Common.Dict.{All}
use fcgi_cpp_appserver.Database
use fcgi_cpp_appserver.Database.{
  Client, Result, Stmt, Row, Fetched, row, failed, prepare, execute, fetch_from,
}
use fcgi_cpp_appserver.Database.Binding.{
  prepare_counted, prepare_fails, execute_rows, execute_fails,
}
use fcgi_cpp_appserver.Exception.{Exception}
use fcgi_cpp_appserver.Handling.{
  Run, returns, db_error, throws, undefined, out_of_fuel, ◌>>=◌, lift, each_row, run_stmt,
  return_error, answer_with,
}

abbrev pub Ends {ℓ} : {A : Type ℓ} → Run A → Type 0
Ends (returns a) = Unit
Ends (db_error e) = Unit
Ends (throws e) = Unit
Ends undefined = ⊥
Ends out_of_fuel = ⊥

pub bind_assoc {ℓ κ ι} :
    {A : Type ℓ} {B : Type κ} {C : Type ι} (r : Run A) (f : A → Run B) (g : B → Run C)
    → ((r >>= f) >>= g) ≡ (r >>= λ a. f a >>= g)
bind_assoc (returns a) f g = refl
bind_assoc (db_error e) f g = refl
bind_assoc (throws e) f g = refl
bind_assoc undefined f g = refl
bind_assoc out_of_fuel f g = refl

pub bind-Ends {ℓ κ} :
    {A : Type ℓ} {B : Type κ} (r : Run A) (f : A → Run B)
    → Ends r
    → ((a : A) → r ≡ returns a → Ends (f a))
    → Ends (r >>= f)
bind-Ends (returns a) f h k = k a refl
bind-Ends (db_error e) f h k = tt
bind-Ends (throws e) f h k = tt
bind-Ends undefined f h k = h
bind-Ends out_of_fuel f h k = h

pub lift-Ends {ℓ} : {A : Type ℓ} (r : Result A) → Ends (lift r)
lift-Ends (Database.returns a) = tt
lift-Ends (Database.throws e) = tt

-- What each row that is fetched satisfies.
abbrev pub OfRow : (Row → Type 0) → Fetched → Type 0
OfRow P (row r) = P r
OfRow P (failed e) = Unit

pub each_row-Ends {ℓ} :
    {S : Type ℓ} (P : Row → Type 0) (body : Stmt → S → Run S)
    → ((stmt : Stmt) (s : S) → P stmt.current → Ends (body stmt s))
    → (rows : List Fetched) (stmt : Stmt) (s : S) → All (OfRow P) rows
    → Ends (each_row body rows stmt s)
unfolding each_row fetch_from
each_row-Ends P body h [] stmt s all = tt
each_row-Ends P body h (failed e ∷ rows) stmt s all = tt
each_row-Ends P body h (row r ∷ rows) stmt s all =
    let stmt' : Stmt = record stmt { left = rows; current = r } in
    bind-Ends (body stmt' s) (λ t. each_row body rows stmt t) (h stmt' s all.0)
      (λ t e. each_row-Ends P body h rows stmt t all.1)

-- What the client's answers to a statement satisfy, whatever is bound.
abbrev pub Answers : Client → (Row → Type 0) → Bytes → Type 0
Answers client P query =
    (params : List (Option Database.Param)) (rows : List Fetched)
    → client.run query params ≡ some rows
    → All (OfRow P) rows

pub answer_with-Ends :
    (r : Run (Bytes × Option Exception))
    → Ends r
    → (out : Bytes × Option Exception) × (answer_with r ≡ some out)
unfolding answer_with
answer_with-Ends (returns out) h = (out, refl)
answer_with-Ends (db_error e) h = ((return_error (c_str e.msg) 200, none), refl)
answer_with-Ends (throws e) h = (([], some e), refl)
answer_with-Ends undefined h = absurd h
answer_with-Ends out_of_fuel h = absurd h

module _ {ℓ} {A : Type ℓ} (client : Client) (P : Row → Type 0) (query : Bytes)
    (h : Answers client P query) (f : Stmt → Run A)
    (k : (stmt : Stmt) → All (OfRow P) stmt.left → Ends (f stmt)) where
  execute-Ends : (s : Stmt) → s.text ≡ query → Ends (lift (execute client s) >>= f)
  execute-Ends s e = elim (Option-cases (client.run s.text s.params)) [
    | inl fails ↦ rw (execute_fails client s fails) tt
    | inr (rows, runs) ↦ rw (execute_rows client s rows runs) (
        k (record s { left = rows })
          (h s.params rows (subst (λ t. client.run t s.params ≡ some rows) e runs)))
  ]

  pub run_stmt-Ends :
      (binds : Stmt → Stmt)
      → ((s : Stmt) → (binds s).text ≡ s.text)
      → Ends (run_stmt client query binds >>= f)
  unfolding run_stmt
  run_stmt-Ends binds same = elim (Option-cases (client.prepare query)) [
    | inl fails ↦ rw (prepare_fails client query fails) tt
    | inr (count, counted) ↦
        rw (prepare_counted client query count counted) (execute-Ends (binds _) (same _))
  ]
