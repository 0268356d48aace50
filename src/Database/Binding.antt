-- ===== src/Database/Binding.antt =====
-- What the client is given for a parameter.
use fcgi_cpp_appserver.Common.{
  ℕ, ◌≡◌, refl, sym, ap, ◌∙◌, ◌&&◌, none, some, List, [], ltb, ◌==◌, if◌then◌else◌, length, set,
  get_elem?, get_elem?-set_self, get_elem?-set_ne, ==_iff, arith, inl, inr, Bool-cases, replicate,
}
use fcgi_cpp_appserver.Common.Bytes.{Bytes, codes}
use fcgi_cpp_appserver.Database.{
  Client, Stmt, Param, bind, execute, prepare, returns, throws, Fetched, no_row,
}

get_elem?-bind_other :
    (s : Stmt) (colno i : ℕ) (p : Param)
    → ¬ (colno ≡ i)
    → get_elem? (bind s colno p).params i ≡ get_elem? s.params i
unfolding bind
get_elem?-bind_other s colno i p other = elim (Bool-cases (ltb colno (length s.params))) [
  | inl inside ↦ rw inside (get_elem?-set_ne s.params (some p) other)
  | inr outside ↦ rw outside refl
]

-- A parameter that is bound is given to the client as the value of the last binding; the others, and a
-- statement with too few parameters, are left alone.
get_elem?-bind :
    (s : Stmt) (colno i : ℕ) (p : Param)
    → get_elem? (bind s colno p).params i
      ≡ (if colno == i && ltb colno (length s.params) then some (some p) else get_elem? s.params i)
unfolding bind
get_elem?-bind s colno i p = elim (Bool-cases (colno == i)) [
  | inr other ↦ rw other (get_elem?-bind_other s colno i p (λ e. ground arith))
  | inl same ↦ elim (Bool-cases (ltb colno (length s.params))) [
    | inr outside ↦ rw (same, outside) refl
    | inl inside ↦
        rw (same, inside)
          (ap (λ k. get_elem? (set s.params colno (some p)) k) (sym ((==_iff colno i).0 same))
            ∙ get_elem?-set_self s.params colno (some p) (ground arith))
  ]
]

-- A statement as its constructor leaves it: no row, and no parameter bound.
pub prepare_counted :
    (client : Client) (text : Bytes) (count : ℕ)
    → client.prepare text ≡ some count
    → prepare client text
      ≡ returns (record { text = text; params = replicate count none; left = []; current = no_row })
unfolding prepare
prepare_counted client text count h = rw (h, prepare) refl

-- A statement that the client runs.
pub execute_rows :
    (client : Client) (s : Stmt) (rows : List Fetched)
    → client.run s.text s.params ≡ some rows
    → execute client s ≡ returns (record s { left = rows })
unfolding execute
execute_rows client s rows h = rw (h, execute) refl

-- A statement that the client refuses to run.
pub execute_fails :
    (client : Client) (s : Stmt)
    → client.run s.text s.params ≡ none
    → execute client s ≡ throws (record { msg = client.error; stage = codes "execute" })
unfolding execute
execute_fails client s h = rw (h, execute) refl

-- A statement that the client refuses to prepare.
pub prepare_fails :
    (client : Client) (text : Bytes)
    → client.prepare text ≡ none
    → prepare client text ≡ throws (record { msg = client.error; stage = codes "prepare" })
unfolding prepare
prepare_fails client text h = rw (h, prepare) refl
