-- ===== src/Pool/Maintenance.antt =====
-- What a turn of `maintenance_thread_func` of src/db/db_pool.cpp deletes.
use mathlib.Core.List.{Nodup-cons, eq-or-mem_of_mem-cons, not-mem-nil, mem-cons_self}
use mathlib.Core.List.Perm
use std.HLevel.{⊥_prop}
use mathlib.Core.Logic.{∥∥₁_elim}
use mathlib.Core.List.{Perm, Mem}
use fcgi_cpp_appserver.Common.{
  ℕ, ◌+◌, ◌-◌, ◌≡◌, refl, inl, inr, Bool, true, false, Option, none, some, List, [], ◌∷◌, arith,
  ◌==◌, ==_iff, leb, if◌then◌else◌, length, Bool-cases,
}
use fcgi_cpp_appserver.Pool.{Pool, find_idle, delete, maintain}
use fcgi_cpp_appserver.Pool.Owners.{Owns}

-- A list, and what is left of it without one of its items.
abbrev pub Splits : List ℕ → Option (ℕ × List ℕ) → Type 0
Splits xs none = Unit
Splits xs (some (c, rest)) = Perm xs (c ∷ rest) × (length xs ≡ length rest + 1)

Splits-cons :
    (c : ℕ) (cs : List ℕ) (r : Option (ℕ × List ℕ))
    → Splits cs r
    → Splits (c ∷ cs) (elim r [ none ↦ none | some (d, ds) ↦ some (d, c ∷ ds) ])
Splits-cons c cs none h = tt
Splits-cons c cs (some (d, ds)) h =
    (Perm.trans (Perm.cons c h.0) (Perm.swap d c ds), ground (arith, h.1))

find_idle-Splits :
    (last_used : ℕ → ℕ) (now : ℕ) (xs : List ℕ) → Splits xs (find_idle last_used now xs)
unfolding find_idle
find_idle-Splits last_used now [] = tt
find_idle-Splits last_used now (c ∷ cs) = elim (Bool-cases (leb 60 (now - last_used c))) [
  | inl idle ↦ rw (idle, Splits) (Perm.refl (c ∷ cs), ground arith)
  | inr busy ↦
      rw (busy, Splits)
        (Splits-cons c cs (find_idle last_used now cs) (find_idle-Splits last_used now cs))
]

-- `delete` of an item, or the item is not there.
abbrev pub Dropped : ℕ → List ℕ → Option (List ℕ) → Type 0
Dropped c xs none = ¬ (Mem c xs)
Dropped c xs (some ys) = Perm xs (c ∷ ys)

Dropped-cons :
    (c d : ℕ) (ds : List ℕ) (r : Option (List ℕ))
    → ¬ (c ≡ d)
    → Dropped c ds r
    → Dropped c (d ∷ ds) (elim r [ none ↦ none | some es ↦ some (d ∷ es) ])
Dropped-cons c d ds none other h =
    λ m. ∥∥₁_elim (eq-or-mem_of_mem-cons m) ⊥_prop (elim [ inl e ↦ other e | inr n ↦ h n ])
Dropped-cons c d ds (some es) other h = Perm.trans (Perm.cons d h) (Perm.swap c d es)

pub delete-Dropped : (c : ℕ) (xs : List ℕ) → Dropped c xs (delete c xs)
unfolding delete
delete-Dropped c [] = not-mem-nil
delete-Dropped c (d ∷ ds) = elim (Bool-cases (d == c)) [
  | inl same ↦ rw (same, Dropped) (rw ((==_iff d c).0 same) (Perm.refl (c ∷ ds)))
  | inr other ↦
      rw (other, Dropped)
        (Dropped-cons c d ds (delete c ds) (λ e. ground arith) (delete-Dropped c ds))
]

-- A turn of the maintenance keeps the books, and deletes a live connection.
pub data MaintainedWell (p : Pool) (lent : List ℕ) : Option Pool → Type 0 where
  kept : (q : Pool) → Owns q lent → MaintainedWell p lent (some q)
  shut : p.locked ≡ true → MaintainedWell p lent none

module _ (p : Pool) (lent : List ℕ) (o : Owns p lent) where
  remove-MaintainedWell :
      (c : ℕ) (rest : List ℕ) (live : Option (List ℕ))
      → Splits p.available_connections (some (c, rest))
      → Dropped c p.live live
      → MaintainedWell p lent (elim live [
        | none ↦ none
        | some live ↦ some (record p {
          available_connections = rest;
          num_connections = p.num_connections - 1;
          num_available = p.num_available - 1;
          live = live;
        })
      ])
  remove-MaintainedWell c rest none e gone =
      absurd
        (gone ((Perm.mem_iff (Perm.trans o.owned (Perm.append_right lent e.0))).1 mem-cons_self))
  remove-MaintainedWell c rest (some live) e d = kept _ (record {
    available_counted = ground (arith, o.available_counted, e.1);
    counted = ground (arith, o.counted, e.1);
    bounded = ground (arith, o.bounded);
    owned =
        Perm.cons_inv (Perm.trans (Perm.symm d) (Perm.trans o.owned (Perm.append_right lent e.0)));
    distinct = (Nodup-cons.0 (Perm.nodup d o.distinct)).1;
  })

  idle-MaintainedWell :
      (r : Option (ℕ × List ℕ))
      → Splits p.available_connections r
      → MaintainedWell p lent (elim r [
        | none ↦ some p
        | some (c, rest) ↦ elim (delete c p.live) [
          | none ↦ none
          | some live ↦ some (record p {
            available_connections = rest;
            num_connections = p.num_connections - 1;
            num_available = p.num_available - 1;
            live = live;
          })
        ]
      ])
  idle-MaintainedWell none e = kept p o
  idle-MaintainedWell (some (c, rest)) e =
      remove-MaintainedWell c rest (delete c p.live) e (delete-Dropped c p.live)

  maintain_by :
      (b : Bool) (x : Option Pool)
      → p.locked ≡ b
      → MaintainedWell p lent x
      → MaintainedWell p lent (if b then none else x)
  maintain_by true x e h = shut e
  maintain_by false x e h = h

  -- A turn of the maintenance keeps the books: it deletes a connection that is alive, once, or ends
  -- without one; it never ends only for a mutex that was left locked.
  pub maintain-MaintainedWell : (now : ℕ) → MaintainedWell p lent (maintain p now)
  unfolding maintain
  maintain-MaintainedWell now = maintain_by p.locked _ refl (
      idle-MaintainedWell (find_idle p.last_used now p.available_connections)
        (find_idle-Splits p.last_used now p.available_connections))
