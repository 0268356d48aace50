-- ===== src/Pool/Owners.antt =====
-- Who has each connection: every live one is available or lent, never both, and the counters are
-- right.
use mathlib.Core.List.{perm_middle, Nodup-cons}
use mathlib.Core.List.Perm
use mathlib.Core.List.{Perm, Nodup, Mem}
use fcgi_cpp_appserver.Common.{
  ℕ, ◌+◌, ◌≤◌, ◌<◌, ◌≡◌, refl, inl, inr, Bool, true, false, ◌&&◌, Option, none, some, List, [], ◌∷◌,
  ◌++◌, append_assoc, arith, ltb, ◌==◌, if◌then◌else◌, length, length-append, Bool-cases,
}
use fcgi_cpp_appserver.Pool.{
  Pool, Got, got, waits, throws, blocked, undefined_behaviour, touch, is_empty, grow, take_from,
  get_locked, get, get_woken, put,
}

-- `lent` are the connections that callers have.
pub record Owns (p : Pool) (lent : List ℕ) : Type 0 where
  pub available_counted : p.num_available ≡ length p.available_connections
  pub counted : p.num_connections ≡ length p.available_connections + length lent
  pub bounded : p.num_connections ≤ p.max_connections
  pub owned : Perm p.live (p.available_connections ++ lent)
  pub distinct : Nodup p.live

-- The allocator gives no object that is still alive.
abbrev pub IsFresh : Option ℕ → List ℕ → Type 0
IsFresh none live = Unit
IsFresh (some c) live = ¬ (Mem c live)

-- What a call of `get` keeps: the connection that it gives is the caller's.
abbrev pub OwnsGot : List ℕ → Got → Type 0
OwnsGot lent (got c q) = Owns q (c ∷ lent)
OwnsGot lent (waits q) = Owns q lent
OwnsGot lent (throws q) = Owns q lent
OwnsGot lent blocked = Unit
OwnsGot lent undefined_behaviour = Unit

module _ (p : Pool) (lent : List ℕ) (o : Owns p lent) where
  take_from-OwnsGot :
      (xs : List ℕ) (now : ℕ) → p.available_connections ≡ xs → OwnsGot lent (take_from xs p now)
  unfolding take_from
  take_from-OwnsGot [] now e = tt
  take_from-OwnsGot (c ∷ rest) now e = record {
    available_counted = ground (arith, o.available_counted);
    counted = ground (arith, o.counted);
    bounded = o.bounded;
    owned = Perm.trans (rw e at o.owned) (Perm.symm (perm_middle rest lent));
    distinct = o.distinct;
  }

  grow-OwnsGot :
      (connected : Option ℕ) (now : ℕ)
      → IsFresh connected p.live
      → p.num_connections < p.max_connections
      → OwnsGot lent (elim (grow p connected) [
        | none ↦ throws (record p { locked = true })
        | some (c, q) ↦ got c (touch c now q)
      ])
  unfolding grow
  grow-OwnsGot none now fresh room = record {
    available_counted = o.available_counted;
    counted = o.counted;
    bounded = o.bounded;
    owned = o.owned;
    distinct = o.distinct;
  }
  grow-OwnsGot (some c) now fresh room = record {
    available_counted = o.available_counted;
    counted = ground (arith, o.counted);
    bounded = ground arith;
    owned = Perm.trans (Perm.cons c o.owned) (Perm.symm (perm_middle p.available_connections lent));
    distinct = Nodup-cons.1 (fresh, o.distinct);
  }

  get_locked-OwnsGot :
      (connected : Option ℕ) (now : ℕ)
      → IsFresh connected p.live
      → OwnsGot lent (get_locked p connected now)
  unfolding get_locked
  get_locked-OwnsGot connected now fresh =
      elim (Bool-cases (p.num_available == 0 && ltb p.num_connections p.max_connections)) [
        | inl room ↦ rw (room, OwnsGot) (grow-OwnsGot connected now fresh (ground arith))
        | inr full ↦
            rw (full, OwnsGot)
              (elim (Bool-cases (is_empty p.available_connections)) [
                | inl none_left ↦ rw (none_left, OwnsGot) o
                | inr some_left ↦
                    rw (some_left, OwnsGot) (take_from-OwnsGot p.available_connections now refl)
              ])
      ]

  by_test :
      (b : Bool) (x y : Got) → OwnsGot lent x → OwnsGot lent y → OwnsGot lent (if b then x else y)
  by_test true x y l r = l
  by_test false x y l r = r

  -- `get` keeps the books, in each of its ends.
  pub get-OwnsGot :
      (connected : Option ℕ) (now : ℕ)
      → IsFresh connected p.live
      → OwnsGot lent (get p connected now)
  unfolding get
  get-OwnsGot connected now fresh =
      by_test p.locked blocked _ tt (get_locked-OwnsGot connected now fresh)

  pub get_woken-OwnsGot : (now : ℕ) → OwnsGot lent (get_woken p now)
  unfolding get_woken
  get_woken-OwnsGot now =
      by_test p.locked blocked _ tt (take_from-OwnsGot p.available_connections now refl)

-- What a call of `put` or a turn of the maintenance keeps.
abbrev pub OwnsNext : List ℕ → Option Pool → Type 0
OwnsNext lent none = Unit
OwnsNext lent (some q) = Owns q lent

by_guard :
    (lent : List ℕ) (b : Bool) (x y : Option Pool)
    → OwnsNext lent x
    → OwnsNext lent y
    → OwnsNext lent (if b then x else y)
by_guard lent true x y l r = l
by_guard lent false x y l r = r

perm_put : (ws xs ys : List ℕ) (c : ℕ) → Perm (ws ++ (xs ++ c ∷ ys)) ((ws ++ c ∷ []) ++ (xs ++ ys))
perm_put ws xs ys c =
    rw (append_assoc ws (c ∷ []) (xs ++ ys)) (Perm.append_left ws (perm_middle xs ys))

-- A caller that has `c` gives it back.
pub put-OwnsNext :
    (p : Pool) (xs ys : List ℕ) (c now : ℕ)
    → Owns p (xs ++ c ∷ ys)
    → OwnsNext (xs ++ ys) (put p c now)
unfolding put
put-OwnsNext p xs ys c now o = by_guard (xs ++ ys) p.locked none _ tt (record {
  available_counted =
      ground (arith, o.available_counted, length-append p.available_connections (c ∷ []));
  counted = ground (
    arith,
    o.counted,
    length-append p.available_connections (c ∷ []),
    length-append xs (c ∷ ys),
    length-append xs ys,
  );
  bounded = o.bounded;
  owned = Perm.trans o.owned (perm_put p.available_connections xs ys c);
  distinct = o.distinct;
})
