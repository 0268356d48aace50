-- ===== src/Pool/Faults.antt =====
-- What `DBPool` of src/db/db_pool.h does where it is not guarded.
use mathlib.Core.List.{
  Mem, Nodup, Nodup-cons, mem-cons_self, mem-cons_of_mem, eq-or-mem_of_mem-cons, not-mem-nil,
}
use mathlib.Core.List.Perm
use std.HLevel.{⊥_prop}
use mathlib.Core.Logic.{∥∥₁_elim}
use fcgi_cpp_appserver.Common.{
  ℕ, ◌+◌, ◌-◌, ◌≡◌, refl, Option-cases, if◌then◌else◌, ◌&&◌, subst, sym, ◌∙◌, inl, inr, ap, Bool,
  true, false, Option, none, some, List, [], ◌∷◌, ◌++◌, arith, ltb, ◌==◌,
}
use fcgi_cpp_appserver.Pool.{
  Pool, Got, got, waits, throws, blocked, undefined_behaviour, is_empty, touch, grow, take_from,
  get_locked, get, get_woken, put, maintain, find_idle, delete, delete_all, destroy,
}
use fcgi_cpp_appserver.Pool.Maintenance.{Dropped, delete-Dropped}

if_false : {A : Type 0} (b : Bool) (x : A) {y : A} → b ≡ false → (if b then x else y) ≡ y
if_false true x e = absurd (ground arith)
if_false false x e = refl

-- The pool is unlocked and has no available connection, and a thread waits. One thread gives a
-- connection back, another gets it, and the waiting one then takes the front of an empty list: `get`
-- does not test again behind `pthread_cond_wait`.
pub stolen_wakeup :
    (p : Pool) (connected : Option ℕ) (c now : ℕ)
    → p.locked ≡ false
    → p.available_connections ≡ []
    → p.num_available ≡ 0
    → (q : Pool) × (r : Pool) × (put p c now ≡ some q)
      × (get q connected now ≡ got c r)
      × (get_woken r now ≡ undefined_behaviour)
unfolding put get get_woken get_locked take_from
stolen_wakeup p connected c now free empty zero_left = (
  touch c now (record p { available_connections = c ∷ []; num_available = p.num_available + 1 }),
  touch c now (
      touch c now
        (record p { available_connections = []; num_available = p.num_available + 1 - 1 })),
  if_false p.locked _ free
      ∙ ap
          (λ xs. some (
            touch c now (record p {
              available_connections = xs ++ c ∷ [];
              num_available = p.num_available + 1;
            })))
          empty,
  if_false p.locked _ free
      ∙ if_false (p.num_available + 1 == 0 && ltb p.num_connections p.max_connections) _
          (ground arith),
  ground (arith, free),
)

locked_shut :
    (q : Pool) (connected : Option ℕ) (c now : ℕ)
    → q.locked ≡ true
    → (get q connected now ≡ blocked) × (put q c now ≡ none) × (maintain q now ≡ none)
unfolding get put maintain
locked_shut q connected c now shut = (simp (shut), simp (shut), simp (shut))

-- An exception leaves the mutex locked.
abbrev Shut : Got → Type 0
Shut (got c q) = Unit
Shut (waits q) = Unit
Shut (throws q) = q.locked ≡ true
Shut blocked = Unit
Shut undefined_behaviour = Unit

by_test : (b : Bool) (x y : Got) → Shut x → Shut y → Shut (if b then x else y)
by_test true x y l r = l
by_test false x y l r = r

grow-Shut :
    (p : Pool) (connected : Option ℕ) (now : ℕ)
    → Shut (elim (grow p connected) [
      | none ↦ throws (record p { locked = true })
      | some (c, q) ↦ got c (touch c now q)
    ])
unfolding grow
grow-Shut p none now = refl
grow-Shut p (some c) now = tt

take_from-Shut : (xs : List ℕ) (p : Pool) (now : ℕ) → Shut (take_from xs p now)
unfolding take_from
take_from-Shut [] p now = tt
take_from-Shut (c ∷ xs) p now = tt

get-Shut : (p : Pool) (connected : Option ℕ) (now : ℕ) → Shut (get p connected now)
unfolding get get_locked
get-Shut p connected now = by_test p.locked blocked _ tt (
    by_test (p.num_available == 0 && ltb p.num_connections p.max_connections) _ _
      (grow-Shut p connected now)
      (by_test (is_empty p.available_connections) _ _ tt
        (take_from-Shut p.available_connections p now)))

-- Where `get` ends in an exception the mutex stays locked: from then on each call of `get` and of
-- `put` and the maintenance thread block.
pub throws_blocks :
    (p : Pool) (connected : Option ℕ) (now : ℕ) {q : Pool}
    → get p connected now ≡ throws q
    → (connected' : Option ℕ) (c now' : ℕ)
    → (get q connected' now' ≡ blocked) × (put q c now' ≡ none) × (maintain q now' ≡ none)
throws_blocks p connected now {q} e connected' c now' =
    locked_shut q connected' c now' (subst Shut e (get-Shut p connected now))

missing :
    (c : ℕ) (cs live : List ℕ)
    → Mem c cs
    → ¬ (Mem c live)
    → (rest : List ℕ) → ¬ (delete_all cs live ≡ some rest)
unfolding delete_all
missing c [] live m out rest e = not-mem-nil m
missing c (d ∷ ds) live m out rest e =
    by_drop (delete d live) (delete-Dropped d live) (λ l k n. missing c ds l k n rest) e
  where
    by_drop :
        (r : Option (List ℕ))
        → Dropped d live r
        → ((l : List ℕ) → Mem c ds → ¬ (Mem c l) → ¬ (delete_all ds l ≡ some rest))
        → ¬ (elim r [ none ↦ none | some l ↦ delete_all ds l ] ≡ some rest)
    by_drop none gone later e' = ground arith
    by_drop (some l) h later e' = ∥∥₁_elim (eq-or-mem_of_mem-cons m) ⊥_prop (elim [
      | inl same ↦ out (subst (λ x. Mem x live) (sym same) ((Perm.mem_iff h).1 mem-cons_self))
      | inr k ↦ later l k (λ n. out ((Perm.mem_iff h).1 (mem-cons_of_mem d n))) e'
    ])

module _ (p : Pool) (c : ℕ) (rest : List ℕ) (distinct : Nodup p.live)
    (listed : Mem c p.all_connections) where
  -- The state that a deletion leaves.
  abbrev Dangling : Option Pool → Type 0
  Dangling none = Unit
  Dangling (some q) = Mem c q.all_connections × ¬ (Mem c q.live)

  drop-Dangling :
      (r : Option (List ℕ))
      → Dropped c p.live r
      → Dangling (elim r [
        | none ↦ none
        | some live ↦ some (record p {
          available_connections = rest;
          num_connections = p.num_connections - 1;
          num_available = p.num_available - 1;
          live = live;
        })
      ])
  drop-Dangling none gone = tt
  drop-Dangling (some live) d = (listed, (Nodup-cons.0 (Perm.nodup d distinct)).0)

  maintain-Dangling :
      (now : ℕ)
      → p.locked ≡ false
      → find_idle p.last_used now p.available_connections ≡ some (c, rest)
      → Dangling (maintain p now)
  unfolding maintain
  maintain-Dangling now free found =
      subst Dangling (sym (if_false p.locked _ free))
        (rw (found, Dangling) (drop-Dangling (delete c p.live) (delete-Dropped c p.live)))

-- A connection of an unlocked pool that is listed in `m_all_connections` and that a turn of the
-- maintenance deletes stays in that list: the destructor then deletes it once more.
pub maintain-destroy :
    (p : Pool) (c now : ℕ) (rest : List ℕ)
    → p.locked ≡ false
    → find_idle p.last_used now p.available_connections ≡ some (c, rest)
    → Nodup p.live
    → Mem c p.all_connections
    → {q : Pool} → maintain p now ≡ some q
    → destroy q ≡ none
unfolding destroy
maintain-destroy p c now rest free found distinct listed {q} e =
    elim (Option-cases (delete_all q.all_connections q.live)) [
      | inl n ↦ n
      | inr (l, s) ↦ absurd (missing c q.all_connections q.live k.0 k.1 l s)
    ]
  where
    k : Mem c q.all_connections × ¬ (Mem c q.live)
    k =
        subst (Dangling p c rest distinct listed) e
          (maintain-Dangling p c rest distinct listed now free found)
