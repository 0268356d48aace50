-- ===== src/Pool/Moves.antt =====
-- Which of the threads of src/db/db_pool.cpp, that start and join the maintenance thread, can move.
use fcgi_cpp_appserver.Common.{
  ℕ, ◌+◌, ◌-◌, Option, none, some, get_elem?, ◌≤◌, ◌≡◌, refl, ap, Bool, true, false, List, arith,
  Bool-cases, inl, inr, total, total-Among, Among, is_some, zero_or_not, ◌⊎◌,
}
use fcgi_cpp_appserver.Pool.Startup.{
  at_pool, Place, to_start, pushing, starting, start_leaving, to_join, setting, join_leaving,
  joining, round_waiting, iterating, reading, round_leaving, sleeping, finished, Shared, move,
}
use fcgi_cpp_appserver.Pool.Counts.{in_startup, in_maintenance, maintains, bit, IsStarted}

-- How many moves a thread has left at most, once the maintenance thread is told to exit, if the list
-- comes to have no more than `n` pools.
abbrev pub steps : ℕ → Place → ℕ
steps n (to_start pool) = 13 + n
steps n (pushing pool) = 12 + n
steps n starting = 11 + n
steps n start_leaving = 1
steps n to_join = 4
steps n setting = 3
steps n join_leaving = 2
steps n joining = 1
steps n round_waiting = 5 + n
steps n (iterating k) = 4 + (n - k)
steps n reading = 3
steps n (round_leaving true) = 2
steps n (round_leaving false) = 7 + n
steps n (sleeping true) = 1
steps n (sleeping false) = 6 + n
steps n finished = 0

-- No pool is locked.
abbrev pub IsFree : Shared → Type 0
IsFree sh = (pool : ℕ) → sh.pool_locked pool ≡ false

at_free_pool : (sh : Shared) (k : ℕ) (o : Option ℕ) → IsFree sh → is_some (at_pool sh k o) ≡ true
unfolding at_pool
at_free_pool sh k none f = refl
at_free_pool sh k (some pool) f = rw (f pool) refl

-- What can move whatever the other threads do: what has a mutex.
has_startup : (sh : Shared) (p : Place) → 1 ≤ in_startup p → is_some (move sh p) ≡ true
unfolding move
has_startup sh (pushing pool) h = refl
has_startup sh starting h = elim (Bool-cases sh.running) [ inl e ↦ rw e refl | inr e ↦ rw e refl ]
has_startup sh start_leaving h = refl
has_startup sh _ h = absurd (omega (arith, h))

has_maintenance :
    (sh : Shared) (p : Place) → IsFree sh → 1 ≤ in_maintenance p → is_some (move sh p) ≡ true
unfolding move
has_maintenance sh setting f h = refl
has_maintenance sh join_leaving f h = refl
has_maintenance sh (iterating k) f h = at_free_pool sh k (get_elem? sh.pools k) f
has_maintenance sh reading f h = refl
has_maintenance sh (round_leaving exiting) f h = refl
has_maintenance sh _ f h = absurd (omega (arith, h))

sleeper_moves : (sh : Shared) (exiting : Bool) → is_some (move sh (sleeping exiting)) ≡ true
unfolding move
sleeper_moves sh true = refl
sleeper_moves sh false = refl

-- The maintenance thread, where its mutex is free.
maintainer_moves :
    (sh : Shared) (p : Place)
    → IsFree sh
    → sh.maintenance_locked ≡ false
    → 1 ≤ maintains p
    → is_some (move sh p) ≡ true
unfolding move
maintainer_moves sh round_waiting f e h = rw e refl
maintainer_moves sh (iterating k) f e h = at_free_pool sh k (get_elem? sh.pools k) f
maintainer_moves sh reading f e h = refl
maintainer_moves sh (round_leaving exiting) f e h = refl
maintainer_moves sh (sleeping exiting) f e h = sleeper_moves sh exiting
maintainer_moves sh _ f e h = absurd (omega (arith, h))

-- Any thread, where both are free and the maintenance thread has returned.
late_moves :
    (sh : Shared) (p : Place) (n : ℕ)
    → IsFree sh
    → sh.startup_locked ≡ false
    → sh.maintenance_locked ≡ false
    → sh.ended ≡ true
    → 1 ≤ steps n p
    → is_some (move sh p) ≡ true
unfolding move
late_moves sh (to_start pool) n f s m e h = rw s refl
late_moves sh (pushing pool) n f s m e h = refl
late_moves sh starting n f s m e h = has_startup sh starting (omega arith)
late_moves sh start_leaving n f s m e h = refl
late_moves sh to_join n f s m e h = rw m refl
late_moves sh setting n f s m e h = refl
late_moves sh join_leaving n f s m e h = refl
late_moves sh joining n f s m e h = rw e refl
late_moves sh round_waiting n f s m e h = rw m refl
late_moves sh (iterating k) n f s m e h = at_free_pool sh k (get_elem? sh.pools k) f
late_moves sh reading n f s m e h = refl
late_moves sh (round_leaving exiting) n f s m e h = refl
late_moves sh (sleeping exiting) n f s m e h = sleeper_moves sh exiting
late_moves sh finished n f s m e h = absurd (omega (arith, h))

-- There is a thread that can move.
abbrev pub Movable : Shared → List Place → Type 0
Movable sh ps = Among ps (λ p. is_some (move sh p) ≡ true)

movable :
    (f : Place → ℕ) (sh : Shared) (ps : List Place)
    → ((p : Place) → 1 ≤ f p → is_some (move sh p) ≡ true)
    → 1 ≤ total f ps
    → Movable sh ps
movable f sh ps can le = let (xs, p, ys, e, h) = total-Among f ps le in (xs, p, ys, e, can p h)

either_free :
    (callers : List Place) (n : ℕ) (sh : Shared) (ps : List Place) (ended : Bool)
    → IsStarted callers (record { threads = ps; shared = sh })
    → IsFree sh
    → sh.running ≡ true
    → sh.startup_locked ≡ false
    → sh.maintenance_locked ≡ false
    → sh.ended ≡ ended
    → (total (steps n) ps ≡ 0) ⊎ Movable sh ps
either_free callers n sh ps false v f r s m e = inr (
    movable maintains sh ps (λ p. maintainer_moves sh p f m)
      (omega (arith, v.one_thread, ap bit e, ap bit r)))
either_free callers n sh ps true v f r s m e = elim (zero_or_not (total (steps n) ps)) [
  | inl z ↦ inl z
  | inr le ↦ inr (movable (steps n) sh ps (λ p. late_moves sh p n f s m e) le)
]

pub over_or_on :
    (callers : List Place) (n : ℕ) (sh : Shared) (ps : List Place)
    → IsStarted callers (record { threads = ps; shared = sh })
    → IsFree sh
    → sh.running ≡ true
    → (total (steps n) ps ≡ 0) ⊎ Movable sh ps
over_or_on callers n sh ps v f r = elim (Bool-cases sh.startup_locked) [
  | inl l ↦ inr (movable in_startup sh ps (has_startup sh) (omega (arith, v.startup, ap bit l)))
  | inr s ↦ elim (Bool-cases sh.maintenance_locked) [
    | inl l ↦ inr (
        movable in_maintenance sh ps (λ p. has_maintenance sh p f)
          (omega (arith, v.maintenance, ap bit l)))
    | inr m ↦ either_free callers n sh ps sh.ended v f r s m refl
  ]
]
