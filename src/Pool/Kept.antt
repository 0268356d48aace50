-- ===== src/Pool/Kept.antt =====
-- What a move of one thread keeps, of those of src/db/db_pool.cpp that start and join the maintenance
-- thread.
use mathlib.Core.List.{perm_middle}
use mathlib.Core.List.Perm
use mathlib.Core.List.{Perm}
use fcgi_cpp_appserver.Common.{
  get_elem?, Bool-cases, inl, inr, ℕ, ◌+◌, ◌≤◌, ◌≡◌, refl, sym, subst, Bool, true, false, Option,
  none, some, List, [], ◌∷◌, ◌++◌, if◌then◌else◌, append_assoc, append-nil, arith, total,
}
use fcgi_cpp_appserver.Pool.Startup.{
  at_pool, Place, to_start, pushing, starting, start_leaving, to_join, setting, join_leaving,
  joining, round_waiting, iterating, reading, round_leaving, sleeping, finished, Shared, move,
}
use fcgi_cpp_appserver.Pool.Counts.{
  in_startup, in_maintenance, maintains, asks, to_push, all_to_push, bit,
}

-- What a move keeps.
pub record Kept (sh : Shared) (p : Place) (sh' : Shared) (p' : Place) (made : List Place)
    : Type 0 where
  pub startup :
      in_startup p' + total in_startup made + bit sh.startup_locked
      ≡ in_startup p + bit sh'.startup_locked
  pub maintenance :
      in_maintenance p' + total in_maintenance made + bit sh.maintenance_locked
      ≡ in_maintenance p + bit sh'.maintenance_locked
  pub one_thread :
      maintains p' + total maintains made + bit sh'.ended + bit sh.running
      ≡ maintains p + bit sh.ended + bit sh'.running
  pub asked : asks p' + total asks made + bit sh'.running ≤ asks p + bit sh.running
  pub registered :
      (xs ys : List ℕ)
      → Perm
          (sh'.pools ++ ((xs ++ (to_push p' ++ ys)) ++ all_to_push made))
          (sh.pools ++ (xs ++ (to_push p ++ ys)))

-- A move that pushes nothing.
same_pools :
    (pools xs mid ys : List ℕ)
    → Perm (pools ++ ((xs ++ (mid ++ ys)) ++ [])) (pools ++ (xs ++ (mid ++ ys)))
same_pools pools xs mid ys =
    subst (λ l. Perm (pools ++ l) (pools ++ (xs ++ (mid ++ ys))))
      (sym (append-nil (xs ++ (mid ++ ys)))) (Perm.refl _)

abbrev pub KeptBy : Shared → Place → Option (Shared × Place × List Place) → Type 0
KeptBy sh p none = Unit
KeptBy sh p (some (sh', p', made)) = Kept sh p sh' p' made

locks :
    (sh sh' : Shared) (p p' : Place)
    → in_startup p' + bit sh.startup_locked ≡ in_startup p + bit sh'.startup_locked
    → in_maintenance p' + bit sh.maintenance_locked ≡ in_maintenance p + bit sh'.maintenance_locked
    → maintains p' + bit sh'.ended ≡ maintains p + bit sh.ended
    → asks p' ≤ asks p
    → sh'.running ≡ sh.running
    → sh'.pools ≡ sh.pools
    → to_push p' ≡ to_push p
    → Kept sh p sh' p' []
locks sh sh' p p' s m o a r l t = record {
  startup = omega (arith, s);
  maintenance = omega (arith, m);
  one_thread = rw r (omega (arith, o));
  asked = rw r (omega (arith, a));
  registered = λ xs ys. rw (l, t) (same_pools sh.pools xs (to_push p) ys);
}

takes_startup :
    (sh : Shared) (pool : ℕ) (locked : Bool)
    → sh.startup_locked ≡ locked
    → KeptBy sh
        (to_start pool)
        (if locked then none else some (record sh { startup_locked = true }, pushing pool, []))
takes_startup sh pool true e = tt
takes_startup sh pool false e =
    locks sh _ (to_start pool) (pushing pool) (rw e refl) refl refl (omega arith) refl refl refl

takes_maintenance :
    (sh : Shared) (p p' : Place) (locked : Bool)
    → sh.maintenance_locked ≡ locked
    → in_startup p' ≡ in_startup p
    → in_maintenance p ≡ 0
    → in_maintenance p' ≡ 1
    → maintains p' ≡ maintains p
    → asks p' ≡ asks p
    → to_push p' ≡ to_push p
    → KeptBy sh p (if locked then none else some (record sh { maintenance_locked = true }, p', []))
takes_maintenance sh p p' true e s m m' t a l = tt
takes_maintenance sh p p' false e s m m' t a l =
    locks sh _ p p' (omega (arith, s)) (rw (e, m, m') refl) (omega (arith, t)) (omega (arith, a))
      refl refl l

-- A thread that has a mutex releases it.
frees_maintenance :
    (sh : Shared) (p p' : Place)
    → sh.maintenance_locked ≡ true
    → in_startup p' ≡ in_startup p
    → in_maintenance p ≡ 1
    → in_maintenance p' ≡ 0
    → maintains p' ≡ maintains p
    → asks p' ≡ asks p
    → to_push p' ≡ to_push p
    → Kept sh p (record sh { maintenance_locked = false }) p' []
frees_maintenance sh p p' e s m m' t a l =
    locks sh _ p p' (omega (arith, s)) (rw (e, m, m') refl) (omega (arith, t)) (omega (arith, a))
      refl refl l

creates :
    (sh : Shared) (running : Bool)
    → sh.running ≡ running
    → KeptBy sh starting (
        if running
        then some (sh, start_leaving, [])
        else some (record sh { running = true }, start_leaving, round_waiting ∷ []))
creates sh true e = locks sh sh starting start_leaving refl refl refl (omega arith) refl refl refl
creates sh false e = record {
  startup = refl;
  maintenance = refl;
  one_thread = rw e (omega arith);
  asked = rw e (omega arith);
  registered = λ xs ys. same_pools sh.pools xs [] ys;
}

pushes :
    (sh : Shared) (pool : ℕ)
    → Kept sh (pushing pool) (record sh { pools = sh.pools ++ pool ∷ [] }) starting []
pushes sh pool = record {
  startup = refl;
  maintenance = refl;
  one_thread = refl;
  asked = omega arith;
  registered = λ xs ys.
      subst (λ l. Perm ((sh.pools ++ pool ∷ []) ++ l) (sh.pools ++ (xs ++ pool ∷ ys)))
        (sym (append-nil (xs ++ ys)))
        (subst (λ l. Perm l (sh.pools ++ (xs ++ pool ∷ ys)))
          (sym (append_assoc sh.pools (pool ∷ []) (xs ++ ys)))
          (Perm.append_left sh.pools (Perm.symm (perm_middle xs ys))));
}

ends_or_waits :
    (sh : Shared) (exiting : Bool)
    → sh.ended ≡ false
    → KeptBy sh (sleeping exiting) (
        if exiting
        then some (record sh { ended = true }, finished, [])
        else some (sh, round_waiting, []))
ends_or_waits sh true e =
    locks sh _ (sleeping true) finished refl refl (rw e refl) (omega arith) refl refl refl
ends_or_waits sh false e =
    locks sh sh (sleeping false) round_waiting refl refl refl (omega arith) refl refl refl

is_joined :
    (sh : Shared) (ended : Bool)
    → KeptBy sh joining (if ended then some (sh, finished, []) else none)
is_joined sh true = locks sh sh joining finished refl refl refl (omega arith) refl refl refl
is_joined sh false = tt

goes_to : (sh : Shared) (k : ℕ) (o : Option ℕ) → KeptBy sh (iterating k) (at_pool sh k o)
unfolding at_pool
goes_to sh k none = locks sh sh (iterating k) reading refl refl refl (omega arith) refl refl refl
goes_to sh k (some pool) = elim (Bool-cases (sh.pool_locked pool)) [
  | inl held ↦ rw (held, KeptBy) tt
  | inr free ↦
      rw (free, KeptBy)
        (locks sh sh (iterating k) (iterating (k + 1)) refl refl refl (omega arith) refl refl refl)
]

pub move-Kept :
    (sh : Shared) (p : Place)
    → (in_startup p ≡ 1 → sh.startup_locked ≡ true)
    → (in_maintenance p ≡ 1 → sh.maintenance_locked ≡ true)
    → (maintains p ≡ 1 → sh.ended ≡ false)
    → KeptBy sh p (move sh p)
unfolding move
move-Kept sh (to_start pool) s m o = takes_startup sh pool sh.startup_locked refl
move-Kept sh (pushing pool) s m o = pushes sh pool
move-Kept sh starting s m o = creates sh sh.running refl
move-Kept sh start_leaving s m o =
    locks sh _ start_leaving finished (rw (s refl) refl) refl refl (omega arith) refl refl refl
move-Kept sh to_join s m o =
    takes_maintenance sh to_join setting sh.maintenance_locked refl refl refl refl refl refl refl
move-Kept sh setting s m o =
    locks sh _ setting join_leaving refl refl refl (omega arith) refl refl refl
move-Kept sh join_leaving s m o =
    frees_maintenance sh join_leaving joining (m refl) refl refl refl refl refl refl
move-Kept sh joining s m o = is_joined sh sh.ended
move-Kept sh round_waiting s m o =
    takes_maintenance sh round_waiting (iterating 0) sh.maintenance_locked refl refl refl refl refl
      refl refl
move-Kept sh (iterating k) s m o = goes_to sh k (get_elem? sh.pools k)
move-Kept sh reading s m o =
    locks sh sh reading (round_leaving sh.exiting) refl refl refl (omega arith) refl refl refl
move-Kept sh (round_leaving exiting) s m o =
    frees_maintenance sh (round_leaving exiting) (sleeping exiting) (m refl) refl refl refl refl
      refl refl
move-Kept sh (sleeping exiting) s m o = ends_or_waits sh exiting (o refl)
move-Kept sh finished s m o = tt
