-- ===== src/Pool/Joined.antt =====
-- Whether `join_maintenance_thread`, of src/db/db_pool.cpp, comes to its end.
use fcgi_cpp_appserver.Common.{
  ℕ, ◌<◌, ap, ◌∙◌, length, length-append, get_elem?, zero, suc, ◌+◌, ◌≤◌, ◌≡◌, refl, sym, subst,
  Bool, true, false, Option, none, some, List, [], ◌∷◌, ◌++◌, if◌then◌else◌, arith, inl, inr, total,
  total-append, some_of,
}
use fcgi_cpp_appserver.Pool.Startup.{
  at_pool, Place, to_start, pushing, starting, start_leaving, to_join, setting, join_leaving,
  joining, round_waiting, iterating, reading, round_leaving, sleeping, finished, Shared, move,
  Process, Step, moves, Runs,
}
use fcgi_cpp_appserver.Pool.Counts.{IsStarted, are_calls}
use fcgi_cpp_appserver.Pool.Started.{Step-IsStarted, Runs-IsStarted}
use fcgi_cpp_appserver.Pool.Moves.{steps, IsFree, Movable, over_or_on}

-- Whether a thread has a pool that it will put on the list.
abbrev pending : Place → ℕ
pending (to_start pool) = 1
pending (pushing pool) = 1
pending _ = 0

-- What a move does once that has been said, on a list of no more than `n` pools.
record Nearer (n : ℕ) (sh : Shared) (p : Place) (sh' : Shared) (p' : Place) (made : List Place)
    : Type 0 where
  less : suc (steps n p' + total (steps n) made) ≤ steps n p
  reach : length sh'.pools + (pending p' + total pending made) ≡ length sh.pools + pending p
  locks : sh'.pool_locked ≡ sh.pool_locked
  exits : sh'.exiting ≡ true
  runs : sh.running ≡ true → sh'.running ≡ true

abbrev NearerBy : ℕ → Shared → Place → Option (Shared × Place × List Place) → Type 0
NearerBy n sh p none = Unit
NearerBy n sh p (some (sh', p', made)) = Nearer n sh p sh' p' made

unless :
    (n : ℕ) (sh : Shared) (p : Place) (b : Bool) (o : Option (Shared × Place × List Place))
    → NearerBy n sh p o
    → NearerBy n sh p (if b then none else o)
unless n sh p true o h = tt
unless n sh p false o h = h

nearer_creates :
    (n : ℕ) (sh : Shared) (running : Bool)
    → sh.exiting ≡ true
    → NearerBy n sh starting (
        if running
        then some (sh, start_leaving, [])
        else some (record sh { running = true }, start_leaving, round_waiting ∷ []))
nearer_creates n sh true e = record {
  less = omega arith;
  reach = omega arith;
  locks = refl;
  exits = e;
  runs = λ h. h;
}
nearer_creates n sh false e = record {
  less = omega arith;
  reach = omega arith;
  locks = refl;
  exits = e;
  runs = λ h. refl;
}

nearer_sleeps :
    (n : ℕ) (sh : Shared) (exiting : Bool)
    → sh.exiting ≡ true
    → NearerBy n sh (sleeping exiting) (
        if exiting
        then some (record sh { ended = true }, finished, [])
        else some (sh, round_waiting, []))
nearer_sleeps n sh true e = record {
  less = omega arith;
  reach = omega arith;
  locks = refl;
  exits = e;
  runs = λ h. h;
}
nearer_sleeps n sh false e = record {
  less = omega arith;
  reach = omega arith;
  locks = refl;
  exits = e;
  runs = λ h. h;
}

nearer_joins :
    (n : ℕ) (sh : Shared) (ended : Bool)
    → sh.exiting ≡ true
    → NearerBy n sh joining (if ended then some (sh, finished, []) else none)
nearer_joins n sh true e = record {
  less = omega arith;
  reach = omega arith;
  locks = refl;
  exits = e;
  runs = λ h. h;
}
nearer_joins n sh false e = tt

get_elem?-within : (xs : List ℕ) (k x : ℕ) → get_elem? xs k ≡ some x → k < length xs
get_elem?-within [] k x e = absurd (cc)
get_elem?-within (y ∷ xs) zero x e = omega arith
get_elem?-within (y ∷ xs) (suc k) x e = omega (arith, get_elem?-within xs k x e)

nearer_pool :
    (n : ℕ) (sh : Shared) (k : ℕ) (o : Option ℕ)
    → get_elem? sh.pools k ≡ o
    → length sh.pools ≤ n
    → sh.exiting ≡ true
    → NearerBy n sh (iterating k) (at_pool sh k o)
unfolding at_pool
nearer_pool n sh k none w l e = record {
  less = omega arith;
  reach = omega arith;
  locks = refl;
  exits = e;
  runs = λ h. h;
}
nearer_pool n sh k (some pool) w l e = unless n sh (iterating k) (sh.pool_locked pool) _ (record {
  less = omega (arith, l, get_elem?-within sh.pools k pool w);
  reach = omega arith;
  locks = refl;
  exits = e;
  runs = λ h. h;
})

move-Nearer :
    (n : ℕ) (sh : Shared) (p : Place)
    → length sh.pools ≤ n
    → sh.exiting ≡ true
    → NearerBy n sh p (move sh p)
unfolding move
move-Nearer n sh (to_start pool) l e =
    unless n sh (to_start pool) sh.startup_locked _
      (record { less = omega arith; reach = omega arith; locks = refl; exits = e; runs = λ h. h })
move-Nearer n sh (pushing pool) l e = record {
  less = omega arith;
  reach = omega (arith, length-append sh.pools (pool ∷ []));
  locks = refl;
  exits = e;
  runs = λ h. h;
}
move-Nearer n sh starting l e = nearer_creates n sh sh.running e
move-Nearer n sh start_leaving l e = record {
  less = omega arith;
  reach = omega arith;
  locks = refl;
  exits = e;
  runs = λ h. h;
}
move-Nearer n sh to_join l e =
    unless n sh to_join sh.maintenance_locked _
      (record { less = omega arith; reach = omega arith; locks = refl; exits = e; runs = λ h. h })
move-Nearer n sh setting l e = record {
  less = omega arith;
  reach = omega arith;
  locks = refl;
  exits = refl;
  runs = λ h. h;
}
move-Nearer n sh join_leaving l e = record {
  less = omega arith;
  reach = omega arith;
  locks = refl;
  exits = e;
  runs = λ h. h;
}
move-Nearer n sh joining l e = nearer_joins n sh sh.ended e
move-Nearer n sh round_waiting l e =
    unless n sh round_waiting sh.maintenance_locked _
      (record { less = omega arith; reach = omega arith; locks = refl; exits = e; runs = λ h. h })
move-Nearer n sh (iterating k) l e = nearer_pool n sh k (get_elem? sh.pools k) refl l e
move-Nearer n sh reading l e = record {
  less = rw e (omega arith);
  reach = omega arith;
  locks = refl;
  exits = e;
  runs = λ h. h;
}
move-Nearer n sh (round_leaving true) l e = record {
  less = omega arith;
  reach = omega arith;
  locks = refl;
  exits = e;
  runs = λ h. h;
}
move-Nearer n sh (round_leaving false) l e = record {
  less = omega arith;
  reach = omega arith;
  locks = refl;
  exits = e;
  runs = λ h. h;
}
move-Nearer n sh (sleeping exiting) l e = nearer_sleeps n sh exiting e
move-Nearer n sh finished l e = tt

total_moved :
    (f : Place → ℕ) (xs ys made : List Place) (p p' : Place)
    → total f ((xs ++ p' ∷ ys) ++ made) + f p ≡ total f (xs ++ p ∷ ys) + (f p' + total f made)
total_moved f xs ys made p p' = omega (
  arith,
  total-append f (xs ++ p' ∷ ys) made,
  total-append f xs (p' ∷ ys),
  total-append f xs (p ∷ ys),
)

-- What the process keeps from when the maintenance thread has been told to exit.
record Exiting (callers : List Place) (n budget : ℕ) (p : Process) : Type 0 where
  started : IsStarted callers p
  exits : p.shared.exiting ≡ true
  runs : p.shared.running ≡ true
  free : IsFree p.shared
  reach : length p.shared.pools + total pending p.threads ≤ n
  left : total (steps n) p.threads ≤ budget

Step-Exiting :
    (callers : List Place) (n left : ℕ) {p q : Process}
    → Step p q
    → Exiting callers n (suc left) p
    → Exiting callers n left q
Step-Exiting callers n left (moves {sh} {sh'} {p'} {made} xs p ys e) v =
    let near : Nearer n sh p sh' p' made =
      subst (NearerBy n sh p) e (move-Nearer n sh p (omega (arith, v.reach)) v.exits) in
    record {
      started = Step-IsStarted callers (moves xs p ys e) v.started;
      exits = near.exits;
      runs = near.runs v.runs;
      free = λ pool. ap (λ g. g pool) near.locks ∙ v.free pool;
      reach = omega (arith, near.reach, v.reach, total_moved pending xs ys made p p');
      left = omega (arith, near.less, v.left, total_moved (steps n) xs ys made p p');
    }

abbrev pub all_finished : List Place → Bool
all_finished [] = true
all_finished (finished ∷ ps) = all_finished ps
all_finished (_ ∷ ps) = false

-- Whatever the threads do, they go on until all have finished.
pub data Ends : Process → Type 0 where
  over : {p : Process} → all_finished p.threads ≡ true → Ends p
  goes_on : {p : Process} (q : Process) → Step p q → ((r : Process) → Step p r → Ends r) → Ends p

none_left : (n : ℕ) (ps : List Place) → total (steps n) ps ≡ 0 → all_finished ps ≡ true
none_left n [] h = refl
none_left n (finished ∷ ps) h = none_left n ps (omega (arith, h))
none_left n (round_leaving true ∷ ps) h = absurd (omega (arith, h))
none_left n (round_leaving false ∷ ps) h = absurd (omega (arith, h))
none_left n (sleeping true ∷ ps) h = absurd (omega (arith, h))
none_left n (sleeping false ∷ ps) h = absurd (omega (arith, h))
none_left n (_ ∷ ps) h = absurd (omega (arith, h))

goes :
    (sh : Shared) (ps : List Place)
    → ((r : Process) → Step (record { threads = ps; shared = sh }) r → Ends r)
    → Movable sh ps
    → Ends (record { threads = ps; shared = sh })
goes sh ps next (xs, p, ys, e, h) =
    let ((sh', p', made), run) = some_of (move sh p) h in
    goes_on (record { threads = (xs ++ p' ∷ ys) ++ made; shared = sh' })
      (subst
        (λ l.
          Step (record { threads = l; shared = sh })
            (record { threads = (xs ++ p' ∷ ys) ++ made; shared = sh' }))
        (sym e) (moves xs p ys run))
      next

Exiting-Ends : (callers : List Place) (n left : ℕ) (p : Process) → Exiting callers n left p → Ends p
Exiting-Ends callers n zero p v = over (none_left n p.threads (omega (arith, v.left)))
Exiting-Ends callers n (suc left) p v =
    elim (over_or_on callers n p.shared p.threads v.started v.free v.runs) [
      | inl z ↦ over (none_left n p.threads z)
      | inr m ↦
          goes p.shared p.threads
            (λ r s. Exiting-Ends callers n left r (Step-Exiting callers n left s v)) m
    ]

-- Once the maintenance thread, which has been created, is told to exit, and if no caller of a pool has
-- its mutex locked from then on, all threads come to their end however they take turns, so that the
-- calls that join it return: some thread can always move until all have finished, and they cannot move
-- for ever.
pub Runs-Ends :
    {callers : List Place} {p : Process}
    → are_calls callers ≡ true
    → Runs callers p
    → p.shared.running ≡ true
    → p.shared.exiting ≡ true
    → IsFree p.shared
    → Ends p
Runs-Ends {callers} {p} h r runs exits free =
    let n = length p.shared.pools + total pending p.threads in
    Exiting-Ends callers n (total (steps n) p.threads) p (record {
      started = Runs-IsStarted h r;
      exits = exits;
      runs = runs;
      free = free;
      reach = omega arith;
      left = omega arith;
    })
