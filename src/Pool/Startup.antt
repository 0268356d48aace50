-- ===== src/Pool/Startup.antt =====
-- `DBPool::start_maintenance_thread`, `join_maintenance_thread` and the maintenance thread's loop, of
-- src/db/db_pool.cpp, as threads that share the two static mutexes. A pool is a number; what a round
-- does with each pool, behind its `m_lock`, is Pool's `maintain`.
use fcgi_cpp_appserver.Common.{
  ℕ, ◌+◌, get_elem?, ◌≡◌, Bool, true, false, Option, none, some, List, [], ◌∷◌, ◌++◌, if◌then◌else◌,
}

-- Where a thread stands: in `start_maintenance_thread`, in `join_maintenance_thread`, in the maintenance
-- thread's loop, or at its end. `iterating` has the position of the list's iterator.
pub data Place : Type 0 where
  to_start pushing : ℕ → Place
  starting start_leaving : Place
  to_join setting join_leaving joining : Place
  round_waiting reading : Place
  iterating : ℕ → Place
  round_leaving sleeping : Bool → Place
  finished : Place

-- `pool_locked` is which pools have their `m_lock` locked by one of their callers.
pub record Shared : Type 0 where
  pub startup_locked : Bool
  pub maintenance_locked : Bool
  pub pools : List ℕ
  pub running : Bool
  pub exiting : Bool
  pub ended : Bool
  pub pool_locked : ℕ → Bool

-- The maintenance thread at a pool of the list, or behind its last one.
unfoldable pub at_pool : Shared → ℕ → Option ℕ → Option (Shared × Place × List Place)
at_pool sh k none = some (sh, reading, [])
at_pool sh k (some pool) = if sh.pool_locked pool then none else some (sh, iterating (k + 1), [])

-- What a thread does next, with the threads that it creates; `none` where it is blocked or has ended.
-- `ended` is that the maintenance thread has returned, which `pthread_join` waits for.
unfoldable pub move : Shared → Place → Option (Shared × Place × List Place)
unfolding at_pool
move sh (to_start pool) =
    if sh.startup_locked then none else some (record sh { startup_locked = true }, pushing pool, [])
move sh (pushing pool) = some (record sh { pools = sh.pools ++ pool ∷ [] }, starting, [])
move sh starting =
    if sh.running
    then some (sh, start_leaving, [])
    else some (record sh { running = true }, start_leaving, round_waiting ∷ [])
move sh start_leaving = some (record sh { startup_locked = false }, finished, [])
move sh to_join =
    if sh.maintenance_locked
    then none
    else some (record sh { maintenance_locked = true }, setting, [])
move sh setting = some (record sh { exiting = true }, join_leaving, [])
move sh join_leaving = some (record sh { maintenance_locked = false }, joining, [])
move sh joining = if sh.ended then some (sh, finished, []) else none
move sh round_waiting =
    if sh.maintenance_locked
    then none
    else some (record sh { maintenance_locked = true }, iterating 0, [])
move sh (iterating k) = at_pool sh k (get_elem? sh.pools k)
move sh reading = some (sh, round_leaving sh.exiting, [])
move sh (round_leaving exiting) =
    some (record sh { maintenance_locked = false }, sleeping exiting, [])
move sh (sleeping exiting) =
    if exiting
    then some (record sh { ended = true }, finished, [])
    else some (sh, round_waiting, [])
move sh finished = none

pub record Process : Type 0 where
  pub threads : List Place
  pub shared : Shared

-- The static members, as they start.
unfoldable pub unstarted : Shared
unstarted = record {
  startup_locked = false;
  maintenance_locked = false;
  pools = [];
  running = false;
  exiting = false;
  ended = false;
  pool_locked = λ pool. false;
}

-- A thread moves; the ones that it creates stand behind the others.
pub data Step : Process → Process → Type 0 where
  moves :
      {sh sh' : Shared} {p' : Place} {made : List Place} (xs : List Place) (p : Place)
      (ys : List Place)
      → move sh p ≡ some (sh', p', made)
      → Step
          (record { threads = xs ++ p ∷ ys; shared = sh })
          (record { threads = (xs ++ p' ∷ ys) ++ made; shared = sh' })

-- From a process in which `callers` call the two functions. What the pools' callers do between the moves
-- may change which pools are locked, as they like.
pub data Runs (callers : List Place) : Process → Type 0 where
  begins : Runs callers (record { threads = callers; shared = unstarted })
  then_step : {p q : Process} → Runs callers p → Step p q → Runs callers q
  locks_change :
      {p : Process} (locked : ℕ → Bool)
      → Runs callers p
      → Runs callers (record p { shared = record p.shared { pool_locked = locked } })
