-- ===== src/Pool/Counts.antt =====
-- What is counted of the threads of src/db/db_pool.cpp that start and join the maintenance thread.
use mathlib.Core.List.{Perm}
use fcgi_cpp_appserver.Common.{
  ℕ, ◌+◌, ◌≤◌, ◌≡◌, Bool, true, false, List, [], ◌∷◌, ◌++◌, if◌then◌else◌, total,
}
use fcgi_cpp_appserver.Pool.Startup.{
  Place, to_start, pushing, starting, start_leaving, to_join, setting, join_leaving, round_waiting,
  iterating, reading, round_leaving, sleeping, Process,
}

-- Whether a thread has `startup_lock`.
abbrev pub in_startup : Place → ℕ
in_startup (pushing pool) = 1
in_startup starting = 1
in_startup start_leaving = 1
in_startup _ = 0

-- Whether a thread has `maintenance_lock`.
abbrev pub in_maintenance : Place → ℕ
in_maintenance setting = 1
in_maintenance join_leaving = 1
in_maintenance (iterating k) = 1
in_maintenance reading = 1
in_maintenance (round_leaving exiting) = 1
in_maintenance _ = 0

-- Whether it is a maintenance thread that has not returned.
abbrev pub maintains : Place → ℕ
maintains round_waiting = 1
maintains (iterating k) = 1
maintains reading = 1
maintains (round_leaving exiting) = 1
maintains (sleeping exiting) = 1
maintains _ = 0

-- Whether it is a call that has not asked if the thread runs.
abbrev pub asks : Place → ℕ
asks (to_start pool) = 1
asks (pushing pool) = 1
asks starting = 1
asks _ = 0

-- The pools that are not in the list yet.
abbrev pub to_push : Place → List ℕ
to_push (to_start pool) = pool ∷ []
to_push (pushing pool) = pool ∷ []
to_push _ = []

abbrev pub all_to_push : List Place → List ℕ
all_to_push [] = []
all_to_push (p ∷ ps) = to_push p ++ all_to_push ps

abbrev pub bit : Bool → ℕ
bit b = if b then 1 else 0

-- Threads that are about to call one of the two functions.
abbrev pub is_call : Place → Bool
is_call (to_start pool) = true
is_call to_join = true
is_call _ = false

abbrev pub are_calls : List Place → Bool
are_calls [] = true
are_calls (p ∷ ps) = if is_call p then are_calls ps else false

pub record IsStarted (callers : List Place) (p : Process) : Type 0 where
  pub startup : total in_startup p.threads ≡ bit p.shared.startup_locked
  pub maintenance : total in_maintenance p.threads ≡ bit p.shared.maintenance_locked
  pub one_thread : total maintains p.threads + bit p.shared.ended ≡ bit p.shared.running
  pub asked : total asks p.threads + bit p.shared.running ≤ total asks callers
  pub registered : Perm (p.shared.pools ++ all_to_push p.threads) (all_to_push callers)
