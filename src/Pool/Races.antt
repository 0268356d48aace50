-- ===== src/Pool/Races.antt =====
-- When the list of pools, of src/db/db_pool.cpp, is changed while the maintenance thread reads it: calls
-- of `start_maintenance_thread` have `startup_lock`, the thread's rounds have `maintenance_lock`.
use fcgi_cpp_appserver.Common.{
  ℕ, ◌+◌, ◌≤◌, ◌≡◌, refl, Bool, true, false, List, [], ◌∷◌, arith, total,
}
use fcgi_cpp_appserver.Pool.Startup.{
  Place, to_start, pushing, starting, start_leaving, round_waiting, iterating, finished, move,
  Process, unstarted, moves, Runs, begins, then_step,
}
use fcgi_cpp_appserver.Pool.Counts.{maintains, asks, bit, are_calls, IsStarted}
use fcgi_cpp_appserver.Pool.Started.{Runs-IsStarted}

-- How many threads change the list, and how many read it.
abbrev pub pushers : Place → ℕ
pushers (pushing pool) = 1
pushers _ = 0

abbrev pub readers : Place → ℕ
readers (iterating k) = 1
readers _ = 0

pushers_ask : (ps : List Place) → total pushers ps ≤ total asks ps
pushers_ask [] = omega arith
pushers_ask (pushing pool ∷ ps) = omega (arith, pushers_ask ps)
pushers_ask (_ ∷ ps) = omega (arith, pushers_ask ps)

readers_maintain : (ps : List Place) → total readers ps ≤ total maintains ps
readers_maintain [] = omega arith
readers_maintain (iterating k ∷ ps) = omega (arith, readers_maintain ps)
readers_maintain (_ ∷ ps) = omega (arith, readers_maintain ps)

bit_le : (b : Bool) → bit b ≤ 1
bit_le true = omega arith
bit_le false = omega arith

no_race :
    (ps callers : List Place) (running ended : Bool)
    → total maintains ps + bit ended ≡ bit running
    → total asks ps + bit running ≤ total asks callers
    → total asks callers ≤ 1
    → total pushers ps + total readers ps ≤ 1
no_race ps callers running ended one asked few =
    omega (arith, one, asked, few, pushers_ask ps, readers_maintain ps, bit_le running)

-- Where one call starts the maintenance thread, as in a worker, no thread changes the list of pools
-- while another one reads or changes it.
pub Runs-pushers :
    {callers : List Place} {p : Process}
    → are_calls callers ≡ true
    → total asks callers ≤ 1
    → Runs callers p
    → total pushers p.threads + total readers p.threads ≤ 1
Runs-pushers {callers} {p} h few r =
    let v : IsStarted callers p = Runs-IsStarted h r in
    no_race p.threads callers p.shared.running p.shared.ended v.one_thread v.asked few

abbrev two_pools : ℕ → ℕ → List Place
two_pools a b = to_start a ∷ to_start b ∷ []

one_started :
    (a b : ℕ)
    → Runs (two_pools a b) (record {
      threads = finished ∷ to_start b ∷ round_waiting ∷ [];
      shared = record unstarted { pools = a ∷ []; running = true };
    })
unfolding move unstarted
one_started a b =
    then_step
      (then_step
        (then_step (then_step begins (moves [] (to_start a) (to_start b ∷ []) refl))
          (moves [] (pushing a) (to_start b ∷ []) refl))
        (moves [] starting (to_start b ∷ []) refl))
      (moves [] start_leaving (to_start b ∷ round_waiting ∷ []) refl)

-- Where two calls start it, one for each of two pools, the list may be changed while it is read.
pub push_races :
    (a b : ℕ)
    → (p : Process) × Runs (two_pools a b) p
      × (total pushers p.threads ≡ 1)
      × (total readers p.threads ≡ 1)
unfolding move unstarted
push_races a b = (
  record {
    threads = finished ∷ pushing b ∷ iterating 0 ∷ [];
    shared = record unstarted {
      startup_locked = true;
      maintenance_locked = true;
      pools = a ∷ [];
      running = true;
    };
  },
  then_step
      (then_step (one_started a b) (moves (finished ∷ []) (to_start b) (round_waiting ∷ []) refl))
      (moves (finished ∷ pushing b ∷ []) round_waiting [] refl),
  refl,
  refl,
)
