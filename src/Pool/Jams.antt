-- ===== src/Pool/Jams.antt =====
-- What a pool's mutex that stays locked does to `join_maintenance_thread`, of src/db/db_pool.cpp.
use fcgi_cpp_appserver.Common.{ℕ, ◌≡◌, refl, true, none, List, [], ◌∷◌}
use fcgi_cpp_appserver.Common.Dict.{All}
use fcgi_cpp_appserver.Pool.Startup.{
  at_pool, Place, to_start, pushing, starting, start_leaving, to_join, round_waiting, iterating,
  finished, move, Process, moves, Runs, begins, then_step, locks_change, unstarted,
}

abbrev start_and_join : ℕ → List Place
start_and_join pool = to_start pool ∷ to_join ∷ []

at_the_pool :
    (pool : ℕ)
    → Runs (start_and_join pool) (record {
      threads = finished ∷ to_join ∷ iterating 0 ∷ [];
      shared = record unstarted { maintenance_locked = true; pools = pool ∷ []; running = true };
    })
unfolding move unstarted
at_the_pool pool =
    then_step
      (then_step
        (then_step
          (then_step (then_step begins (moves [] (to_start pool) (to_join ∷ []) refl))
            (moves [] (pushing pool) (to_join ∷ []) refl))
          (moves [] starting (to_join ∷ []) refl))
        (moves [] start_leaving (to_join ∷ round_waiting ∷ []) refl))
      (moves (finished ∷ to_join ∷ []) round_waiting [] refl)

-- Where the pool's mutex is locked as the maintenance thread comes to the pool, and stays so, neither that
-- thread nor the call that joins it goes on.
pub join_jams :
    (pool : ℕ)
    → (p : Process) × Runs (start_and_join pool) p
      × (p.shared.pool_locked pool ≡ true)
      × (p.threads ≡ finished ∷ to_join ∷ iterating 0 ∷ [])
      × All (λ t. move p.shared t ≡ none) p.threads
unfolding move at_pool unstarted
join_jams pool = (
  record {
    threads = finished ∷ to_join ∷ iterating 0 ∷ [];
    shared = record unstarted {
      maintenance_locked = true;
      pools = pool ∷ [];
      running = true;
      pool_locked = λ b. true;
    };
  },
  locks_change (λ b. true) (at_the_pool pool),
  refl,
  refl,
  (refl, (refl, (refl, tt))),
)
