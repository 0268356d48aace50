-- ===== src/Tests/Processes.antt =====
-- The worker processes at concrete inputs: the function 5, of which one worker is wanted.
use fcgi_cpp_appserver.Common.{ℕ, ◌≡◌, refl, ◌+◌, true, false, some, [], ◌∷◌, arith, Option}
use fcgi_cpp_appserver.Common.Dict.{All}
use fcgi_cpp_appserver.MainProcess.{
  Main, create, find, insert, erase, add_entry, add_function, spawn, Event, reap, round, run_loop,
}
use fcgi_cpp_appserver.MainProcess.Workers.{count}
use fcgi_cpp_appserver.MainProcess.Spawn.{IsFresh, Healthy}
use fcgi_cpp_appserver.MainProcess.Rounds.{IsPlain}
use fcgi_cpp_appserver.MainProcess.Lifetime.{
  Reached, created, added, spawned, ran, Reached-Healthy, round_respawns,
}
use fcgi_cpp_appserver.MainProcess.Shutdown.{run_loop_exits, one_worker}

abbrev forks : ℕ → ℕ → Option ℕ
forks base n = some (base + n)

forks-IsFresh : (base : ℕ) → IsFresh (forks base) 0 []
unfolding find
forks-IsFresh base = record { unused = λ k pid le e. refl; once = λ j k pid less e f. ground arith }

abbrev running : Main
running = spawn (forks 100) (add_function create 5 1)

-- The worker 100 has ended.
abbrev ended : Event
ended = record { waited = some 100; freed = λ f. f; exiting = false; fork = forks 200 }

running-Reached : Reached running
unfolding add_function create
running-Reached = spawned (forks 100) (added 5 1 created refl (omega arith)) (forks-IsFresh 100)

ended-IsPlain : IsPlain running ended
unfolding spawn reap add_function create add_entry insert find erase
ended-IsPlain = record { still_there = λ f. refl; fresh = forks-IsFresh 200 }

Reached-Healthy_example : Healthy (round running false ended).main
Reached-Healthy_example = Reached-Healthy (ran false ended running-Reached ended-IsPlain)

round_respawns_example :
    All
      (λ x. count x.function (round running false ended).main.workers ≡ x.wanted)
      (round running false ended).main.functions
round_respawns_example =
    round_respawns running false ended running-Reached ended-IsPlain refl (λ n e. ground arith)

-- The worker 100 has ended, and the process is told to exit.
abbrev stops : Event
stops = record ended { exiting = true }

run_loop_exits_example : (run_loop (one_worker 100 5) false (stops ∷ [])).exited ≡ true
unfolding find
run_loop_exits_example =
    run_loop_exits (one_worker 100 5) false (stops ∷ []) (refl, tt) (100, 5, refl, refl, tt)
      (omega arith) refl
