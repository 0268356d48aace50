-- ===== src/Tests/Lifetimes.antt =====
-- How processes, threads and objects begin and end, at concrete inputs.
use mathlib.Core.List.{Mem, not-mem-nil, mem_of_ne_of_mem}
use fcgi_cpp_appserver.Common.{
  ℕ, List, suc, ◌+◌, ◌≤◌, ◌<◌, ◌≡◌, ◌↔◌, refl, true, false, some, [], ◌∷◌, arith, occurrences,
  total,
}
use fcgi_cpp_appserver.Common.Bytes.{codes}
use fcgi_cpp_appserver.Json.Memory
use fcgi_cpp_appserver.Json.Memory.{
  Store, no_members, at_key, at_end, new_array, new_object, new_text, add_new, deleted, Built,
  an_object, an_array, adds_new, add_built, adds_built,
}
use fcgi_cpp_appserver.Json.Owned.{Built-IsOwned, IsOwned}
use fcgi_cpp_appserver.MainProcess.Options.{main, in_child, works, main-role_of}
use fcgi_cpp_appserver.Pool.{Pool}
use fcgi_cpp_appserver.Pool
use fcgi_cpp_appserver.Pool.Holder.{Block, hold_all, HeldAll, hold_all-HeldAll}
use fcgi_cpp_appserver.Pool.Joined.{Ends, Runs-Ends}
use fcgi_cpp_appserver.Pool.Owners.{IsFresh}
use fcgi_cpp_appserver.Pool.Races.{pushers, readers, Runs-pushers}
use fcgi_cpp_appserver.Pool.Counts.{IsStarted}
use fcgi_cpp_appserver.Pool.Started.{Runs-IsStarted}
use fcgi_cpp_appserver.Pool.Startup
use fcgi_cpp_appserver.Pool.Startup.{
  to_start, pushing, starting, start_leaving, to_join, setting, join_leaving, finished,
  round_waiting, moves, unstarted, Runs, begins, then_step,
}
use fcgi_cpp_appserver.Server.{Server}
use fcgi_cpp_appserver.Server.Lifetime.{destroy, destroy-occurrences}
use fcgi_cpp_appserver.Service.Process.{World, worker_process, Leaves, worker_process-Leaves}

abbrev no_socket : World
no_socket = record {
  mutex_made = true;
  opened = false;
  stopped = true;
  getpwnam = λ name. some 33;
  getgrnam = λ name. some 33;
  ids = record { uid = 0; gid = 0 };
}

worker_process-Leaves_example :
    Leaves no_socket (worker_process no_socket) (worker_process no_socket).ended
worker_process-Leaves_example = worker_process-Leaves no_socket

abbrev two_handlers : Server
two_handlers = record {
  endpoint = [];
  locations_map = [];
  exact_locations_map = [];
  handlers = 4 ∷ 7 ∷ [];
}

destroy-occurrences_example :
    ((k : ℕ) → occurrences k (4 ∷ 7 ∷ []) ≤ occurrences k (7 ∷ 5 ∷ 4 ∷ [])) ↔ (
      (left : List ℕ) × (destroy two_handlers (7 ∷ 5 ∷ 4 ∷ []) ≡ some left)
      × ((k : ℕ)
          → occurrences k (7 ∷ 5 ∷ 4 ∷ []) ≡ occurrences k (4 ∷ 7 ∷ []) + occurrences k left))
destroy-occurrences_example = destroy-occurrences two_handlers (7 ∷ 5 ∷ 4 ∷ [])

-- The call that starts the maintenance thread of pool 3 has returned, and it has been told to exit.
abbrev joined : Startup.Process
joined = record {
  threads = finished ∷ join_leaving ∷ round_waiting ∷ [];
  shared = record {
    startup_locked = false;
    maintenance_locked = true;
    pools = 3 ∷ [];
    running = true;
    exiting = true;
    ended = false;
    pool_locked = λ pool. false;
  };
}

abbrev callers : List Startup.Place
callers = to_start 3 ∷ to_join ∷ []

joined-Runs : Runs callers joined
unfolding Startup.move unstarted
joined-Runs =
    let a = then_step begins (moves [] (to_start 3) (to_join ∷ []) refl) in
    let b = then_step a (moves [] (pushing 3) (to_join ∷ []) refl) in
    let c = then_step b (moves [] starting (to_join ∷ []) refl) in
    let d = then_step c (moves [] start_leaving (to_join ∷ round_waiting ∷ []) refl) in
    let e = then_step d (moves (finished ∷ []) to_join (round_waiting ∷ []) refl) in
    then_step e (moves (finished ∷ []) setting (round_waiting ∷ []) refl)

Runs-IsStarted_example : IsStarted callers joined
Runs-IsStarted_example = Runs-IsStarted refl joined-Runs

Runs-Ends_example : Ends joined
Runs-Ends_example = Runs-Ends refl joined-Runs refl refl (λ pool. refl)

Runs-pushers_example : total pushers joined.threads + total readers joined.threads ≤ 1
Runs-pushers_example = Runs-pushers refl (omega arith) joined-Runs

-- Two requests' blocks, which give the number of their connection, and one more.
abbrev blocks : List (Block ℕ)
blocks =
    record { now = 1; later = 2; body = λ c. c }
    ∷ record { now = 3; later = 4; body = λ c. suc c }
    ∷ []

main-role_of_example :
    main ((b'n', []) ∷ (b'c', codes "x") ∷ (b'm', []) ∷ []) in_child ≡ works false
main-role_of_example = main-role_of ((b'n', []) ∷ (b'c', codes "x") ∷ (b'm', []) ∷ []) in_child

-- An array with a string, from number 4 on.
abbrev apart : Store
apart =
    add_new new_text (at_end 4)
      (record { root = Memory.array 4 Memory.no_nodes; next = 5; lost = [] })

-- An object with an array under a key, a string in the array, a second array under the key, and the array
-- that was made by itself under another key.
abbrev grown : Store
grown = add_built (at_key 0 (codes "b")) apart (
    add_new new_array (at_key 0 (codes "a")) (
      add_new new_text (at_end 1) (
        add_new new_array (at_key 0 (codes "a"))
          (record { root = Memory.object 0 no_members; next = 1; lost = [] }))))

grown-Built : Built 0 grown
unfolding add_new
grown-Built =
    adds_built (at_key 0 (codes "b"))
      (adds_new new_array (at_key 0 (codes "a"))
        (adds_new new_text (at_end 1) (adds_new new_array (at_key 0 (codes "a")) (an_object 0))))
      (adds_new new_text (at_end 4) (an_array 4))

Built-IsOwned_example : IsOwned 0 grown
Built-IsOwned_example = Built-IsOwned grown-Built

-- A number above those of the live connections.
abbrev above : Pool → ℕ
above p = suc (total (λ x. x) p.live)

not_in : {a : ℕ} (xs : List ℕ) → total (λ x. x) xs < a → ¬ (Mem a xs)
not_in [] h m = not-mem-nil m
not_in {a} (x ∷ xs) h m =
    not_in xs (omega (arith, h)) (mem_of_ne_of_mem (λ (e : a ≡ x). absurd (omega (arith, h, e))) m)

above-IsFresh : (p : Pool) → IsFresh (some (above p)) p.live
above-IsFresh p = not_in p.live (omega arith)

hold_all-HeldAll_example : HeldAll blocks (hold_all (λ p. some (above p)) (Pool.create 1 2) blocks)
hold_all-HeldAll_example = hold_all-HeldAll above above-IsFresh 1 2 blocks (omega arith)
