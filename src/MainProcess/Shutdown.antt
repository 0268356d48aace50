-- ===== src/MainProcess/Shutdown.antt =====
-- How the main process ends, and what it loses where the freed node holds something else.
use fcgi_cpp_appserver.Common.{
  ℕ, ◌+◌, ◌<◌, ◌≡◌, refl, sym, subst, ◌⊎◌, ap, ◌∙◌, Bool, true, false, some, List, [], ◌∷◌, ◌++◌,
  map, append-nil, if◌then◌else◌, arith, inl, inr, length,
}
use fcgi_cpp_appserver.Common.Dict.{All}
use fcgi_cpp_appserver.MainProcess.{
  Workers, Main, find, erase, count_down, fill, spawn_all, spawn, Event, reap, Round, round, Run,
  run_loop, is_empty,
}

-- Rounds behind the order to exit.
abbrev pub Ending : List Event → Type 0
Ending = All (λ e. e.exiting ≡ true)

killed_once : (p : Main) (es : List Event) → Ending es → (run_loop p true es).killed ≡ []
unfolding run_loop round
killed_once p [] h = refl
killed_once p (e ∷ es) h = ground (arith, h.0, killed_once (reap e.waited e.freed p) es h.1)

-- From the first round on that is told to exit, each worker that is left then is sent SIGQUIT once.
pub run_loop_kills :
    (p : Main) (e : Event) (es : List Event)
    → Ending (e ∷ es)
    → (run_loop p false (e ∷ es)).killed
      ≡ map (λ (w : ℕ × ℕ). w.0) (reap e.waited e.freed p).workers
unfolding run_loop round
run_loop_kills p e es h = ground (
  arith,
  h.0,
  killed_once (reap e.waited e.freed p) es h.1,
  append-nil (map (λ (w : ℕ × ℕ). w.0) (reap e.waited e.freed p).workers),
)

-- Each round waits for one of the workers that are left then.
abbrev pub Reaps : Workers → List Event → Type 0
Reaps ws [] = Unit
Reaps ws (e ∷ es) =
    ((pid f : ℕ) × (e.waited ≡ some pid) × (find pid ws ≡ some f) × Reaps (erase pid ws) es)

length-erase :
    (pid f : ℕ) (ws : Workers) → find pid ws ≡ some f → length ws ≡ length (erase pid ws) + 1
unfolding find erase
length-erase pid f [] h = absurd (cc)
length-erase pid f ((j, g) ∷ ws) h = ground (arith, length-erase pid f ws)

round_reaps :
    (p : Main) (signalled : Bool) (e : Event) (pid f : ℕ)
    → e.exiting ≡ true
    → e.waited ≡ some pid
    → find pid p.workers ≡ some f
    → ((round p signalled e).main.workers ≡ erase pid p.workers)
      × ((round p signalled e).exited ≡ is_empty (erase pid p.workers))
unfolding round reap
round_reaps p signalled e pid f ends waited found =
    (ground (arith, ends, waited, found), ground (arith, ends, waited, found))

exited_or :
    (r : Round) (rest : Run)
    → (r.exited ≡ true) ⊎ (rest.exited ≡ true)
    → (if◌then◌else◌ {A = Run} r.exited
        (record { main = r.main; killed = r.killed; exited = true })
        (record {
          main = rest.main;
          killed = r.killed ++ rest.killed;
          exited = rest.exited;
        })).exited
      ≡ true
exited_or r rest h = ground arith

empty : (ws : Workers) → length ws ≡ 0 → is_empty ws ≡ true
empty [] h = refl
empty (w ∷ ws) h = absurd (omega arith)

-- When the process is told to exit and each of its workers has been waited for, the loop ends.
pub run_loop_exits :
    (p : Main) (signalled : Bool) (es : List Event)
    → Ending es
    → Reaps p.workers es
    → 0 < length es
    → length es ≡ length p.workers
    → (run_loop p signalled es).exited ≡ true
unfolding run_loop
run_loop_exits p signalled [] h r some_left all_of = absurd (omega arith)
run_loop_exits p signalled (e ∷ []) h (pid, f, waited, found, r) some_left all_of =
    exited_or (round p signalled e) _ (
      inl (
        (round_reaps p signalled e pid f h.0 waited found).1
        ∙ empty (erase pid p.workers) (omega (arith, length-erase pid f p.workers found))))
run_loop_exits p signalled (e ∷ d ∷ es) h (pid, f, waited, found, r) some_left all_of =
    let left = (round_reaps p signalled e pid f h.0 waited found).0 in
    exited_or (round p signalled e) _ (
      inr (
        run_loop_exits (round p signalled e).main (round p signalled e).signalled (d ∷ es) h.1
          (subst (λ (ws : Workers). Reaps ws (d ∷ es)) (sym left) r) (omega arith)
          (omega (arith, length-erase pid f p.workers found, ap length left))))

-- A main process with one worker `pid` of the function `f`, as many as are wanted.
abbrev pub one_worker : ℕ → ℕ → Main
one_worker pid f = record {
  workers = (pid, f) ∷ [];
  functions = record { function = f; running = 1; wanted = 1 } ∷ [];
}

-- Where the freed node of that worker holds another function by then, the worker is never replaced: a
-- wrong entry is counted down, and `f` still counts as running.
pub freed_node :
    (pid f : ℕ) (signalled : Bool) (e : Event)
    → e.exiting ≡ false
    → e.waited ≡ some pid
    → ¬ (e.freed f ≡ f)
    → (round (one_worker pid f) signalled e).main.workers ≡ []
unfolding round reap find erase count_down spawn spawn_all fill
freed_node pid f signalled e goes_on waited other = ground (arith, goes_on, waited, other)
