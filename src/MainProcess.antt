-- ===== src/MainProcess.antt =====
-- `MainProcess` of src/server/main.h and src/server/main.cpp: the process that keeps the workers
-- running. A `worker_function_fp` and a process id are numbers. What the operating system does in one
-- round of `run` is an `Event`.
pub mod Workers
pub mod Spawn
pub mod Rounds
pub mod Lifetime
pub mod Shutdown
pub mod Options
use fcgi_cpp_appserver.Common.{
  ℕ, zero, suc, ◌+◌, ◌-◌, ◌*◌, ◌%◌, Bool, true, false, not, ◌&&◌, Option, none, some, List, [], ◌∷◌,
  ◌++◌, map, ltb, ◌==◌, if◌then◌else◌,
}

-- `worker_pool`, by process id.
abbrev pub Workers : Type 0
Workers = List (ℕ × ℕ)

-- An entry of `worker_functions`: how many workers of the function run, and how many should.
pub record Entry : Type 0 where
  pub function : ℕ
  pub running : ℕ
  pub wanted : ℕ

pub record Main : Type 0 where
  pub workers : Workers
  pub functions : List Entry

-- The constructor; `m_last_respawn` is never read.
unfoldable pub create : Main
create = record { workers = []; functions = [] }

-- `m_workers.insert(std::make_pair(pid, function))`.
unfoldable pub insert : ℕ → ℕ → Workers → Workers
insert pid f [] = (pid, f) ∷ []
insert pid f ((j, g) ∷ ws) =
    if ltb pid j
    then (pid, f) ∷ (j, g) ∷ ws
    else if j == pid
    then (j, g) ∷ ws
    else (j, g) ∷ insert pid f ws

unfoldable pub find : ℕ → Workers → Option ℕ
find pid [] = none
find pid ((j, g) ∷ ws) = if j == pid then some g else find pid ws

unfoldable pub erase : ℕ → Workers → Workers
erase pid [] = []
erase pid ((j, g) ∷ ws) = if j == pid then ws else (j, g) ∷ erase pid ws

-- `add_function`, and `m_functions.insert`.
unfoldable pub add_entry : ℕ → ℕ → List Entry → List Entry
add_entry f wanted [] = record { function = f; running = 0; wanted = wanted } ∷ []
add_entry f wanted (e ∷ es) =
    if ltb f e.function
    then record { function = f; running = 0; wanted = wanted } ∷ e ∷ es
    else if e.function == f
    then e ∷ es
    else e ∷ add_entry f wanted es

unfoldable pub add_function : Main → ℕ → ℕ → Main
add_function p f min_workers = record p { functions = add_entry f min_workers p.functions }

unfoldable pub functions_defined : Main → Bool
functions_defined p = elim p.functions [ [] ↦ false | ◌∷◌ e es ↦ true ]

-- `m_functions[f].first--`, in a `size_t`. An entry that is not there is made, with two zeros.
unfoldable pub count_down : ℕ → List Entry → List Entry
count_down f [] = record { function = f; running = 18446744073709551615; wanted = 0 } ∷ []
count_down f (e ∷ es) =
    if ltb f e.function
    then record { function = f; running = 18446744073709551615; wanted = 0 } ∷ e ∷ es
    else if e.function == f
    then record e { running = (e.running + 18446744073709551615) % 18446744073709551616 } ∷ es
    else e ∷ count_down f es

-- What the loop over one function, or over some, leaves: `failed` is a `fork` that gave -1, and `forks`
-- counts the calls of `fork`.
pub record Filled : Type 0 where
  pub running : ℕ
  pub workers : Workers
  pub forks : ℕ
  pub failed : Bool

pub record Spawned : Type 0 where
  pub functions : List Entry
  pub workers : Workers

-- The `n`-th call of `fork` gives the child's process id, or `none` for -1. What a child does from then
-- on is not seen here.
module _ (fork : ℕ → Option ℕ) where
  -- The `while` loop for a function; the first number is how many workers are missing.
  unfoldable pub fill : ℕ → ℕ → ℕ → Workers → ℕ → Filled
  fill zero f running ws n = record { running = running; workers = ws; forks = n; failed = false }
  fill (suc missing) f running ws n = elim (fork n) [
    | none ↦ record { running = running; workers = ws; forks = n + 1; failed = true }
    | some pid ↦ fill missing f (running + 1) (insert pid f ws) (n + 1)
  ]

  -- The `for` loop; an error of `fork` ends it.
  unfoldable pub spawn_all : List Entry → Workers → ℕ → Spawned
  unfolding fill
  spawn_all [] ws n = record { functions = []; workers = ws }
  spawn_all (e ∷ es) ws n =
      let r = fill (e.wanted - e.running) e.function e.running ws n in
      let rest = spawn_all es r.workers r.forks in
      if r.failed
      then record { functions = record e { running = r.running } ∷ es; workers = r.workers }
      else record {
        functions = record e { running = r.running } ∷ rest.functions;
        workers = rest.workers;
      }

  unfoldable pub spawn : Main → Main
  unfolding spawn_all
  spawn p =
      let r = spawn_all p.functions p.workers 0 in
      record { workers = r.workers; functions = r.functions }

-- A round of the loop of `run`: what `waitpid` gives, `none` being -1; what `i->second` reads, where
-- `i` is the node that `erase` has freed; what `m_exiting` is then; and what `fork` gives.
pub record Event : Type 0 where
  pub waited : Option ℕ
  pub freed : ℕ → ℕ
  pub exiting : Bool
  pub fork : ℕ → Option ℕ

-- The worker that has ended is taken out and counted down; another process is none of its own. `freed`
-- takes the function that the node held.
unfoldable pub reap : Option ℕ → (ℕ → ℕ) → Main → Main
reap none freed p = p
reap (some pid) freed p = elim (find pid p.workers) [
  | none ↦ p
  | some f ↦ record { workers = erase pid p.workers; functions = count_down (freed f) p.functions }
]

-- What a round leaves: whether the workers have been signalled, whom it sends SIGQUIT, and whether the
-- loop ends.
pub record Round : Type 0 where
  pub main : Main
  pub signalled : Bool
  pub killed : List ℕ
  pub exited : Bool

abbrev is_empty : Workers → Bool
is_empty [] = true
is_empty (w ∷ ws) = false

unfoldable pub round : Main → Bool → Event → Round
unfolding reap spawn
round p signalled e =
    let q = reap e.waited e.freed p in
    if e.exiting
    then record {
      main = q;
      signalled = true;
      killed = if signalled then [] else map (λ (w : ℕ × ℕ). w.0) q.workers;
      exited = is_empty q.workers;
    }
    else record { main = spawn e.fork q; signalled = signalled; killed = []; exited = false }

-- `run` behind its first `spawn`: what the rounds send, and whether the loop has ended by then.
pub record Run : Type 0 where
  pub main : Main
  pub killed : List ℕ
  pub exited : Bool

unfoldable pub run_loop : Main → Bool → List Event → Run
unfolding round
run_loop p signalled [] = record { main = p; killed = []; exited = false }
run_loop p signalled (e ∷ es) =
    let r = round p signalled e in
    let rest = run_loop r.main r.signalled es in
    if r.exited
    then record { main = r.main; killed = r.killed; exited = true }
    else record { main = rest.main; killed = r.killed ++ rest.killed; exited = rest.exited }
