-- ===== src/Worker/Threads.antt =====
-- The threads that `fcgi_server::run` of src/server/fcgi_server.cpp starts: each runs `worker_thread`,
-- and they share `accept_mutex`, `m_exiting` and the socket. A request is its environment; the socket is
-- the requests that have arrived and are not accepted yet. All of a process ends when an exception
-- leaves one of its threads.
use fcgi_cpp_appserver.Common.{
  ℕ, ◌≡◌, Bool, true, false, Option, none, some, List, [], ◌∷◌, ◌++◌, if◌then◌else◌, replicate,
}
use fcgi_cpp_appserver.Common.Bytes.{Bytes}
use fcgi_cpp_appserver.Server.{Server}
use fcgi_cpp_appserver.Worker.{Env, Handle, serve, finished, terminated}

-- Where a thread stands: at the head of its loop, in front of the mutex, in `FCGX_Accept_r`, behind it
-- with a request or an error, with the mutex released and a request, in a handler that does not return
-- (it waits for ever on a mutex or a condition, or loops), or at its end.
pub data Place : Type 0 where
  looping waiting accepting failed returned : Place
  holding serving hanging : Env → Place

-- What the threads share; `arrived`, `accepted` and `answered` are what has happened so far.
pub record Shared : Type 0 where
  pub locked : Bool
  pub exiting : Bool
  pub dead : Bool
  pub queue : List Env
  pub arrived : List Env
  pub accepted : List Env
  pub answered : List (Env × Bytes)

-- What a thread does next; `fails` is that `FCGX_Accept_r` gives an error, or that the handler does not
-- return, if the thread is there. `none` is a thread that is blocked or has ended.
module _ (handle : Handle) (s : Server) where
  unfoldable pub move : Bool → Shared → Place → Option (Shared × Place)
  move fails sh looping =
      if sh.dead then none else some (sh, if sh.exiting then returned else waiting)
  move fails sh waiting =
      if sh.dead
      then none
      else if sh.locked
      then none
      else some (record sh { locked = true }, accepting)
  move fails sh accepting =
      if sh.dead then none else if fails then some (sh, failed) else elim sh.queue [
        | [] ↦ none
        | ◌∷◌ r rest ↦
            some (record sh { queue = rest; accepted = sh.accepted ++ r ∷ [] }, holding r)
      ]
  move fails sh failed = if sh.dead then none else some (record sh { locked = false }, returned)
  move fails sh (holding r) =
      if sh.dead then none else some (record sh { locked = false }, serving r)
  move fails sh (serving r) =
      if sh.dead then none else if fails then some (sh, hanging r) else elim (serve handle s r) [
        | finished text ↦ some (record sh { answered = sh.answered ++ (r, text) ∷ [] }, looping)
        | terminated ↦ some (record sh { dead = true }, serving r)
      ]
  move fails sh (hanging r) = none
  move fails sh returned = none

pub record Process : Type 0 where
  pub threads : List Place
  pub shared : Shared

-- NUM_WORKERS.
abbrev pub num_workers : ℕ
num_workers = 5

-- `run`, where each thread can be made. It returns when each of them has.
unfoldable pub run : Process
run = record {
  threads = replicate num_workers looping;
  shared = record {
    locked = false;
    exiting = false;
    dead = false;
    queue = [];
    arrived = [];
    accepted = [];
    answered = [];
  };
}

-- A thread moves; a request arrives; `exit` is called.
pub data Step (handle : Handle) (s : Server) : Process → Process → Type 0 where
  moves :
      {sh sh' : Shared} {p' : Place} (xs : List Place) (p : Place) (ys : List Place) (fails : Bool)
      → move handle s fails sh p ≡ some (sh', p')
      → Step handle s
          (record { threads = xs ++ p ∷ ys; shared = sh })
          (record { threads = xs ++ p' ∷ ys; shared = sh' })
  arrives :
      {ps : List Place} {sh : Shared} (r : Env)
      → Step handle s
          (record { threads = ps; shared = sh })
          (record {
            threads = ps;
            shared = record sh { queue = sh.queue ++ r ∷ []; arrived = sh.arrived ++ r ∷ [] };
          })
  exits :
      {ps : List Place} {sh : Shared}
      → Step handle s
          (record { threads = ps; shared = sh })
          (record { threads = ps; shared = record sh { exiting = true } })

-- The processes that can come of `run`.
pub data Runs (handle : Handle) (s : Server) : Process → Type 0 where
  starts : Runs handle s run
  then_step : {p q : Process} → Runs handle s p → Step handle s p q → Runs handle s q
