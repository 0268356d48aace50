-- ===== src/Service/Process.antt =====
-- `worker_process` of src/server/worker.cpp as a whole: what it does in turn, what it frees, and what
-- it returns. What the system's calls give is an argument.
use fcgi_cpp_appserver.Common.{
  ℕ, ◌≡◌, refl, Bool, true, false, not, Option, none, some, List, [], ◌∷◌, ◌++◌, ◌==◌, ◌&&◌, map,
  if◌then◌else◌,
}
use fcgi_cpp_appserver.Common.Bytes.{Bytes}
use fcgi_cpp_appserver.Server.{Server}
use fcgi_cpp_appserver.Server.Lifetime.{
  Act, is_done, init, shutdown, destroy, call_all, destroy_all, erase_one,
}
use fcgi_cpp_appserver.Service.Routes.{tables, wired_lem}
use fcgi_cpp_appserver.Service.{
  wp_handler, sitemap_handler, wired, Ids, Dropped, left_as, crashes, drop_permissions,
}

pub data Event : Type 0 where
  starts_maintenance joins_maintenance destroys_pool runs : Event
  drops_permissions : Ids → Event
  makes : ℕ → Event
  calls : Act → Event

-- `dies` ends the process with no destructor run.
pub data Ended : Type 0 where
  returns : ℕ → Ended
  dies : Ended

-- `alive` is the handlers that are made and not deleted.
pub record Life : Type 0 where
  pub events : List Event
  pub alive : List ℕ
  pub ended : Ended

-- `mutex_made` and `opened` are whether `pthread_mutex_init` and `FCGX_OpenSocket` succeed, `stopped`
-- whether `run` returns.
pub record World : Type 0 where
  pub mutex_made : Bool
  pub opened : Bool
  pub stopped : Bool
  pub getpwnam : Bytes → Option ℕ
  pub getgrnam : Bytes → Option ℕ
  pub ids : Ids

-- The end of the `try` block, where the server is destroyed, and what is done behind it.
unfoldable pub leave : Server → List ℕ → List Event → List Event → ℕ → Life
leave s alive before behind status = elim (destroy s alive) [
  | none ↦ record { events = before; alive = alive; ended = dies }
  | some left ↦ record { events = before ++ behind; alive = left; ended = returns status }
]

-- `init`, `run` and `shutdown`. The two handlers' own `init` and `shutdown` are empty.
unfoldable pub serve_until : World → Server → List ℕ → List Event → Life
unfolding leave
serve_until w s alive before =
    let (up, began) = init (λ h. false) w.opened s in
    let (down, closed) = shutdown (λ h. false) s in
    if not (is_done began)
    then leave s alive (before ++ map calls up) (destroys_pool ∷ []) 1
    else if not w.stopped
    then record { events = before ++ (map calls up ++ runs ∷ []); alive = alive; ended = dies }
    else if not (is_done closed)
    then leave s alive (before ++ (map calls up ++ runs ∷ map calls down)) (destroys_pool ∷ []) 1
    else leave s alive (before ++ (map calls up ++ runs ∷ map calls down))
        (joins_maintenance ∷ destroys_pool ∷ []) 0

-- With the handlers made, and the tables that come of them: `none` where a mapping cannot be cut.
unfoldable pub wire : World → List Event → Option Server → Life
unfolding serve_until
wire w before none = record { events = before ++ destroys_pool ∷ []; alive = []; ended = returns 1 }
wire w before (some s) = serve_until w s (wp_handler ∷ sitemap_handler ∷ []) before

-- Behind `drop_permissions`.
unfoldable pub go_on : World → Dropped → Life
unfolding wire
go_on w crashes = record { events = starts_maintenance ∷ []; alive = []; ended = dies }
go_on w (left_as ids) =
    wire w
      (starts_maintenance ∷ drops_permissions ids ∷ makes wp_handler ∷ makes sitemap_handler ∷ [])
      wired

-- A server's constructor throws where its mutex cannot be made.
unfoldable pub worker_process : World → Life
unfolding go_on
worker_process w =
    if w.mutex_made
    then go_on w (drop_permissions w.getpwnam w.getgrnam w.ids)
    else record { events = starts_maintenance ∷ destroys_pool ∷ []; alive = []; ended = returns 1 }

-- Whether the pool is destroyed while its maintenance thread, which runs or does not, uses it.
abbrev pub pulled_away : Bool → List Event → Bool
pulled_away running [] = false
pulled_away running (starts_maintenance ∷ es) = pulled_away true es
pulled_away running (joins_maintenance ∷ es) = pulled_away false es
pulled_away running (destroys_pool ∷ es) = if running then true else pulled_away running es
pulled_away running (_ ∷ es) = pulled_away running es

-- What holds of a call that returns.
abbrev pub Leaves : World → Life → Ended → Type 0
Leaves w life dies = Unit
Leaves w life (returns status) =
    (life.alive ≡ [])
    × ((status == 0) ≡ (w.mutex_made && w.opened))
    × (pulled_away false life.events ≡ not (status == 0))

abbrev world : Bool → Bool → Bool → (Bytes → Option ℕ) → (Bytes → Option ℕ) → Ids → World
world made opened stopped getpwnam getgrnam ids = record {
  mutex_made = made;
  opened = opened;
  stopped = stopped;
  getpwnam = getpwnam;
  getgrnam = getgrnam;
  ids = ids;
}

abbrev LeavesOf : World → Life → Type 0
LeavesOf w life = Leaves w life life.ended

serves_until :
    (opened stopped : Bool) (p g : Bytes → Option ℕ) (ids now : Ids)
    → let w = world true opened stopped p g ids in
      LeavesOf w (
        serve_until w tables (wp_handler ∷ sitemap_handler ∷ []) (
          starts_maintenance
          ∷ drops_permissions now
          ∷ makes wp_handler
          ∷ makes sitemap_handler
          ∷ []))
unfolding serve_until leave init shutdown call_all destroy destroy_all erase_one
serves_until true true p g ids now = (refl, refl, refl)
serves_until true false p g ids now = tt
serves_until false stopped p g ids now = (refl, refl, refl)

goes_on :
    (opened stopped : Bool) (p g : Bytes → Option ℕ) (ids : Ids) (d : Dropped)
    → let w = world true opened stopped p g ids in LeavesOf w (go_on w d)
unfolding go_on wire
goes_on opened stopped p g ids crashes = tt
goes_on opened stopped p g ids (left_as now) =
    rw wired_lem (serves_until opened stopped p g ids now)

lives :
    (made opened stopped : Bool) (p g : Bytes → Option ℕ) (ids : Ids)
    → let w = world made opened stopped p g ids in LeavesOf w (worker_process w)
unfolding worker_process
lives false opened stopped p g ids = (refl, refl, refl)
lives true opened stopped p g ids = goes_on opened stopped p g ids (drop_permissions p g ids)

-- However the worker's function returns, no handler is left over. It returns 0 just where the server
-- has its mutex and its socket; and where it does not, the pool is destroyed while the maintenance
-- thread, which is not joined, goes on to use it.
pub worker_process-Leaves : (w : World) → Leaves w (worker_process w) (worker_process w).ended
worker_process-Leaves w = lives w.mutex_made w.opened w.stopped w.getpwnam w.getgrnam w.ids
