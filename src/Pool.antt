-- ===== src/Pool.antt =====
-- `DBPool` of src/db/db_pool.h and src/db/db_pool.cpp. A `DBConn*` is a number; `live` holds the
-- connections that are made and not deleted. What a thread does between taking and leaving `m_lock` is
-- one call here; a wait on `m_not_empty` ends the call, and `get_woken` is what comes behind it.
pub mod Owners
pub mod Maintenance
pub mod System
pub mod Faults
pub mod Startup
pub mod Counts
pub mod Kept
pub mod Started
pub mod Moves
pub mod Joined
pub mod Jams
pub mod Races
pub mod Holder
use fcgi_cpp_appserver.Common.{
  ℕ, zero, suc, ◌+◌, ◌-◌, Bool, true, false, not, ◌&&◌, ◌||◌, Option, none, some, List, [], ◌∷◌,
  ◌++◌, ltb, leb, ◌==◌, if◌then◌else◌, length,
}

pub record Pool : Type 0 where
  pub locked : Bool
  pub all_connections : List ℕ
  pub available_connections : List ℕ
  pub min_connections : ℕ
  pub max_connections : ℕ
  pub num_connections : ℕ
  pub num_available : ℕ
  pub last_used : ℕ → ℕ
  pub live : List ℕ

-- The constructor.
unfoldable pub create : ℕ → ℕ → Pool
create min_connections max_connections = record {
  locked = false;
  all_connections = [];
  available_connections = [];
  min_connections = min_connections;
  max_connections = max_connections;
  num_connections = 0;
  num_available = 0;
  last_used = λ c. 0;
  live = [];
}

-- A call's end: it has a connection, it waits on the condition, an exception leaves it, it is blocked
-- on a mutex that nobody will leave, or it takes the front of an empty list.
pub data Got : Type 0 where
  got : ℕ → Pool → Got
  waits : Pool → Got
  throws : Pool → Got
  blocked undefined_behaviour : Got

-- `time(&conn->m_last_used)`.
abbrev pub touch : ℕ → ℕ → Pool → Pool
touch c now p = record p { last_used = λ d. if d == c then now else p.last_used d }

-- `grow`: `connected` is the new connection, or `none` where `mysql_real_connect` fails.
unfoldable pub grow : Pool → Option ℕ → Option (ℕ × Pool)
grow p connected = elim connected [
  | none ↦ none
  | some c ↦ some (
    c,
    record p {
      all_connections = p.all_connections ++ c ∷ [];
      num_connections = p.num_connections + 1;
      live = c ∷ p.live;
    },
  )
]

-- The front of `m_available_connections`, by the list. `m_num_available--` is of a `size_t`; it is
-- above 0 where the list is not empty.
unfoldable pub take_from : List ℕ → Pool → ℕ → Got
take_from [] p now = undefined_behaviour
take_from (c ∷ rest) p now =
    got c
      (touch c now (record p { available_connections = rest; num_available = p.num_available - 1 }))

abbrev pub is_empty : List ℕ → Bool
is_empty [] = true
is_empty (c ∷ cs) = false

-- `get` behind its `pthread_mutex_lock`. An exception of `grow` leaves the mutex locked.
unfoldable pub get_locked : Pool → Option ℕ → ℕ → Got
get_locked p connected now =
    if p.num_available == 0 && ltb p.num_connections p.max_connections
    then (elim (grow p connected) [
      | none ↦ throws (record p { locked = true })
      | some (c, q) ↦ got c (touch c now q)
    ])
    else if is_empty p.available_connections
    then waits p
    else take_from p.available_connections p now

unfoldable pub get : Pool → Option ℕ → ℕ → Got
get p connected now = if p.locked then blocked else get_locked p connected now

-- `get` behind its `pthread_cond_wait`, whatever woke it: nothing is tested again.
unfoldable pub get_woken : Pool → ℕ → Got
get_woken p now = if p.locked then blocked else take_from p.available_connections p now

-- `put`; `none` is a call that is blocked.
unfoldable pub put : Pool → ℕ → ℕ → Option Pool
put p c now =
    if p.locked
    then none
    else some (
        touch c now (record p {
          available_connections = p.available_connections ++ c ∷ [];
          num_available = p.num_available + 1;
        }))

-- The first available connection that has been idle for 60 seconds, and the others.
unfoldable pub find_idle : (ℕ → ℕ) → ℕ → List ℕ → Option (ℕ × List ℕ)
find_idle last_used now [] = none
find_idle last_used now (c ∷ cs) =
    if leb 60 (now - last_used c)
    then some (c, cs)
    else elim (find_idle last_used now cs) [ none ↦ none | some (d, ds) ↦ some (d, c ∷ ds) ]

-- `delete`; `none` is a pointer to no live connection.
unfoldable pub delete : ℕ → List ℕ → Option (List ℕ)
delete c [] = none
delete c (d ∷ ds) =
    if d == c then some ds else elim (delete c ds) [ none ↦ none | some es ↦ some (d ∷ es) ]

-- A pool's turn in `maintenance_thread_func`. `to_remove` deletes the connection at the end of the
-- turn; `m_all_connections` is left alone. `none` is a pool that is locked for ever, or a bad `delete`.
unfoldable pub maintain : Pool → ℕ → Option Pool
maintain p now =
    if p.locked then none else elim (find_idle p.last_used now p.available_connections) [
      | none ↦ some p
      | some (c, rest) ↦ elim (delete c p.live) [
        | none ↦ none
        | some live ↦ some (record p {
          available_connections = rest;
          num_connections = p.num_connections - 1;
          num_available = p.num_available - 1;
          live = live;
        })
      ]
    ]

-- The destructor: `none` where a `delete` hits no live connection.
unfoldable pub delete_all : List ℕ → List ℕ → Option (List ℕ)
delete_all [] live = some live
delete_all (c ∷ cs) live = elim (delete c live) [ none ↦ none | some rest ↦ delete_all cs rest ]

unfoldable pub destroy : Pool → Option (List ℕ)
unfolding delete_all
destroy p = delete_all p.all_connections p.live
