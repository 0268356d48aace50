-- ===== src/Tests/Connections.antt =====
-- A pool of connections at concrete inputs.
use mathlib.Core.List.{not-mem-nil, mem-cons_self, Nodup-cons}
use mathlib.Core.List.Pairwise
use fcgi_cpp_appserver.Common.{◌≡◌, refl, false, none, some, [], ◌∷◌}
use fcgi_cpp_appserver.Pool.{
  Pool, create, touch, grow, get_locked, get, get_woken, put, maintain, destroy, got,
  undefined_behaviour, find_idle, delete,
}
use fcgi_cpp_appserver.Pool.Owners.{Owns}
use fcgi_cpp_appserver.Pool.System.{gets, starts, then_step, Runs-Owns}
use fcgi_cpp_appserver.Pool.Faults.{stolen_wakeup, maintain-destroy}

stolen_wakeup_example :
    (q r : Pool) × (put (create 0 1) 7 9 ≡ some q)
    × (get q none 9 ≡ got 7 r)
    × (get_woken r 9 ≡ undefined_behaviour)
unfolding create
stolen_wakeup_example = stolen_wakeup (create 0 1) none 7 9 refl refl refl

-- A pool with the one connection 7, used last at 0.
abbrev idle : Pool
idle = record {
  locked = false;
  all_connections = 7 ∷ [];
  available_connections = 7 ∷ [];
  min_connections = 0;
  max_connections = 1;
  num_connections = 1;
  num_available = 1;
  last_used = λ c. 0;
  live = 7 ∷ [];
}

-- `idle` behind a turn of the maintenance.
abbrev emptied : Pool
emptied = record idle {
  available_connections = [];
  num_connections = 0;
  num_available = 0;
  live = [];
}

maintain-destroy_example : destroy emptied ≡ none
unfolding maintain find_idle delete
maintain-destroy_example =
    maintain-destroy idle 7 60 [] refl refl (Nodup-cons.1 (not-mem-nil, Pairwise.nil)) mem-cons_self
      refl

-- A thread makes connection 7 and gives it back.
abbrev lent_out : Pool
lent_out =
    touch 7 1 (record (create 0 1) { all_connections = 7 ∷ []; num_connections = 1; live = 7 ∷ [] })

Runs-Owns_example : Owns lent_out (7 ∷ [])
unfolding create get get_locked grow
Runs-Owns_example =
    Runs-Owns {min = 0} {max = 1} (then_step starts (gets (some 7) 1 not-mem-nil refl))
