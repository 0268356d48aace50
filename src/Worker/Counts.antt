-- ===== src/Worker/Counts.antt =====
-- What is counted of the threads of `fcgi_server::run`, of src/server/fcgi_server.cpp.
use mathlib.Core.List.{Perm}
use fcgi_cpp_appserver.Common.{ℕ, ◌+◌, ◌≡◌, Bool, List, [], ◌∷◌, ◌++◌, map, if◌then◌else◌}
use fcgi_cpp_appserver.Common.Bytes.{Bytes}
use fcgi_cpp_appserver.Common.Dict.{All}
use fcgi_cpp_appserver.Server.{Server}
use fcgi_cpp_appserver.Worker.{Env, Handle, serve, finished}
use fcgi_cpp_appserver.Worker.Threads.{Place, accepting, failed, holding, serving, hanging, Process}

-- Whether a thread has the mutex.
abbrev pub holds : Place → ℕ
holds accepting = 1
holds failed = 1
holds (holding r) = 1
holds _ = 0

abbrev pub holders : List Place → ℕ
holders [] = 0
holders (p ∷ ps) = holds p + holders ps

-- The requests that threads have accepted and not answered.
abbrev pub in_work : Place → List Env
in_work (holding r) = r ∷ []
in_work (serving r) = r ∷ []
in_work (hanging r) = r ∷ []
in_work _ = []

abbrev pub all_in_work : List Place → List Env
all_in_work [] = []
all_in_work (p ∷ ps) = in_work p ++ all_in_work ps

abbrev pub lock_count : Bool → ℕ
lock_count locked = if locked then 1 else 0

abbrev pub IsAnswer : Handle → Server → Env × Bytes → Type 0
IsAnswer handle s (r, text) = serve handle s r ≡ finished text

pub record IsServed (handle : Handle) (s : Server) (p : Process) : Type 0 where
  pub exclusive : holders p.threads ≡ lock_count p.shared.locked
  pub in_turn : p.shared.arrived ≡ p.shared.accepted ++ p.shared.queue
  pub once :
      Perm p.shared.accepted
        (all_in_work p.threads ++ map (λ (a : Env × Bytes). a.0) p.shared.answered)
  pub right : All (IsAnswer handle s) p.shared.answered
