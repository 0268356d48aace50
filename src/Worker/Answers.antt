-- ===== src/Worker/Answers.antt =====
-- No request is left unanswered.
use fcgi_cpp_appserver.Common.{
  ◌<◌, ◌≡◌, ◌∙◌, ap, false, none, some, List, [], ◌∷◌, ◌++◌, map, if◌then◌else◌, length,
  append_assoc, append-nil, foldl,
}
use fcgi_cpp_appserver.Common.Bytes.{Bytes, codes, npos}
use fcgi_cpp_appserver.Common.Dict.{Dict, All}
use fcgi_cpp_appserver.Query.Pieces.{put, cut_then, parse_query_args-pieces}
use fcgi_cpp_appserver.Server.{Server}
use fcgi_cpp_appserver.Worker.{
  Env, Handle, get_fcgi_param, answer, serve, finished, Round, returned, worker_thread,
}

-- A query that a `std::string` can hold.
abbrev pub IsShort : Env → Type 0
IsShort env = length (get_fcgi_param env (codes "QUERY_STRING")) < npos

-- The map that the handler sees.
abbrev pub query_params : Env → Dict Bytes
query_params env = foldl put [] (cut_then b'&' b'c' (get_fcgi_param env (codes "QUERY_STRING")))

serve-finished :
    (handle : Handle) (s : Server) (env : Env)
    → IsShort env
    → serve handle s env ≡ finished (answer handle s env (query_params env))
unfolding serve
serve-finished handle s env h =
    rw (parse_query_args-pieces (get_fcgi_param env (codes "QUERY_STRING")) h, serve)

abbrev pub accepts : Env → Round
accepts env = record { exiting = false; accepted = some env }

-- The rounds at whose first the thread leaves its loop.
abbrev pub Stops : List Round → Type 0
Stops [] = ⊥
Stops (r ∷ rs) = (if r.exiting then none else r.accepted) ≡ none

-- The thread answers each request that it accepts, if its query is shorter than `npos`, once and in
-- turn, whatever the handlers throw, and returns when it is told to exit or accepting fails.
pub worker_thread-answers :
    (handle : Handle) (s : Server) (sent : List Bytes) (envs : List Env) (rest : List Round)
    → All IsShort envs
    → Stops rest
    → worker_thread handle s sent (map accepts envs ++ rest)
      ≡ returned (sent ++ map (λ env. answer handle s env (query_params env)) envs)
unfolding worker_thread
worker_thread-answers handle s sent [] [] h stop = absurd stop
worker_thread-answers handle s sent [] (r ∷ rs) h stop = rw (stop, worker_thread, append-nil)
worker_thread-answers handle s sent (env ∷ envs) rest h stop =
    let text = answer handle s env (query_params env) in
    rw (serve-finished handle s env h.0, worker_thread)
      (worker_thread-answers handle s (sent ++ text ∷ []) envs rest h.1 stop
        ∙ ap returned (append_assoc sent (text ∷ []) _))
