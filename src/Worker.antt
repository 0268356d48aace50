-- ===== src/Worker.antt =====
-- `fcgi_server::worker_thread` of src/server/fcgi_server.cpp: one request after another, each answered
-- and finished. `FCGX_GetParam` is a function from names; a handler's `handle` is a function that gives
-- what it writes and the exception that it throws, if it does.
pub mod Answers
pub mod Threads
pub mod Counts
pub mod Once
pub mod Progress
use fcgi_cpp_appserver.Common.{
  ℕ, ◌+◌, Bool, true, false, Option, none, some, List, [], ◌∷◌, ◌++◌, if◌then◌else◌,
}
use fcgi_cpp_appserver.Common.Bytes.{Bytes, codes}
use fcgi_cpp_appserver.Common.Decimal.{show}
use fcgi_cpp_appserver.Common.Dict.{Dict}
use fcgi_cpp_appserver.Exception.{
  Exception, fcgi_exception, logic_error, runtime_error, other_exception,
}
use fcgi_cpp_appserver.Query.{parse_query_args, done, out_of_range, stuck}
use fcgi_cpp_appserver.Server.{Server, invoke_handler, fires, refuses}

-- `FCGX_GetParam(name, request.envp)`, where `none` is NULL.
abbrev pub Env : Type 0
Env = Bytes → Option Bytes

-- `fcgi_request::get_fcgi_param`.
unfoldable pub get_fcgi_param : Env → Bytes → Bytes
get_fcgi_param env name = elim (env name) [ none ↦ [] | some v ↦ v ]

-- What a call of `fcgi_handler::handle` writes, and what it throws.
abbrev pub Handle : Type 0
Handle = ℕ → Env → Dict Bytes → Bytes × Option Exception

abbrev internal_error : Bytes
internal_error =
    codes
      "Status: 500\r\nContent-Type: text/plain; encoding=utf-8\r\nCache-Control: no-cache\r\n\r\n"

-- The three `catch` clauses.
unfoldable pub report : Exception → Bytes
report (fcgi_exception what status) =
    codes "Status: "
    ++ (show status
        ++ (codes "\r\nContent-Type: text/plain; encoding=utf-8\r\n\r\nError: " ++ what))
report (logic_error what) = internal_error ++ (codes "Error: " ++ what)
report (runtime_error what) = internal_error ++ (codes "Error: " ++ what)
report other_exception = internal_error ++ codes "Unknown internal error"

-- One request: it is finished with what was written, or an exception leaves the thread.
pub data Served : Type 0 where
  finished : Bytes → Served
  terminated : Served

unfoldable pub report_after : Bytes × Option Exception → Bytes
report_after (out, none) = out
report_after (out, some e) = out ++ report e

-- The `try` block and its handlers.
unfoldable pub answer : Handle → Server → Env → Dict Bytes → Bytes
unfolding report_after
answer handle s env params = elim (env (codes "SCRIPT_NAME")) [
  | none ↦ report (logic_error (codes "HTTP server is not configured to pass SCRIPT_NAME variable"))
  | some name ↦ elim (invoke_handler s (get_fcgi_param env (codes "SCRIPT_NAME"))) [
    | fires h ↦ report_after (handle h env params)
    | refuses e ↦ report e
  ]
]

-- The request object is made in front of the `try` block, and parses the query.
unfoldable pub serve : Handle → Server → Env → Served
serve handle s env = elim (parse_query_args (get_fcgi_param env (codes "QUERY_STRING"))) [
  | done params ↦ finished (answer handle s env params)
  | out_of_range ↦ terminated
  | stuck ↦ terminated
]

-- One round: what `m_exiting` is, and what `FCGX_Accept_r` gives, `none` being an error.
pub record Round : Type 0 where
  pub exiting : Bool
  pub accepted : Option Env

pub data Thread : Type 0 where
  waits returned died : List Bytes → Thread

-- The thread with what it has sent, after some rounds.
unfoldable pub worker_thread : Handle → Server → List Bytes → List Round → Thread
worker_thread handle s sent [] = waits sent
worker_thread handle s sent (r ∷ rs) = elim (if r.exiting then none else r.accepted) [
  | none ↦ returned sent
  | some env ↦ elim (serve handle s env) [
    | finished text ↦ worker_thread handle s (sent ++ text ∷ []) rs
    | terminated ↦ died sent
  ]
]
