-- ===== src/Tests/Requests.antt =====
-- Queries, mappings and requests at concrete inputs.
use fcgi_cpp_appserver.Common.{
  ℕ, ◌≡◌, refl, true, none, some, [], ◌∷◌, ◌++◌, arith, map, foldl, if◌then◌else◌,
}
use fcgi_cpp_appserver.Common.Bytes.{Bytes, codes, equal, find, less}
use fcgi_cpp_appserver.Exception.{fcgi_exception, http_not_found}
use fcgi_cpp_appserver.Query
use fcgi_cpp_appserver.Server
use fcgi_cpp_appserver.Url
use fcgi_cpp_appserver.Url.Parts.{show_url, scheme, create-show_url}
use fcgi_cpp_appserver.Url.Joined.{Joins, create-Joins}
use fcgi_cpp_appserver.Query.{parse_query_args, get_param, has_param}
use fcgi_cpp_appserver.Query.Pieces.{parse_query_args-pieces, put, cut_then}
use fcgi_cpp_appserver.Server.{Server, Handler, add_handler_mapping, invoke_handler, fires, refuses}
use fcgi_cpp_appserver.Server.Invoke.{Built, created, mapped, Dispatched, invoke_handler-Dispatched}
use fcgi_cpp_appserver.Server.Exact.{exact_mapping_shifted}
use fcgi_cpp_appserver.Worker.{get_fcgi_param, Env, Handle, worker_thread, answer, returned}
use fcgi_cpp_appserver.Worker.Answers.{worker_thread-answers, accepts, query_params, IsShort}

parse_query_args-pieces_example :
    parse_query_args (codes "a=1&b&c=2")
    ≡ Query.done (foldl put [] (cut_then b'&' b'c' (codes "a=1&b&c=2")))
parse_query_args-pieces_example = parse_query_args-pieces (codes "a=1&b&c=2") (omega arith)

-- "/" and "/blog" with handlers 1 and 2.
abbrev site : Server
site = record {
  endpoint = [];
  locations_map = (codes "/", some 1) ∷ (codes "/blog", some 2) ∷ [];
  exact_locations_map = [];
  handlers = [];
}

site-Built : Built site
unfolding add_handler_mapping Server.at_front find less Server.insert Server.create
site-Built = mapped (codes "/") (some 1) (mapped (codes "/blog") (some 2) (created []) refl) refl

invoke_handler-Dispatched_example :
    Dispatched site (codes "/blog/7") (invoke_handler site (codes "/blog/7"))
invoke_handler-Dispatched_example = invoke_handler-Dispatched (codes "/blog/7") site-Built

exact_mapping_shifted_example :
    (t : Server) × (what : Bytes) × (add_handler_mapping
        (Server.create [])
        (b'=' ∷ b'/' ∷ codes "robots.txt")
        (some 1)
      ≡ some t)
    × (invoke_handler t (b'/' ∷ codes "robots.txt") ≡ refuses (fcgi_exception what http_not_found))
    × (invoke_handler t (codes "robots.txt") ≡ fires 1)
exact_mapping_shifted_example = exact_mapping_shifted [] (codes "robots.txt") b'/' 1 (omega arith)

abbrev echo : Handle
echo h env params = (codes "ok", none)

-- A request for "/blog" without a query.
abbrev request : Env
request name = if equal name (codes "SCRIPT_NAME") then some (codes "/blog") else none

request-IsShort : IsShort request
unfolding get_fcgi_param equal
request-IsShort = omega arith

worker_thread-answers_example :
    worker_thread echo site []
      (map accepts (request ∷ request ∷ []) ++ record { exiting = true; accepted = none } ∷ [])
    ≡ returned ([] ++ map (λ env. answer echo site env (query_params env)) (request ∷ request ∷ []))
worker_thread-answers_example =
    worker_thread-answers echo site [] (request ∷ request ∷ [])
      (record { exiting = true; accepted = none } ∷ []) (request-IsShort, (request-IsShort, tt))
      refl

create-show_url_example :
    Url.create (show_url true (codes "a.org") (codes "80") (codes "/b") (codes "?c"))
    ≡ Url.made (record {
      source = show_url true (codes "a.org") (codes "80") (codes "/b") (codes "?c");
      schema = scheme true;
      host = codes "a.org";
      port = codes "80";
      path = codes "/b";
      query = codes "?c";
    })
create-show_url_example =
    create-show_url true (codes "a.org") (codes "80") (codes "/b") (codes "?c")
      (refl, (refl, (refl, (refl, (refl, tt))))) (refl, (refl, tt)) (refl, (refl, tt)) refl

create-Joins_example : Joins (codes "http://a:1x") (Url.create (codes "http://a:1x"))
create-Joins_example = create-Joins (codes "http://a:1x")

-- No `double` is used.
abbrev no_double : ℕ → Bytes
no_double d = []
