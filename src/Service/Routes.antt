-- ===== src/Service/Routes.antt =====
-- Which handler of a worker of src/server/worker.cpp answers a request, through the server's tables.
use fcgi_cpp_appserver.Common.{
  ◌≡◌, refl, sym, subst, ◌∙◌, Bool, true, false, Option, none, some, [], ◌∷◌, ◌++◌, ◌&&◌,
  if◌then◌else◌,
}
use fcgi_cpp_appserver.Common.Bytes.{Bytes, codes, is_prefix, find, less}
use fcgi_cpp_appserver.Common.Dict.{Dict}
use fcgi_cpp_appserver.Blog
use fcgi_cpp_appserver.Blog.{Dump}
use fcgi_cpp_appserver.Blog.Pages.{starts-prefix}
use fcgi_cpp_appserver.Database.{Client, Result}
use fcgi_cpp_appserver.Exception.{Exception, fcgi_exception, http_not_found}
use fcgi_cpp_appserver.Server.{
  Server, create, add_handler, add_handler_mapping, insert, at_front, invoke_handler, exact_loop,
  prefix_loop, fires, refuses, Handler,
}
use fcgi_cpp_appserver.Service.{wp_handler, sitemap_handler, sites, wired, out_of, handle}
use fcgi_cpp_appserver.Sitemap
use fcgi_cpp_appserver.Worker.{Env, get_fcgi_param, answer, report, report_after}

at_front-is_prefix : (uri key : Bytes) → at_front uri key ≡ is_prefix key uri
unfolding at_front
at_front-is_prefix uri key = starts-prefix uri key

-- The tables.
abbrev pub tables : Server
tables = record {
  endpoint = codes ":9002";
  locations_map = (codes "/", some wp_handler) ∷ (codes "/sitemap.xml", some sitemap_handler) ∷ [];
  exact_locations_map = [];
  handlers = sitemap_handler ∷ wp_handler ∷ [];
}

pub wired_lem : wired ≡ some tables
unfolding wired create add_handler add_handler_mapping insert at_front find less
wired_lem = refl

chosen :
    (a b : Bool) (e : Exception)
    → (elim (if◌then◌else◌ {A = Handler}
        (a && true && true)
        (some sitemap_handler)
        (if◌then◌else◌ {A = Handler} (b && true && true) (some wp_handler) none)) [
          | none ↦ refuses e
          | some h ↦ fires h
        ])
      ≡ (if a then fires sitemap_handler else if b then fires wp_handler else refuses e)
chosen true b e = refl
chosen false true e = refl
chosen false false e = refl

invoke_tables :
    (uri : Bytes)
    → invoke_handler tables uri ≡ (
        if is_prefix (codes "/sitemap.xml") uri
        then fires sitemap_handler
        else if is_prefix (codes "/") uri
        then fires wp_handler
        else refuses (
            fcgi_exception
              (codes "No handlers configured for location: \"" ++ (uri ++ b'"' ∷ []))
              http_not_found))
unfolding invoke_handler exact_loop prefix_loop
invoke_tables uri =
    chosen (at_front uri (codes "/sitemap.xml")) (at_front uri (codes "/")) _
    ∙ rw (at_front-is_prefix uri (codes "/sitemap.xml"), at_front-is_prefix uri (codes "/")) refl

module _ (dump : Dump) (pool : Result Client) (chaos : Bytes × Option Exception) where
  -- What the two handlers and the server answer, by the path.
  abbrev pub routed : Env → Dict Bytes → Bytes → Bytes
  routed env params uri =
      if is_prefix (codes "/sitemap.xml") uri
      then report_after (out_of chaos (Sitemap.handle dump (sites pool) env))
      else if is_prefix (codes "/") uri
      then report_after (out_of chaos (Blog.route dump pool params uri))
      else report (
          fcgi_exception (codes "No handlers configured for location: \"" ++ (uri ++ b'"' ∷ []))
            http_not_found)

  answered :
      (env : Env) (params : Dict Bytes) (uri : Bytes) (a b : Bool) (e : Exception)
      → get_fcgi_param env (codes "SCRIPT_NAME") ≡ uri
      → (elim (if a then fires sitemap_handler else if b then fires wp_handler else refuses e) [
        | fires h ↦ report_after (handle dump pool chaos h env params)
        | refuses e' ↦ report e'
      ])
        ≡ (if a
            then report_after (out_of chaos (Sitemap.handle dump (sites pool) env))
            else if b
            then report_after (out_of chaos (Blog.route dump pool params uri))
            else report e)
  unfolding handle Blog.handle
  answered env params uri true b e s = refl
  answered env params uri false true e s = rw s refl
  answered env params uri false false e s = refl

  answer-tables :
      (env : Env) (params : Dict Bytes) (uri : Bytes)
      → env (codes "SCRIPT_NAME") ≡ some uri
      → answer (handle dump pool chaos) tables env params ≡ routed env params uri
  unfolding answer get_fcgi_param
  answer-tables env params uri e =
      let s : get_fcgi_param env (codes "SCRIPT_NAME") ≡ uri = rw (get_fcgi_param, e) refl in
      rw (answer, e, s, invoke_tables uri) (answered env params uri _ _ _ s)

  abbrev IsRouted : Env → Dict Bytes → Bytes → Option Server → Type 0
  IsRouted env params uri none = Unit
  IsRouted env params uri (some s) =
      answer (handle dump pool chaos) s env params ≡ routed env params uri

  -- A worker's server, as it is put together, answers a request whose path begins with "/sitemap.xml" by
  -- the map of the site, any other path that begins with "/" by the page of the blog for that path, and
  -- the rest by 404: the longer mapping goes first, whichever was added first.
  pub answer-routed :
      (s : Server) (env : Env) (params : Dict Bytes) (uri : Bytes)
      → wired ≡ some s
      → env (codes "SCRIPT_NAME") ≡ some uri
      → answer (handle dump pool chaos) s env params ≡ routed env params uri
  answer-routed s env params uri w e =
      subst (IsRouted env params uri) w
        (subst (IsRouted env params uri) (sym wired_lem) (answer-tables env params uri e))
