-- ===== src/Service.antt =====
-- `worker_process` and `drop_permissions` of src/server/worker.cpp: how a worker's server, its handlers
-- and the pool of its database are put together, and what the process may do from then on.
pub mod Routes
pub mod Permissions
pub mod Process
use fcgi_cpp_appserver.Common.{
  ℕ, ◌||◌, Bool, true, false, Option, none, some, List, [], ◌∷◌, ◌==◌, if◌then◌else◌,
}
use fcgi_cpp_appserver.Common.Bytes.{Bytes, codes}
use fcgi_cpp_appserver.Common.Dict.{Dict, or_else}
use fcgi_cpp_appserver.Blog
use fcgi_cpp_appserver.Blog.{Dump}
use fcgi_cpp_appserver.Database.{Client, Result}
use fcgi_cpp_appserver.Exception.{Exception}
use fcgi_cpp_appserver.Server.{Server, create, add_handler, add_handler_mapping}
use fcgi_cpp_appserver.Sitemap
use fcgi_cpp_appserver.Sitemap.{Sites, add_site}
use fcgi_cpp_appserver.Worker.{Env, Handle}

-- The numbers that stand for the two handlers.
abbrev pub wp_handler : ℕ
wp_handler = 0

abbrev pub sitemap_handler : ℕ
sitemap_handler = 1

-- `sitemap_handler_ptr->add_site`.
unfoldable pub sites : Result Client → Sites
unfolding add_site
sites pool = add_site [] (codes "wordpress.example.com") pool

-- The server's tables; `none` is a `std::out_of_range` of a mapping.
unfoldable pub wired : Option Server
unfolding create add_handler add_handler_mapping
wired = elim (add_handler_mapping (create (codes ":9002")) (codes "/") (some wp_handler)) [
  | none ↦ none
  | some s ↦ elim (add_handler_mapping s (codes "/sitemap.xml") (some sitemap_handler)) [
    | none ↦ none
    | some t ↦ some (add_handler (add_handler t (some sitemap_handler)) (some wp_handler))
  ]
]

abbrev pub out_of :
    Bytes × Option Exception → Option (Bytes × Option Exception) → Bytes × Option Exception
out_of chaos none = chaos
out_of chaos (some out) = out

-- The handlers' `handle`, by the handler. The last argument is what a call does that has no defined end.
unfoldable pub handle : Dump → Result Client → Bytes × Option Exception → Handle
unfolding sites
handle dump pool chaos h env params = out_of chaos (
    if h == sitemap_handler
    then Sitemap.handle dump (sites pool) env
    else Blog.handle dump pool env params)

-- The user and the group of a process, the same for its real, effective and saved one.
pub record Ids : Type 0 where
  pub uid : ℕ
  pub gid : ℕ

-- What the system's calls do, as POSIX has them: only a process of root may take any number. Their
-- results are not looked at.
unfoldable pub setuid : ℕ → Ids → Ids
setuid u ids = if ids.uid == 0 || u == ids.uid then record ids { uid = u } else ids

unfoldable pub setgid : ℕ → Ids → Ids
setgid g ids = if ids.uid == 0 || g == ids.gid then record ids { gid = g } else ids

-- How `drop_permissions` ends: `crashes` reads through a null pointer.
pub data Dropped : Type 0 where
  left_as : Ids → Dropped
  crashes : Dropped

-- `getpwnam` and `getgrnam` are what the system's tables have, `none` being NULL.
unfoldable pub drop_permissions : (Bytes → Option ℕ) → (Bytes → Option ℕ) → Ids → Dropped
unfolding setuid setgid
drop_permissions getpwnam getgrnam ids =
    let nobody = or_else (getpwnam (codes "www-data")) (getpwnam (codes "nobody")) in
    let nogroup = or_else (getgrnam (codes "www-data")) (getgrnam (codes "nogroup")) in
    elim nobody [
      | none ↦ left_as ids
      | some u ↦ elim nogroup [ none ↦ crashes | some g ↦ left_as (setgid g (setuid u ids)) ]
    ]
