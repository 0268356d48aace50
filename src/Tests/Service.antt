-- ===== src/Tests/Service.antt =====
-- A worker at concrete inputs.
use fcgi_cpp_appserver.Common.{◌≡◌, refl, Option, none, some, [], if◌then◌else◌, arith}
use fcgi_cpp_appserver.Common.Bytes.{Bytes, codes, equal, is_prefix}
use fcgi_cpp_appserver.Blog.{Dump}
use fcgi_cpp_appserver.Database
use fcgi_cpp_appserver.Database.{Client, Result, DbException}
use fcgi_cpp_appserver.Exception.{Exception}
use fcgi_cpp_appserver.Service.{sites, out_of, handle, drop_permissions, left_as}
use fcgi_cpp_appserver.Service.Routes.{tables, wired_lem, answer-routed}
use fcgi_cpp_appserver.Service.Permissions.{root, drop_permissions-group}
use fcgi_cpp_appserver.Sitemap
use fcgi_cpp_appserver.Worker.{Env, answer, report_after}

abbrev dump : Dump
dump doc = some (codes "<urlset/>")

-- No connection can be made.
abbrev pool : Result Client
pool = Database.throws (record { msg = codes "no connection"; stage = codes "connect" })

abbrev chaos : Bytes × Option Exception
chaos = ([], none)

abbrev environment : Env
environment name =
    if equal name (codes "SCRIPT_NAME")
    then some (codes "/sitemap.xml")
    else some (codes "wordpress.example.com")

answer-routed_example :
    answer (handle dump pool chaos) tables environment []
    ≡ report_after (out_of chaos (Sitemap.handle dump (sites pool) environment))
unfolding equal is_prefix
answer-routed_example =
    answer-routed dump pool chaos tables environment [] (codes "/sitemap.xml") wired_lem refl

drop_permissions-group_example :
    drop_permissions (λ name. some 33) (λ name. some 33) root
    ≡ left_as (record { uid = 33; gid = 0 })
drop_permissions-group_example =
    drop_permissions-group (λ name. some 33) (λ name. some 33) 33 refl (omega arith)
