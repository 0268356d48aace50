-- ===== src/Tests/Maps.antt =====
-- The map of a site, of a blog with one page, post and author, and 25 posts in a category.
use fcgi_cpp_appserver.Common.{false, Option, none, some, List, [], ◌∷◌, if◌then◌else◌}
use fcgi_cpp_appserver.Common.Bytes.{Bytes, codes, equal}
use fcgi_cpp_appserver.Common.Dict.{All}
use fcgi_cpp_appserver.Database
use fcgi_cpp_appserver.Database.{Client, Result, Row, row, Fetched}
use fcgi_cpp_appserver.Database.Columns
use fcgi_cpp_appserver.Database.Columns.{Moment}
use fcgi_cpp_appserver.Exception.{Exception}
use fcgi_cpp_appserver.Handling.Ends.{OfRow}
use fcgi_cpp_appserver.Sitemap.{Sites, per_page_query, category_query, front_query}
use fcgi_cpp_appserver.Sitemap.Defined.{IsBlog}
use fcgi_cpp_appserver.Worker.{Env}
use fcgi_cpp_appserver.Xml.{Doc}

abbrev posted : Moment
posted = record { year = 2012; month = 2; day = 29; hour = 7; minute = 5; second = 59 }

abbrev one_row : List Columns.Column → List Fetched
one_row columns = row (record { columns = columns; nulls = [] }) ∷ []

abbrev texts : List Fetched
texts =
    one_row
      (Columns.string (codes "about") ∷ Columns.date_time posted ∷ Columns.date_time posted ∷ [])

abbrev settings : List Fetched
settings = one_row (Columns.blob (codes "10") ∷ [])

abbrev counts : List Fetched
counts =
    one_row
      (Columns.string (codes "news") ∷ Columns.date_time posted ∷ Columns.long_long false 25 ∷ [])

abbrev totals : List Fetched
totals = one_row (Columns.date_time posted ∷ Columns.long_long false 25 ∷ [])

abbrev tables : Bytes → Option (List Fetched)
tables query =
    if equal query per_page_query
    then some settings
    else if equal query category_query
    then some counts
    else if equal query front_query
    then some totals
    else some texts

abbrev wordpress : Client
wordpress = record {
  prepare = λ text. some 1;
  run = λ text params. tables text;
  error = codes "no connection";
}

abbrev OfAnswer : (Row → Type 0) → Option (List Fetched) → Type 0
OfAnswer P none = Unit
OfAnswer P (some rows) = All (OfRow P) rows

abbrev one_site : Sites
one_site = (codes "www.nginxguts.com", Database.returns wordpress) ∷ []

abbrev environment : Env
environment name = some (codes "www.nginxguts.com")

abbrev dump : Doc → Option Bytes
dump doc = some (codes "<urlset/>")

abbrev AreBlogs : Option (Result Client) → Type 0
AreBlogs none = Unit
AreBlogs (some (Database.throws e)) = Unit
AreBlogs (some (Database.returns client)) = IsBlog client
