-- ===== src/Tests/Sites.antt =====
-- The handlers' pages at concrete inputs.
use fcgi_cpp_appserver.Common.{ℕ, ◌≡◌, refl, false, Option, none, some, List, [], ◌∷◌, arith}
use fcgi_cpp_appserver.Common.Bytes.{Bytes, codes, equal, member}
use fcgi_cpp_appserver.Database
use fcgi_cpp_appserver.Database.{Client, Result, Param, row, Fetched, string}
use fcgi_cpp_appserver.Handling.{returns, send_doc}
use fcgi_cpp_appserver.Xml.{Doc, new_doc}
use fcgi_cpp_appserver.Sitemap.Urls.{add_category_pages, add_front_pages}
use fcgi_cpp_appserver.Sitemap.Paging.{numbered, add_category_pages_lem, add_front_pages_lem}
use fcgi_cpp_appserver.Blog.{Dump, route, handle_category, handle_author, handle_post, content_type}
use fcgi_cpp_appserver.Blog.Pages.{route_lem, handle_category-silent}
use fcgi_cpp_appserver.Blog.Posts.{Post}
use fcgi_cpp_appserver.Blog.Single.{Found, found_row, found_doc, handle_post_lem}

abbrev empty : Doc
empty = new_doc (codes "urlset") (codes "1.0")

abbrev blog : Bytes
blog = codes "www.nginxguts.com"

-- 25 posts, 10 to a page: the second and the third page.
add_category_pages_lem_example :
    add_category_pages (codes "/c/") (codes "m") 10 25 empty
    ≡ returns (numbered (codes "/c/") (codes "m") 2 1 empty)
add_category_pages_lem_example =
    add_category_pages_lem (codes "/c/") (codes "m") 10 25 empty (omega arith)

-- 35 posts, 10 to a page: the second page only.
add_front_pages_lem_example :
    add_front_pages blog (codes "/") (codes "m") 10 35 empty
    ≡ returns (numbered (codes "/") (codes "m") 1 1 empty)
unfolding equal
add_front_pages_lem_example =
    add_front_pages_lem blog (codes "/") (codes "m") 10 35 empty (omega arith)

abbrev dump : Dump
dump doc = some (codes "<page/>")

-- A client that answers each statement of `count` parameters in one way.
abbrev client : ℕ → Option (List Fetched) → Client
client count rows = record {
  prepare = λ text. some count;
  run = λ text params. rows;
  error = codes "no connection";
}

route_lem_example :
    (route dump (Database.returns (client 1 (some []))) [] (codes "/category/news")
      ≡ handle_category (Database.returns (client 1 (some []))) (codes "news"))
    × (route dump (Database.returns (client 1 (some []))) [] (codes "/author/news")
        ≡ handle_author (Database.returns (client 1 (some []))) (codes "news"))
    × (member b'/' (codes "news") ≡ false
        → route dump (Database.returns (client 1 (some []))) [] (codes "/news")
          ≡ handle_post dump (Database.returns (client 1 (some []))) [] (codes "news"))
unfolding equal
route_lem_example = route_lem dump (Database.returns (client 1 (some []))) [] (codes "news")

handle_category-silent_example :
    (handle_category (Database.returns (client 1 (some []))) (codes "news") ≡ some ([], none))
    × (handle_author (Database.returns (client 1 (some []))) (codes "news") ≡ some ([], none))
handle_category-silent_example =
    handle_category-silent (client 1 (some [])) (codes "news") [] refl refl

abbrev post : Post
post = record {
  negative = false;
  id = 7;
  title = codes "News";
  excerpt = codes "New";
  content = codes "New<!--more--> things";
}

abbrev found : Found
found = record { negative = false; id = 7; content = codes "New things" }

handle_post_lem_example :
    handle_post dump
      (Database.returns (client 1 (some (row (found_row found) ∷ []))))
      []
      (codes "news")
    ≡ some (send_doc dump (content_type []) (found_doc [] found))
handle_post_lem_example =
    handle_post_lem dump (client 1 (some (row (found_row found) ∷ []))) [] (codes "news")
      (some (found ∷ [])) refl refl (omega arith, tt)
