-- ===== src/Sitemap.antt =====
-- `sitemap_handler` of src/server/sitemap_handler.h and src/server/sitemap_handler.cpp. A pool is what
-- `DBConnHolder` makes of it: a client, or the exception of a connection that cannot be made.
pub mod Urls
pub mod Paging
pub mod Rows
pub mod Defined
use fcgi_cpp_appserver.Common.{
  ℕ, Bool, true, false, not, Option, none, some, List, [], ◌∷◌, ◌++◌, if◌then◌else◌,
}
use fcgi_cpp_appserver.Common.Bytes.{Bytes, codes, equal}
use fcgi_cpp_appserver.Common.Dict
use fcgi_cpp_appserver.Common.Dict.{Dict, lookup}
use fcgi_cpp_appserver.Database.{Client, Result, Stmt, fetch, as_string, bind_string}
use fcgi_cpp_appserver.Exception.{Exception}
use fcgi_cpp_appserver.Handling.{
  Run, returns, ◌>>=◌, lift, each_row, run_stmt, to_size, as_int, return_error, send_doc,
  answer_with,
}
use fcgi_cpp_appserver.Sitemap.Urls.{
  is_guts, add_page, add_post, add_category, add_author, add_front,
}
use fcgi_cpp_appserver.Worker.{Env, get_fcgi_param}
use fcgi_cpp_appserver.Xml.{Doc, new_doc_ns, add_pi}

-- `sites`, and `add_site`.
abbrev pub Sites : Type 0
Sites = Dict (Result Client)

unfoldable pub add_site : Sites → Bytes → Result Client → Sites
add_site sites hostname pool = Dict.insert hostname pool sites

abbrev pub home_query : Bytes
home_query = codes "select option_value from wp_options where option_name='home'"

abbrev pub per_page_query : Bytes
per_page_query = codes "select option_value from wp_options where option_name='posts_per_page'"

unfoldable pub get_base_url : Client → Run Bytes
unfolding run_stmt fetch
get_base_url client = do
  stmt ← run_stmt client home_query (λ s. s)
  fetched ← lift (fetch stmt)
  elim fetched [ none ↦ returns [] | some s ↦ lift (as_string s 0) ]

unfoldable pub get_num_posts_per_page : Client → Run ℕ
unfolding run_stmt fetch as_int
get_num_posts_per_page client = do
  stmt ← run_stmt client per_page_query (λ s. s)
  fetched ← lift (fetch stmt)
  elim fetched [ none ↦ returns 10 | some s ↦ as_int s 0 >>= λ i. returns (to_size i) ]

-- A loop over the rows of a statement, from the statement's preparation on.
unfoldable pub add_rows : Client → Bytes → (Stmt → Stmt) → (Stmt → Doc → Run Doc) → Doc → Run Doc
unfolding run_stmt each_row
add_rows client query binds body doc =
    run_stmt client query binds >>= λ stmt. each_row body stmt.left stmt doc

abbrev pub page_query : Bytes
page_query =
    codes
      "select post_name, post_modified_gmt, post_date_gmt from wp_posts where post_status='publish'  and post_type='page' order by post_date_gmt"

abbrev pub post_query : Bytes
post_query =
    codes
      "select post_name, post_modified_gmt, post_date_gmt from wp_posts where post_status='publish'  and post_type=? order by post_date_gmt"

abbrev pub category_query : Bytes
category_query =
    codes
      "select slug, max(p.post_modified_gmt), count(distinct p.ID) from wp_terms ts, wp_term_taxonomy tt, wp_term_relationships tr, wp_posts p where tt.taxonomy=? and tt.term_id=ts.term_id and tt.parent=0 and tt.count!=0 and  tt.term_taxonomy_id = tr.term_taxonomy_id and tr.object_id=p.ID and p.post_status='publish' group by slug"

abbrev pub author_query : Bytes
author_query =
    codes
      "select user_login, max(p.post_modified_gmt) from wp_posts p, wp_users u where p.post_author=u.ID  and p.post_status='publish' and p.post_type='post' group by user_login"

abbrev pub front_query : Bytes
front_query =
    codes
      "select max(post_modified_gmt), count(distinct ID) from wp_posts where post_status='publish' and post_type='post'"

-- The vectors `post_types` and `taxonomy_types`, and the loops over them.
abbrev pub post_types : Bytes → List Bytes
post_types hostname =
    codes "post" ∷ (if not (is_guts hostname) then codes "place" ∷ codes "event" ∷ [] else [])

abbrev pub taxonomy_types : Bytes → List Bytes
taxonomy_types hostname =
    codes "category" ∷ (if not (is_guts hostname) then codes "placecategory" ∷ [] else [])

unfoldable pub add_posts : Client → Bytes → Bytes → List Bytes → Doc → Run Doc
unfolding add_rows add_post
add_posts client hostname base_url [] doc = returns doc
add_posts client hostname base_url (i ∷ types) doc =
    add_rows client post_query (λ s. bind_string s 0 i) (add_post hostname base_url) doc >>= λ doc'.
    add_posts client hostname base_url types doc'

unfoldable pub add_categories : Client → Bytes → ℕ → List Bytes → Doc → Run Doc
unfolding add_rows add_category
add_categories client base_url per_page [] doc = returns doc
add_categories client base_url per_page (taxonomy ∷ types) doc =
    add_rows client category_query (λ s. bind_string s 0 taxonomy)
      (add_category taxonomy base_url per_page) doc
    >>= λ doc'. add_categories client base_url per_page types doc'

unfoldable pub new_map : Bytes → Doc
unfolding add_pi
new_map hostname =
    add_pi
      (new_doc_ns (codes "urlset") (codes "http://www.sitemaps.org/schemas/sitemap/0.9")
        (codes "1.0"))
      (codes "xml-stylesheet")
      (if is_guts hostname
        then codes "type=\"text/xsl\" href=\"wp-content/plugins/google-sitemap-plugin/sitemap.xsl\""
        else codes "type=\"text/xsl\" href=\"wp-content/uploads/sitemap.xsl\"")

-- The document, from the connection on.
unfoldable pub site_map : Bytes → Client → Run Doc
unfolding get_base_url get_num_posts_per_page new_map add_rows add_posts add_categories add_page
    add_author add_front
site_map hostname client = do
  base_url ← get_base_url client
  per_page ← get_num_posts_per_page client
  doc ← add_rows client page_query (λ s. s) (add_page base_url) (new_map hostname)
  doc ← add_posts client hostname base_url (post_types hostname) doc
  doc ← add_categories client base_url per_page (taxonomy_types hostname) doc
  doc ← elim (is_guts hostname) [
    | true ↦ add_rows client author_query (λ s. s) (add_author base_url) doc
    | false ↦ returns doc
  ]
  add_rows client front_query (λ s. s) (add_front hostname base_url per_page) doc

-- What the request is answered with and what is thrown; none where the call has no defined end.
unfoldable pub handle : (Doc → Option Bytes) → Sites → Env → Option (Bytes × Option Exception)
unfolding site_map get_fcgi_param lookup return_error send_doc answer_with
handle dump sites env =
    let hostname = get_fcgi_param env (codes "SERVER_NAME") in
    elim (lookup hostname sites) [
      | none ↦ some (return_error (codes "site not found: " ++ hostname) 200, none)
      | some pool ↦ answer_with (do
        client ← lift pool
        doc ← site_map hostname client
        returns (send_doc dump (codes "application/xml") doc))
    ]
