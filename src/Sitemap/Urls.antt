-- ===== src/Sitemap/Urls.antt =====
-- What `sitemap_handler::handle` of src/server/sitemap_handler.cpp adds to its document for a row of each
-- of its statements, with the loops over the pages of a list.
use fcgi_cpp_appserver.Common.{
  ℕ, zero, suc, ◌+◌, ◌-◌, ◌%◌, Bool, true, false, not, ◌&&◌, none, some, [], ◌∷◌, ◌++◌, ltb, ◌==◌,
  if◌then◌else◌, length, set,
}
use fcgi_cpp_appserver.Common.Bytes.{Bytes, codes, equal, substr}
use fcgi_cpp_appserver.Common.Decimal.{show}
use fcgi_cpp_appserver.Database.{Stmt, as_string}
use fcgi_cpp_appserver.Exception.{logic_error}
use fcgi_cpp_appserver.Handling.{
  Run, returns, throws, undefined, out_of_fuel, ◌>>=◌, lift, to_unsigned, as_int,
}
use fcgi_cpp_appserver.Xml.{Doc, new_node, add, add_text, add_root}

-- `hostname == "www.nginxguts.com"`.
abbrev pub is_guts : Bytes → Bool
is_guts hostname = equal hostname (codes "www.nginxguts.com")

-- `add_url`; the priority is 1.0 in every call, which the stream writes as "1".
unfoldable pub add_url : Doc → Bytes → Bytes → Bytes → Doc
add_url doc loc lastmod changefreq =
    let url = add (new_node (codes "url")) (add_text (new_node (codes "loc")) loc) in
    let url = add url (add_text (new_node (codes "lastmod")) lastmod) in
    let url = add url (add_text (new_node (codes "changefreq")) changefreq) in
    add_root doc (add url (add_text (new_node (codes "priority")) (codes "1")))

-- `modified_dt[10] = 'T'`: a write behind the text is undefined. And `modified_dt + "+00:00"`.
unfoldable pub mark_time : Bytes → Run Bytes
mark_time dt = if ltb 10 (length dt) then returns (set dt 10 b'T' ++ codes "+00:00") else undefined

-- `stmt.asString(1) != "0000-00-00 00:00:00" ? stmt.asString(1) : stmt.asString(2)`.
unfoldable pub modified_at : Stmt → Run Bytes
modified_at stmt = do
  modified ← lift (as_string stmt 1)
  elim (equal modified (codes "0000-00-00 00:00:00")) [
    | true ↦ lift (as_string stmt 2)
    | false ↦ returns modified
  ]

-- The bodies of the loops over pages, posts and authors.
unfoldable pub add_page : Bytes → Stmt → Doc → Run Doc
unfolding modified_at mark_time
add_page base_url stmt doc = do
  modified ← modified_at stmt
  name ← lift (as_string stmt 0)
  lastmod ← mark_time modified
  returns (add_url doc (base_url ++ b'/' ∷ (name ++ b'/' ∷ [])) lastmod (codes "weekly"))

-- `none` of `substr` is `std::out_of_range`.
abbrev pub cut : Bytes → ℕ → ℕ → Run Bytes
cut s pos n = elim (substr s pos n) [
  | none ↦ throws (logic_error (codes "basic_string::substr"))
  | some t ↦ returns t
]

unfoldable pub post_url : Bytes → Bytes → Bytes → Bytes → Run Bytes
post_url hostname base_url dt name =
    if not (is_guts hostname)
    then returns (base_url ++ (codes "/wedding-cakes/" ++ (name ++ b'/' ∷ [])))
    else (do
      year ← cut dt 0 4
      month ← cut dt 5 2
      returns (base_url ++ b'/' ∷ (year ++ b'/' ∷ (month ++ b'/' ∷ (name ++ b'/' ∷ [])))))

unfoldable pub add_post : Bytes → Bytes → Stmt → Doc → Run Doc
unfolding modified_at mark_time post_url
add_post hostname base_url stmt doc = do
  dt ← lift (as_string stmt 2)
  modified ← modified_at stmt
  name ← lift (as_string stmt 0)
  url ← post_url hostname base_url dt name
  lastmod ← mark_time modified
  returns
      (add_url doc url lastmod (if not (is_guts hostname) then codes "weekly" else codes "monthly"))

unfoldable pub add_author : Bytes → Stmt → Doc → Run Doc
unfolding mark_time
add_author base_url stmt doc = do
  modified ← lift (as_string stmt 1)
  name ← lift (as_string stmt 0)
  lastmod ← mark_time modified
  returns
      (add_url doc (base_url ++ (codes "/author/" ++ (name ++ b'/' ∷ []))) lastmod (codes "daily"))

-- The URL of a page behind the first.
abbrev pub page_url : Bytes → ℕ → Bytes
page_url url page = url ++ (codes "page/" ++ (show (page + 1) ++ b'/' ∷ []))

-- The `do` loop for a category: `num_posts` posts are left, and `page` pages are written.
unfoldable pub category_pages : ℕ → Bytes → Bytes → ℕ → ℕ → ℕ → Doc → Run Doc
category_pages zero url lastmod per_page num_posts page doc = out_of_fuel
category_pages (suc fuel) url lastmod per_page num_posts page doc =
    let doc' = add_url doc (page_url url page) lastmod (codes "daily") in
    let left = if ltb per_page num_posts then num_posts - per_page else 0 in
    let rest = category_pages fuel url lastmod per_page left (page + 1) doc' in
    if left == 0 then returns doc' else rest

-- What stands before it. Each round takes a page's posts away.
unfoldable pub add_category_pages : Bytes → Bytes → ℕ → ℕ → Doc → Run Doc
unfolding category_pages
add_category_pages url lastmod per_page num_posts doc =
    if ltb per_page num_posts
    then category_pages (num_posts + 1) url lastmod per_page (num_posts - per_page) 1 doc
    else returns doc

abbrev pub category_path : Bytes → Bytes
category_path taxonomy =
    if equal taxonomy (codes "placecategory") then codes "weddingcakes" else taxonomy

unfoldable pub add_category : Bytes → Bytes → ℕ → Stmt → Doc → Run Doc
unfolding mark_time as_int add_category_pages
add_category taxonomy base_url per_page stmt doc = do
  modified ← lift (as_string stmt 1)
  num_posts ← as_int stmt 2
  slug ← lift (as_string stmt 0)
  let url = base_url ++ b'/' ∷ (category_path taxonomy ++ b'/' ∷ (slug ++ b'/' ∷ []))
  lastmod ← mark_time modified
  add_category_pages url lastmod per_page (to_unsigned num_posts)
      (add_url doc url lastmod (codes "daily"))

-- The `do` loop for the front page, with its own condition; a remainder by 0 is undefined.
unfoldable pub front_pages : ℕ → Bytes → Bytes → ℕ → ℕ → ℕ → Doc → Run Doc
front_pages zero url lastmod per_page num_posts page doc = out_of_fuel
front_pages (suc fuel) url lastmod per_page num_posts page doc =
    let doc' = add_url doc (page_url url page) lastmod (codes "daily") in
    let left = (num_posts + (18446744073709551616 - per_page)) % 4294967296 in
    let rest = front_pages fuel url lastmod per_page left (page + 1) doc' in
    if per_page == 0 then undefined else if left % per_page == per_page then rest else returns doc'

unfoldable pub add_front_pages : Bytes → Bytes → Bytes → ℕ → ℕ → Doc → Run Doc
unfolding front_pages
add_front_pages hostname url lastmod per_page num_posts doc =
    if is_guts hostname && ltb per_page num_posts
    then front_pages (num_posts + 1) url lastmod per_page (num_posts - per_page) 1 doc
    else returns doc

unfoldable pub add_front : Bytes → Bytes → ℕ → Stmt → Doc → Run Doc
unfolding mark_time as_int add_front_pages
add_front hostname base_url per_page stmt doc = do
  modified ← lift (as_string stmt 0)
  num_posts ← as_int stmt 1
  let url = base_url ++ b'/' ∷ []
  lastmod ← mark_time modified
  add_front_pages hostname url lastmod per_page (to_unsigned num_posts)
      (add_url doc url lastmod (codes "daily"))
