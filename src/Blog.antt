-- ===== src/Blog.antt =====
-- `wp_handler` of src/server/wp_handler.h and src/server/wp_handler.cpp. The pool is what `DBConnHolder`
-- makes of it: a client, or the exception of a connection that cannot be made.
pub mod Pages
pub mod Contents
pub mod Posts
pub mod Single
use fcgi_cpp_appserver.Common.{
  ℕ, ◌==◌, ◌||◌, Bool, true, false, not, Option, none, some, List, [], ◌∷◌, ◌++◌, if◌then◌else◌,
  take, drop,
}
use fcgi_cpp_appserver.Common.Bytes.{Bytes, codes, equal, find}
use fcgi_cpp_appserver.Common.Dict.{Dict}
use fcgi_cpp_appserver.Database.{Client, Result, Stmt, fetch, as_string, bind_string}
use fcgi_cpp_appserver.Exception.{Exception}
use fcgi_cpp_appserver.Handling.{
  Run, returns, ◌>>=◌, lift, each_row, run_stmt, as_int, return_error, send_doc, answer_with,
}
use fcgi_cpp_appserver.Query.{get_param}
use fcgi_cpp_appserver.Worker.{Env, get_fcgi_param}
use fcgi_cpp_appserver.Xml.{
  Doc, Node, new_node, new_doc, add, add_text, set_attr, set_attr_int, add_root, add_pi,
}

-- `_request.get_param("showxml") != "yes"`.
abbrev pub is_shown : Dict Bytes → Bool
is_shown params = not (equal (get_param params (codes "showxml")) (codes "yes"))

abbrev pub content_type : Dict Bytes → Bytes
content_type params = if is_shown params then codes "text/xml" else codes "application/xml"

-- The document, with its stylesheet.
unfoldable pub new_page : Dict Bytes → Doc
unfolding add_pi
new_page params =
    let doc = new_doc (codes "page") (codes "1.0") in
    if is_shown params
    then add_pi doc (codes "modxslt-stylesheet")
        (codes "type=\"text/xsl\" href=\"xsl/feedback.xsl\"")
    else doc

-- What a page is sent by: the document's text as libxml2 writes it, or none.
abbrev pub Dump : Type 0
Dump = Doc → Option Bytes

unfoldable pub return_success : Dump → Dict Bytes → Bool × ℕ → Bytes × Option Exception
unfolding new_page set_attr_int add_root send_doc
return_success dump params (negative, document_id) =
    let document = set_attr_int (new_node (codes "document")) (codes "id") negative document_id in
    send_doc dump (content_type params) (add_root (new_page params) document)

unfoldable pub handle_get : Dump → Dict Bytes → Bytes × Option Exception
unfolding new_page send_doc
handle_get dump params = send_doc dump (content_type params) (new_page params)

-- A post's content, up to the mark if it has one.
unfoldable pub content_of : Bytes → Node
unfolding find set_attr add_text
content_of content = elim (find content (codes "<!--more-->")) [
  | none ↦ add_text (new_node (codes "content")) content
  | some more_pos ↦
      add_text (set_attr (new_node (codes "content")) (codes "more") (codes "yes"))
        (take more_pos content)
]

-- The body of the loop over the posts.
unfoldable pub roll_post : Stmt → Node → Run Node
unfolding as_int set_attr_int add add_text content_of
roll_post stmt posts = do
  (negative, id) ← as_int stmt 0
  title ← lift (as_string stmt 1)
  excerpt ← lift (as_string stmt 2)
  content ← lift (as_string stmt 3)
  let post = set_attr_int (new_node (codes "post")) (codes "id") negative id
  let post = add post (add_text (new_node (codes "title")) title)
  let post = add post (add_text (new_node (codes "excerpt")) excerpt)
  returns (add posts (add post (content_of content)))

abbrev pub roll_query : Bytes
roll_query =
    codes
      "select id, post_title, post_excerpt, post_content from wp_posts where post_status='publish'  and post_type='post' order by post_date_gmt desc limit 10"

unfoldable pub handle_blogroll :
    Dump → Result Client → Dict Bytes → Option (Bytes × Option Exception)
unfolding run_stmt each_row roll_post new_page add_root send_doc answer_with
handle_blogroll dump pool params = answer_with (do
  client ← lift pool
  stmt ← run_stmt client roll_query (λ s. s)
  posts ← each_row roll_post stmt.left stmt (new_node (codes "posts"))
  returns (send_doc dump (content_type params) (add_root (new_page params) posts)))

abbrev pub name_query : Bytes
name_query = codes "select ID from wp_posts where post_status='publish' and post_name=?"

-- Nothing is written, whether there is a row or none.
unfoldable pub handle_category : Result Client → Bytes → Option (Bytes × Option Exception)
unfolding run_stmt fetch answer_with
handle_category pool name = answer_with (do
  client ← lift pool
  stmt ← run_stmt client name_query (λ s. bind_string s 1 name)
  fetched ← lift (fetch stmt)
  returns ([], none))

unfoldable pub handle_author : Result Client → Bytes → Option (Bytes × Option Exception)
unfolding run_stmt fetch answer_with
handle_author pool name = answer_with (do
  client ← lift pool
  stmt ← run_stmt client name_query (λ s. bind_string s 1 name)
  fetched ← lift (fetch stmt)
  returns ([], none))

unfoldable pub handle_404 : Bytes × Option Exception
unfolding return_error
handle_404 = (return_error (codes "page does not exist") 404, none)

abbrev pub post_query : Bytes
post_query =
    codes "select id, post_content from wp_posts where post_status='publish' and post_name=?"

unfoldable pub post_page : Dict Bytes → Stmt → Run Doc
unfolding as_int set_attr_int add_text new_page add_root
post_page params stmt = do
  (negative, id) ← as_int stmt 0
  content ← lift (as_string stmt 1)
  let post = set_attr_int (new_node (codes "post")) (codes "id") negative id
  returns (add_root (new_page params) (add_text post content))

-- With the call of `handle_404` that `handle` makes where `handle_post` returns `false`.
unfoldable pub handle_post :
    Dump → Result Client → Dict Bytes → Bytes → Option (Bytes × Option Exception)
unfolding run_stmt fetch post_page send_doc answer_with handle_404
handle_post dump pool params name = answer_with (do
  client ← lift pool
  stmt ← run_stmt client post_query (λ s. bind_string s 0 name)
  fetched ← lift (fetch stmt)
  elim fetched [
    | none ↦ returns handle_404
    | some s ↦ post_page params s >>= λ doc. returns (send_doc dump (content_type params) doc)
  ])

-- `script_name.find(prefix) == 0`.
abbrev pub is_zero : Option ℕ → Bool
is_zero none = false
is_zero (some i) = i == 0

abbrev pub starts : Bytes → Bytes → Bool
starts name prefix = is_zero (find name prefix)

unfoldable pub route : Dump → Result Client → Dict Bytes → Bytes → Option (Bytes × Option Exception)
unfolding find handle_blogroll handle_category handle_author handle_post
route dump pool params script_name =
    if equal script_name (codes "/") || equal script_name []
    then handle_blogroll dump pool params
    else if starts script_name (codes "/category/")
    then handle_category pool (drop 10 script_name)
    else if starts script_name (codes "/author/")
    then handle_author pool (drop 8 script_name)
    else handle_post dump pool params (drop 1 script_name)

unfoldable pub handle : Dump → Result Client → Env → Dict Bytes → Option (Bytes × Option Exception)
unfolding route get_fcgi_param
handle dump pool env params = route dump pool params (get_fcgi_param env (codes "SCRIPT_NAME"))
