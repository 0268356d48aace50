-- ===== src/Blog/Single.antt =====
-- `wp_handler::handle_post` of src/server/wp_handler.cpp, by what the database answers.
use fcgi_cpp_appserver.Common.{ℕ, Bool, false, ◌≡◌, refl, Option, none, some, List, [], ◌∷◌, map}
use fcgi_cpp_appserver.Common.Bytes.{Bytes, codes, c_str}
use fcgi_cpp_appserver.Common.Dict.{All, Dict}
use fcgi_cpp_appserver.Database
use fcgi_cpp_appserver.Database.{
  Client, Row, row, Stmt, Fetched, no_row, fetch, fetch_from, prepare, execute, bind_string, bind,
  as_string, text_of,
}
use fcgi_cpp_appserver.Database.Binding.{prepare_counted, execute_rows, execute_fails}
use fcgi_cpp_appserver.Database.Columns
use fcgi_cpp_appserver.Database.Columns.{show_signed, column_to_string}
use fcgi_cpp_appserver.Database.Numbers.{IsInt, c_str-show_signed}
use fcgi_cpp_appserver.Exception.{Exception}
use fcgi_cpp_appserver.Handling.{returns, run_stmt, return_error, send_doc, answer_with}
use fcgi_cpp_appserver.Handling.Values.{as_int_lem}
use fcgi_cpp_appserver.Blog.{
  Dump, content_type, new_page, post_query, post_page, handle_post, handle_404,
}
use fcgi_cpp_appserver.Xml.{
  Doc, element, no_children, text, append_text, add_text, add_root, set_attr, set_attr_int,
}

pub record Found : Type 0 where
  pub negative : Bool
  pub id : ℕ
  pub content : Bytes

abbrev pub found_row : Found → Row
found_row p = record {
  columns = Columns.long p.negative p.id ∷ Columns.blob p.content ∷ [];
  nulls = false ∷ false ∷ [];
}

abbrev pub AreInts : Option (List Found) → Type 0
AreInts none = Unit
AreInts (some ps) = All (λ p. IsInt p.negative p.id) ps

abbrev pub rows_of : Option (List Found) → Option (List Fetched)
rows_of none = none
rows_of (some ps) = some (map row (map found_row ps))

abbrev pub found_doc : Dict Bytes → Found → Doc
found_doc params p = add_root (new_page params) (
    element (codes "post") ((codes "id", show_signed p.negative p.id) ∷ [])
      (text p.content no_children))

-- What a request for a post is answered with: the error, that there is no such page, or the first post.
abbrev pub answer_to : Dump → Client → Dict Bytes → Option (List Found) → Bytes × Option Exception
answer_to dump client params none = (return_error (c_str client.error) 200, none)
answer_to dump client params (some []) = (return_error (codes "page does not exist") 404, none)
answer_to dump client params (some (p ∷ ps)) =
    send_doc dump (content_type params) (found_doc params p)

post_page_lem :
    (params : Dict Bytes) (p : Found) (left : List Fetched) (s : Stmt)
    → IsInt p.negative p.id
    → post_page params (record s { left = left; current = found_row p })
      ≡ returns (found_doc params p)
unfolding post_page as_string text_of column_to_string c_str set_attr_int set_attr add_text
    append_text
post_page_lem params p left s h =
    rw
      (
        as_int_lem (record s { left = left; current = found_row p }) 0 p.negative p.id refl h,
        c_str-show_signed p.negative p.id,
      )
      refl

-- A request for a post, where the statement has its one parameter and the numbers fit an `int`: the
-- database is asked for the post by its name, and the answer is a page with the first post that it
-- gives, the status 404 where it gives none, and the error page with its message where it fails.
pub handle_post_lem :
    (dump : Dump) (client : Client) (params : Dict Bytes) (name : Bytes)
    (found : Option (List Found))
    → client.prepare post_query ≡ some 1
    → client.run post_query (some (Database.string name) ∷ []) ≡ rows_of found
    → AreInts found
    → handle_post dump (Database.returns client) params name
      ≡ some (answer_to dump client params found)
unfolding handle_post run_stmt answer_with bind fetch fetch_from handle_404
handle_post_lem dump client params name none h k all =
    let s : Stmt = record {
      text = post_query;
      params = some (Database.string name) ∷ [];
      left = [];
      current = no_row;
    } in
    rw (prepare_counted client post_query 1 h, execute_fails client s k) refl
handle_post_lem dump client params name (some []) h k all =
    let s : Stmt = record {
      text = post_query;
      params = some (Database.string name) ∷ [];
      left = [];
      current = no_row;
    } in
    rw (prepare_counted client post_query 1 h, execute_rows client s [] k) refl
handle_post_lem dump client params name (some (p ∷ ps)) h k all =
    let s : Stmt = record {
      text = post_query;
      params = some (Database.string name) ∷ [];
      left = [];
      current = no_row;
    } in
    rw
      (
        prepare_counted client post_query 1 h,
        execute_rows client s (map row (map found_row (p ∷ ps))) k,
        post_page_lem params p (map row (map found_row ps))
            (record s { left = map row (map found_row (p ∷ ps)) }) all.0,
      )
      refl
