-- ===== src/Blog/Pages.antt =====
-- Which of its pages `wp_handler::handle` of src/server/wp_handler.cpp answers with, and what the pages of
-- a category and of an author ask the database for.
use fcgi_cpp_appserver.Common.{
  ℕ, Bool, true, false, ◌≡◌, refl, sym, ◌∙◌, ◌↔◌, inl, inr, ◌||◌, Option, none, some, List, [], ◌∷◌,
  ◌++◌, if◌then◌else◌, drop, map, arith, Bool-cases,
}
use fcgi_cpp_appserver.Common.Bytes.{Bytes, codes, equal, find, find_zero, is_prefix, member}
use fcgi_cpp_appserver.Common.Dict.{Dict}
use fcgi_cpp_appserver.Database
use fcgi_cpp_appserver.Database.{
  Client, Result, Row, row, Stmt, Fetched, no_row, fetch, fetch_from, prepare, execute, bind_string,
  bind,
}
use fcgi_cpp_appserver.Database.Binding.{prepare_counted, execute_rows}
use fcgi_cpp_appserver.Handling.{run_stmt, returns, ◌>>=◌, lift, answer_with}
use fcgi_cpp_appserver.Blog.{
  is_zero, Dump, starts, route, handle_blogroll, handle_category, handle_author, handle_post,
  name_query,
}

is_zero_iff : (o : Option ℕ) → (is_zero o ≡ true) ↔ (o ≡ some 0)
is_zero_iff none = ground arith
is_zero_iff (some i) = ground arith

pub starts-prefix : (s w : Bytes) → starts s w ≡ is_prefix w s
starts-prefix s w = elim (Bool-cases (is_prefix w s)) [
  | inl y ↦ rw (y, (find_zero s w).1 y) refl
  | inr n ↦ elim (Bool-cases (starts s w)) [
    | inl e ↦ absurd (ground (arith, find_zero s w, is_zero_iff (find s w)))
    | inr e ↦ rw (n, e) refl
  ]
]

is_prefix-no_slash :
    (w s : Bytes) → member b'/' w ≡ true → member b'/' s ≡ false → is_prefix w s ≡ false
unfolding is_prefix
is_prefix-no_slash [] s h k = ground arith
is_prefix-no_slash (x ∷ w) [] h k = refl
is_prefix-no_slash (x ∷ w) (y ∷ s) h k = ground (arith, is_prefix-no_slash w s)

module _ (dump : Dump) (pool : Result Client) (params : Dict Bytes) where
  route_by :
      (s : Bytes) (b c a : Bool)
      → (equal s (codes "/") || equal s []) ≡ b
      → is_prefix (codes "/category/") s ≡ c
      → is_prefix (codes "/author/") s ≡ a
      → route dump pool params s ≡ (
          if b
          then handle_blogroll dump pool params
          else if c
          then handle_category pool (drop 10 s)
          else if a
          then handle_author pool (drop 8 s)
          else handle_post dump pool params (drop 1 s))
  unfolding route
  route_by s b c a hb hc ha =
      rw
        (
          sym hb,
          sym hc,
          sym ha,
          sym (starts-prefix s (codes "/category/")),
          sym (starts-prefix s (codes "/author/")),
        )
        refl

  other_page :
      (name : Bytes)
      → member b'/' name ≡ false
      → route dump pool params (b'/' ∷ name) ≡ (
          if equal name []
          then handle_blogroll dump pool params
          else handle_post dump pool params name)
  unfolding equal is_prefix
  other_page [] h = route_by (codes "/") true false false refl refl refl
  other_page (x ∷ name) h =
      route_by (b'/' ∷ x ∷ name) false false false refl
        (is_prefix-no_slash (codes "category/") (x ∷ name) refl h)
        (is_prefix-no_slash (codes "author/") (x ∷ name) refl h)

  -- A name behind "/category/" is answered by that category's page, a name behind "/author/" by that
  -- author's, and a name with no slash behind "/" by the post of that name, or by the list of posts where
  -- the name is empty.
  pub route_lem :
      (name : Bytes)
      → (route dump pool params (codes "/category/" ++ name) ≡ handle_category pool name)
        × (route dump pool params (codes "/author/" ++ name) ≡ handle_author pool name)
        × (member b'/' name ≡ false
            → route dump pool params (b'/' ∷ name) ≡ (
                if equal name []
                then handle_blogroll dump pool params
                else handle_post dump pool params name))
  unfolding equal is_prefix
  route_lem name = (
    route_by (codes "/category/" ++ name) false true false refl refl refl,
    route_by (codes "/author/" ++ name) false false true refl refl refl,
    other_page name,
  )

fetched_silent :
    (rows : List Row) (s : Stmt)
    → answer_with (lift (fetch_from (map row rows) s) >>= λ fetched. returns ([], none))
      ≡ some ([], none)
unfolding fetch_from answer_with
fetched_silent [] s = refl
fetched_silent (r ∷ rows) s = refl

handle_author-handle_category :
    (pool : Result Client) (name : Bytes) → handle_author pool name ≡ handle_category pool name
unfolding handle_author handle_category
handle_author-handle_category pool name = refl

category_silent :
    (client : Client) (name : Bytes) (rows : List Row)
    → client.prepare name_query ≡ some 1
    → client.run name_query (none ∷ []) ≡ some (map row rows)
    → handle_category (Database.returns client) name ≡ some ([], none)
unfolding handle_category run_stmt bind fetch
category_silent client name rows h k =
    let s : Stmt = record { text = name_query; params = none ∷ []; left = []; current = no_row } in
    rw (prepare_counted client name_query 1 h, execute_rows client s (map row rows) k)
      (fetched_silent rows (record s { left = map row rows }))

-- The pages of a category and of an author ask for the posts with a name, and the name is bound behind
-- the one parameter that the statement has. So the client is asked with no parameter bound; and where it
-- gives rows, or no row, the request is answered with no byte at all.
pub handle_category-silent :
    (client : Client) (name : Bytes) (rows : List Row)
    → client.prepare name_query ≡ some 1
    → client.run name_query (none ∷ []) ≡ some (map row rows)
    → (handle_category (Database.returns client) name ≡ some ([], none))
      × (handle_author (Database.returns client) name ≡ some ([], none))
handle_category-silent client name rows h k =
    let silent = category_silent client name rows h k in
    (silent, handle_author-handle_category (Database.returns client) name ∙ silent)
