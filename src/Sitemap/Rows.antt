-- ===== src/Sitemap/Rows.antt =====
-- How `sitemap_handler::handle` of src/server/sitemap_handler.cpp ends for a row that has its times and
-- numbers.
use fcgi_cpp_appserver.Common.{
  ℕ, ◌<◌, Bool, true, false, Option, none, some, ◌++◌, lt→ltb, length, set, inl, inr, Bool-cases,
}
use fcgi_cpp_appserver.Common.Bytes.{Bytes, codes, equal, substr}
use fcgi_cpp_appserver.Database.{Stmt, Row, as_string}
use fcgi_cpp_appserver.Exception.{logic_error}
use fcgi_cpp_appserver.Handling.{Run, returns, throws, ◌>>=◌, lift, to_unsigned}
use fcgi_cpp_appserver.Handling.Ends.{Ends, bind-Ends, lift-Ends}
use fcgi_cpp_appserver.Handling.Values.{IsTime, IsNumber, as_string-IsTime, as_int-IsNumber}
use fcgi_cpp_appserver.Sitemap.Urls.{
  is_guts, mark_time, modified_at, add_page, cut, post_url, add_post, add_author, add_category,
  add_front,
}
use fcgi_cpp_appserver.Sitemap.Paging.{add_category_pages_lem, add_front_pages_lem}
use fcgi_cpp_appserver.Xml.{Doc}

-- A text that `mark_time` may write to.
abbrev IsLong : Bytes → Type 0
IsLong dt = 10 < length dt

-- The rows of pages and posts.
abbrev pub HasTimes : Row → Type 0
HasTimes r = IsTime r 1 × IsTime r 2

module _ {ℓ} {A : Type ℓ} (f : Bytes → Run A) where
  any_text :
      (stmt : Stmt) (colno : ℕ)
      → ((text : Bytes) → Ends (f text))
      → Ends (lift (as_string stmt colno) >>= f)
  any_text stmt colno k =
      bind-Ends (lift (as_string stmt colno)) f (lift-Ends (as_string stmt colno))
        (λ text e. k text)

  time_text :
      (stmt : Stmt) (colno : ℕ)
      → IsTime stmt.current colno
      → ((dt : Bytes) → IsLong dt → Ends (f dt))
      → Ends (lift (as_string stmt colno) >>= f)
  time_text stmt colno t k =
      let (text, e, long) = as_string-IsTime stmt colno t in rw e (k text long)

  marked : (dt : Bytes) → IsLong dt → ((text : Bytes) → Ends (f text)) → Ends (mark_time dt >>= f)
  unfolding mark_time
  marked dt h k = rw (lt→ltb 10 (length dt) h) (k (set dt 10 b'T' ++ codes "+00:00"))

  chosen :
      (stmt : Stmt) (zero : Bool) (first : Bytes)
      → HasTimes stmt.current
      → ((dt : Bytes) → IsLong dt → Ends (f dt))
      → IsLong first
      → Ends (elim zero [ true ↦ lift (as_string stmt 2) | false ↦ returns first ] >>= f)
  chosen stmt true first h k long = time_text stmt 2 h.1 k
  chosen stmt false first h k long = k first long

  modified :
      (stmt : Stmt)
      → HasTimes stmt.current
      → ((dt : Bytes) → IsLong dt → Ends (f dt))
      → Ends (modified_at stmt >>= f)
  unfolding modified_at
  modified stmt h k =
      let (first, e, long) = as_string-IsTime stmt 1 h.0 in
      rw e (chosen stmt (equal first (codes "0000-00-00 00:00:00")) first h k long)

pub add_page-Ends :
    (base_url : Bytes) (stmt : Stmt) (doc : Doc)
    → HasTimes stmt.current
    → Ends (add_page base_url stmt doc)
unfolding add_page
add_page-Ends base_url stmt doc h =
    modified _ stmt h (λ dt long. any_text _ stmt 0 (λ name. marked _ dt long (λ text. tt)))

cut_of-Ends :
    (o : Option Bytes)
    → Ends
        (elim o [ none ↦ throws (logic_error (codes "basic_string::substr")) | some t ↦ returns t ])
cut_of-Ends none = tt
cut_of-Ends (some t) = tt

cut-Ends : (s : Bytes) (pos n : ℕ) → Ends (cut s pos n)
cut-Ends s pos n = cut_of-Ends (substr s pos n)

post_url-Ends : (hostname base_url dt name : Bytes) → Ends (post_url hostname base_url dt name)
unfolding post_url
post_url-Ends hostname base_url dt name = elim (Bool-cases (is_guts hostname)) [
  | inr other ↦ rw (Ends, other) tt
  | inl guts ↦
      rw (Ends, guts)
        (bind-Ends _ _ (cut-Ends dt 0 4)
          (λ year e. bind-Ends _ _ (cut-Ends dt 5 2) (λ month e'. tt)))
]

pub add_post-Ends :
    (hostname base_url : Bytes) (stmt : Stmt) (doc : Doc)
    → HasTimes stmt.current
    → Ends (add_post hostname base_url stmt doc)
unfolding add_post
add_post-Ends hostname base_url stmt doc h = any_text _ stmt 2 (λ dt.
    modified _ stmt h (λ modified_dt long. any_text _ stmt 0 (λ name.
      bind-Ends _ _ (post_url-Ends hostname base_url dt name)
        (λ url e. marked _ modified_dt long (λ text. tt)))))

pub add_author-Ends :
    (base_url : Bytes) (stmt : Stmt) (doc : Doc)
    → IsTime stmt.current 1
    → Ends (add_author base_url stmt doc)
unfolding add_author
add_author-Ends base_url stmt doc h =
    time_text _ stmt 1 h (λ dt long. any_text _ stmt 0 (λ name. marked _ dt long (λ text. tt)))

-- The rows of categories, and that of the front page.
abbrev pub HasCount : ℕ → ℕ → Row → Type 0
HasCount dated counted r =
    IsTime r dated × ((negative : Bool) × (n : ℕ) × IsNumber r counted negative n)

pub add_category-Ends :
    (taxonomy base_url : Bytes) (per_page : ℕ) (stmt : Stmt) (doc : Doc)
    → 0 < per_page
    → HasCount 1 2 stmt.current
    → Ends (add_category taxonomy base_url per_page stmt doc)
unfolding add_category
add_category-Ends taxonomy base_url per_page stmt doc p (t, (negative, n, number)) =
    time_text _ stmt 1 t (λ dt long. rw (as_int-IsNumber stmt 2 negative n number) (
      any_text _ stmt 0 (λ slug.
        marked _ dt long (λ text.
          rw (add_category_pages_lem _ text per_page (to_unsigned (negative, n)) _ p) tt))))

pub add_front-Ends :
    (hostname base_url : Bytes) (per_page : ℕ) (stmt : Stmt) (doc : Doc)
    → 0 < per_page
    → HasCount 0 1 stmt.current
    → Ends (add_front hostname base_url per_page stmt doc)
unfolding add_front
add_front-Ends hostname base_url per_page stmt doc p (t, (negative, n, number)) =
    time_text _ stmt 0 t (λ dt long. rw (as_int-IsNumber stmt 1 negative n number) (
      marked _ dt long (λ text.
        rw (add_front_pages_lem hostname _ text per_page (to_unsigned (negative, n)) _ p) tt)))
