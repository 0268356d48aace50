-- ===== src/Sitemap/Paging.antt =====
-- The pages of a list, as `sitemap_handler::handle` of src/server/sitemap_handler.cpp counts them.
use fcgi_cpp_appserver.Common.{
  ℕ, zero, suc, ◌+◌, ◌*◌, ◌-◌, ◌/◌, ◌∙◌, ◌%◌, ◌<◌, ◌≤◌, true, ◌&&◌, ◌≡◌, refl, inl, inr,
  if◌then◌else◌, ltb, arith, Bool-cases, lt→ltb,
}
use native.Mathlib.Nat.{mod-lt}
use fcgi_cpp_appserver.Common.Bytes.{Bytes, codes}
use fcgi_cpp_appserver.Handling.{returns, out_of_fuel}
use fcgi_cpp_appserver.Sitemap.Urls.{
  is_guts, add_url, page_url, category_pages, add_category_pages, front_pages, add_front_pages,
}
use fcgi_cpp_appserver.Xml.{Doc}

-- The pages from `page + 1` on, `count` of them.
unfoldable pub numbered : Bytes → Bytes → ℕ → ℕ → Doc → Doc
numbered url lastmod zero page doc = doc
numbered url lastmod (suc count) page doc =
    numbered url lastmod count (page + 1) (add_url doc (page_url url page) lastmod (codes "daily"))

step :
    (fuel : ℕ) (url lastmod : Bytes) (per_page n page : ℕ) (doc : Doc)
    → per_page < n
    → category_pages (suc fuel) url lastmod per_page n page doc
      ≡ category_pages fuel url lastmod per_page
          (n - per_page)
          (page + 1)
          (add_url doc (page_url url page) lastmod (codes "daily"))
unfolding category_pages
step fuel url lastmod per_page n page doc h = ground arith

last :
    (fuel : ℕ) (url lastmod : Bytes) (per_page n page : ℕ) (doc : Doc)
    → n ≤ per_page
    → category_pages (suc fuel) url lastmod per_page n page doc
      ≡ returns (add_url doc (page_url url page) lastmod (codes "daily"))
unfolding category_pages
last fuel url lastmod per_page n page doc h = ground arith

category_pages_lem :
    (count fuel : ℕ) (url lastmod : Bytes) (per_page n page : ℕ) (doc : Doc)
    → count * per_page < n
    → n ≤ count * per_page + per_page
    → 0 < per_page
    → n < fuel
    → category_pages fuel url lastmod per_page n page doc
      ≡ returns (numbered url lastmod (suc count) page doc)
unfolding category_pages numbered
category_pages_lem count zero url lastmod per_page n page doc l u p f = absurd (omega arith)
category_pages_lem zero (suc fuel) url lastmod per_page n page doc l u p f =
    last fuel url lastmod per_page n page doc (omega arith)
category_pages_lem (suc count) (suc fuel) url lastmod per_page n page doc l u p f =
    step fuel url lastmod per_page n page doc (omega arith)
    ∙ category_pages_lem count fuel url lastmod per_page (n - per_page) (page + 1)
        (add_url doc (page_url url page) lastmod (codes "daily")) (omega arith) (omega arith) p
        (omega arith)

pages_of :
    (k : ℕ) (url lastmod : Bytes) (per_page n : ℕ) (doc : Doc)
    → 0 < per_page
    → k * per_page ≤ n - 1
    → n - 1 < k * per_page + per_page
    → add_category_pages url lastmod per_page n doc ≡ returns (numbered url lastmod k 1 doc)
unfolding add_category_pages numbered
pages_of zero url lastmod per_page n doc p l u = ground arith
pages_of (suc k) url lastmod per_page n doc p l u =
    let e : ltb per_page n ≡ true = lt→ltb per_page n (omega arith) in
    rw e (
      category_pages_lem k (n + 1) url lastmod per_page (n - per_page) 1 doc (omega arith)
        (omega arith) p (omega arith))

-- Where a page has room for posts, a category's loop comes to its end, and what it adds are the pages
-- from the second on that `num_posts` posts fill, the last of them perhaps in part, in their order, and
-- none that is empty: `(num_posts - 1) / per_page` of them.
pub add_category_pages_lem :
    (url lastmod : Bytes) (per_page num_posts : ℕ) (doc : Doc)
    → 0 < per_page
    → add_category_pages url lastmod per_page num_posts doc
      ≡ returns (numbered url lastmod ((num_posts - 1) / per_page) 1 doc)
add_category_pages_lem url lastmod per_page num_posts doc p =
    pages_of ((num_posts - 1) / per_page) url lastmod per_page num_posts doc p (omega arith)
      (omega arith)

-- Where the blog has 0 posts to a page, and a category has posts left, the loop adds its pages for ever:
-- however many rounds it is given, it has not come to its end.
pub category_pages-empty :
    (fuel : ℕ) (url lastmod : Bytes) (num_posts page : ℕ) (doc : Doc)
    → 0 < num_posts
    → category_pages fuel url lastmod 0 num_posts page doc ≡ out_of_fuel
unfolding category_pages
category_pages-empty zero url lastmod num_posts page doc h = refl
category_pages-empty (suc fuel) url lastmod num_posts page doc h =
    step fuel url lastmod 0 num_posts page doc h
    ∙ category_pages-empty fuel url lastmod (num_posts - 0) (page + 1)
        (add_url doc (page_url url page) lastmod (codes "daily")) (omega arith)

pages_once :
    (fuel : ℕ) (url lastmod : Bytes) (per_page n page : ℕ) (doc : Doc)
    → 0 < per_page
    → 0 < fuel
    → front_pages fuel url lastmod per_page n page doc
      ≡ returns (add_url doc (page_url url page) lastmod (codes "daily"))
unfolding front_pages
pages_once zero url lastmod per_page n page doc p f = absurd (omega arith)
pages_once (suc fuel) url lastmod per_page n page doc p f =
    ground (arith, mod-lt ((n + (18446744073709551616 - per_page)) % 4294967296) p)

-- The front page's loop never goes round again: behind the front page of the blog with more posts than a
-- page holds it adds the second page and no other, where that number is not 0, and of another site none.
pub add_front_pages_lem :
    (hostname url lastmod : Bytes) (per_page num_posts : ℕ) (doc : Doc)
    → 0 < per_page
    → add_front_pages hostname url lastmod per_page num_posts doc
      ≡ returns
          (numbered url lastmod (if is_guts hostname && ltb per_page num_posts then 1 else 0) 1 doc)
unfolding add_front_pages front_pages numbered
add_front_pages_lem hostname url lastmod per_page num_posts doc p =
    elim (Bool-cases (is_guts hostname && ltb per_page num_posts)) [
      | inl y ↦ rw y (
          pages_once (num_posts + 1) url lastmod per_page (num_posts - per_page) 1 doc p
            (omega arith))
      | inr n ↦ rw n refl
    ]
