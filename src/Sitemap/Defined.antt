-- ===== src/Sitemap/Defined.antt =====
-- How `sitemap_handler::handle` of src/server/sitemap_handler.cpp ends, from its statements on.
use fcgi_cpp_appserver.Common.{ℕ, ◌<◌, false}
use fcgi_cpp_appserver.Common.Bytes.{Bytes}
use fcgi_cpp_appserver.Database
use fcgi_cpp_appserver.Database.{Client, Row}
use fcgi_cpp_appserver.Exception.{Exception}
use fcgi_cpp_appserver.Handling.Ends.{Ends, Answers}
use fcgi_cpp_appserver.Handling.Values.{IsTime, IsNumber}
use fcgi_cpp_appserver.Sitemap.{
  per_page_query, page_query, post_query, category_query, author_query, front_query,
}
use fcgi_cpp_appserver.Sitemap.Rows.{HasTimes, HasCount}

-- The number of posts to a page.
abbrev pub IsPerPage : Row → Type 0
IsPerPage r = ((n : ℕ) × (0 < n) × IsNumber r 0 false n)

-- What the tables of the blog give: times where the handler takes a time, numbers where it takes one,
-- and a number of posts to a page above 0.
pub record IsBlog (client : Client) : Type 0 where
  pub per_page : Answers client IsPerPage per_page_query
  pub pages : Answers client HasTimes page_query
  pub posts : Answers client HasTimes post_query
  pub categories : Answers client (HasCount 1 2) category_query
  pub authors : Answers client (λ r. IsTime r 1) author_query
  pub front : Answers client (HasCount 0 1) front_query
