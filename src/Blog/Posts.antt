-- ===== src/Blog/Posts.antt =====
-- The pages with posts of `wp_handler` of src/server/wp_handler.cpp, by the posts that the database gives.
use fcgi_cpp_appserver.Common.{ℕ, Bool, false, List, [], ◌∷◌}
use fcgi_cpp_appserver.Common.Bytes.{Bytes, codes}
use fcgi_cpp_appserver.Common.Dict.{Dict}
use fcgi_cpp_appserver.Database
use fcgi_cpp_appserver.Database.{Result, Row, Param, fetch, fetch_from, execute, bind_string, bind}
use fcgi_cpp_appserver.Database.Columns
use fcgi_cpp_appserver.Database.Columns.{show_signed}
use fcgi_cpp_appserver.Blog.Contents.{before, content_node}
use fcgi_cpp_appserver.Xml.{Node, element, Children, no_children, node, text}

pub record Post : Type 0 where
  pub negative : Bool
  pub id : ℕ
  pub title : Bytes
  pub excerpt : Bytes
  pub content : Bytes

abbrev pub row_of : Post → Row
row_of p = record {
  columns =
      Columns.long p.negative p.id
      ∷ Columns.string p.title
      ∷ Columns.string p.excerpt
      ∷ Columns.blob p.content
      ∷ [];
  nulls = false ∷ false ∷ false ∷ false ∷ [];
}

abbrev post_with : Post → Node → Node
post_with p content = element (codes "post") ((codes "id", show_signed p.negative p.id) ∷ []) (
    node (element (codes "title") [] (text p.title no_children))
      (node (element (codes "excerpt") [] (text p.excerpt no_children)) (node content no_children)))

abbrev pub post_node : Post → Node
post_node p = post_with p (content_node (before (codes "<!--more-->") p.content) p.content)

unfoldable pub nodes : List Post → Children
nodes [] = no_children
nodes (p ∷ ps) = node (post_node p) (nodes ps)

abbrev join : Children → Children → Children
join no_children ds = ds
join (node n cs) ds = node n (join cs ds)
join (text t cs) ds = text t (join cs ds)
