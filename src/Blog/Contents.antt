-- ===== src/Blog/Contents.antt =====
-- The mark in a post's content, as `wp_handler::handle_blogroll` of src/server/wp_handler.cpp looks for
-- it.
use fcgi_cpp_appserver.Common.{
  ℕ, suc, ◌+◌, ◌≡◌, ◌⊎◌, refl, ap, ◌∙◌, Option, none, some, [], ◌∷◌, if◌then◌else◌, take, arith,
  Bool-cases, inl, inr,
}
use fcgi_cpp_appserver.Common.Bytes.{Bytes, codes, is_prefix, find, find_at, c_str}
use fcgi_cpp_appserver.Blog.{content_of}
use fcgi_cpp_appserver.Xml.{Node, element, text, no_children, append_text, add_text, set_attr}

-- The text in front of the first occurrence of a mark.
abbrev pub longer : ℕ → Option Bytes → Option Bytes
longer c none = none
longer c (some s) = some (c ∷ s)

unfoldable pub before : Bytes → Bytes → Option Bytes
before w [] = if is_prefix w [] then some [] else none
before w (c ∷ s) = if is_prefix w (c ∷ s) then some [] else longer c (before w s)

-- A content without the mark is written whole, one with the mark up to it, and says so.
abbrev pub content_node : Option Bytes → Bytes → Node
content_node none content = element (codes "content") [] (text content no_children)
content_node (some shown) content =
    element (codes "content") ((codes "more", codes "yes") ∷ []) (text shown no_children)

find_at-before :
    (i : ℕ) (w s : Bytes)
    → ((find_at i w s ≡ none) × (before w s ≡ none))
      ⊎ ((k : ℕ) × (find_at i w s ≡ some (i + k)) × (before w s ≡ some (take k s)))
unfolding find_at before
find_at-before i w [] = elim (Bool-cases (is_prefix w [])) [
  | inl here ↦ rw here (inr (0, ap some (omega arith), refl))
  | inr none_here ↦ rw none_here (inl (refl, refl))
]
find_at-before i w (c ∷ s) = elim (Bool-cases (is_prefix w (c ∷ s))) [
  | inl here ↦ rw here (inr (0, ap some (omega arith), refl))
  | inr none_here ↦ rw none_here (elim (find_at-before (i + 1) w s) [
    | inl (e, f) ↦ inl (e, ap (longer c) f)
    | inr (k, e, f) ↦ inr (suc k, e ∙ ap some (omega arith), ap (longer c) f)
  ])
]

pub content_of-before :
    (content : Bytes)
    → content_of content ≡ content_node (before (codes "<!--more-->") content) content
unfolding content_of find add_text append_text set_attr c_str
content_of-before content = elim (find_at-before 0 (codes "<!--more-->") content) [
  | inl (e, f) ↦ rw (content_of, find, e, f) refl
  | inr (k, e, f) ↦
      let at : find_at 0 (codes "<!--more-->") content ≡ some k = e ∙ ap some (omega arith) in
      rw (content_of, find, at, f) refl
]
