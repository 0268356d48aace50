-- ===== src/Xml.antt =====
-- `XMLNode`, `XMLText` and `XMLDoc` of src/server/xml.h, as the trees that libxml2 builds for them. The
-- names that a C string gives end at a NUL. Texts in a row, which libxml2 joins, are not made here.
use fcgi_cpp_appserver.Common.{ℕ, Bool, Option, none, some, List, [], ◌∷◌, ◌++◌, if◌then◌else◌}
use fcgi_cpp_appserver.Common.Bytes.{Bytes, c_str}
use fcgi_cpp_appserver.Common.Decimal.{show}

mutual
  pub data Node : Type 0 where
    element : Bytes → List (Bytes × Bytes) → Children → Node

  pub data Children : Type 0 where
    no_children : Children
    node : Node → Children → Children
    text : Bytes → Children → Children

-- `XMLNode(name)`.
abbrev pub new_node : Bytes → Node
new_node name = element (c_str name) [] no_children

unfoldable pub append_node : Node → Children → Children
append_node n no_children = node n no_children
append_node n (node m cs) = node m (append_node n cs)
append_node n (text s cs) = text s (append_node n cs)

unfoldable pub append_text : Bytes → Children → Children
append_text t no_children = text t no_children
append_text t (node m cs) = node m (append_text t cs)
append_text t (text s cs) = text s (append_text t cs)

-- `add` of a node that its `XMLNode` has released.
unfoldable pub add : Node → Node → Node
unfolding append_node
add (element name attrs cs) n = element name attrs (append_node n cs)

unfoldable pub add_text : Node → Bytes → Node
unfolding append_text
add_text (element name attrs cs) content = element name attrs (append_text content cs)

unfoldable pub set_attr : Node → Bytes → Bytes → Node
set_attr (element name attrs cs) key value =
    element name (attrs ++ (c_str key, c_str value) ∷ []) cs

unfoldable pub set_attr_int : Node → Bytes → Bool → ℕ → Node
set_attr_int n key negative value =
    set_attr n key (if negative then b'-' ∷ show value else show value)

-- `XMLDoc`: the processing instructions stand in front of the root.
pub record Doc : Type 0 where
  pub version : Bytes
  pub namespace : Option Bytes
  pub instructions : List (Bytes × Bytes)
  pub root : Node

abbrev pub new_doc : Bytes → Bytes → Doc
new_doc rootname version = record {
  version = c_str version;
  namespace = none;
  instructions = [];
  root = new_node rootname;
}

abbrev pub new_doc_ns : Bytes → Bytes → Bytes → Doc
new_doc_ns rootname rootns version = record (new_doc rootname version) {
  namespace = some (c_str rootns);
}

unfoldable pub add_root : Doc → Node → Doc
add_root doc n = record doc { root = add doc.root n }

unfoldable pub add_pi : Doc → Bytes → Bytes → Doc
add_pi doc name content = record doc {
  instructions = doc.instructions ++ (c_str name, c_str content) ∷ [];
}
