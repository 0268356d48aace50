-- ===== src/Json/Memory.antt =====
-- What `JSONObject` and `JSONArray`, of src/server/json.h and src/server/json.cpp, allocate and delete.
-- What a pointer points to has a number of its own, which only tells it apart from the rest.
use fcgi_cpp_appserver.Common.{
  ℕ, ◌+◌, Bool, false, Option, none, some, List, [], ◌∷◌, ◌++◌, ◌==◌, if◌then◌else◌,
}
use fcgi_cpp_appserver.Common.Bytes.{Bytes, equal, less}

mutual
  -- A `JSONValue`, with what it owns. `plain` is an `int` or a `double`.
  pub data Node : Type 0 where
    object : ℕ → Members → Node
    array : ℕ → Nodes → Node
    text : ℕ → Node
    plain : Node

  pub data Members : Type 0 where
    no_members : Members
    member : Bytes → Node → Members → Members

  pub data Nodes : Type 0 where
    no_nodes : Nodes
    node : Node → Nodes → Nodes

-- What `delete` frees: a destructor deletes what the values own, one after the other, and then what it
-- stands in is freed.
unfoldable mutual
  pub deleted : Node → List ℕ
  deleted (object id m) = deleted_members m ++ id ∷ []
  deleted (array id vs) = deleted_nodes vs ++ id ∷ []
  deleted (text id) = id ∷ []
  deleted plain = []

  pub deleted_members : Members → List ℕ
  deleted_members no_members = []
  deleted_members (member k v m) = deleted v ++ deleted_members m

  pub deleted_nodes : Nodes → List ℕ
  deleted_nodes no_nodes = []
  deleted_nodes (node v vs) = deleted v ++ deleted_nodes vs

-- `m_items.insert` and `m_items.push_back`.
unfoldable pub insert_member : Bytes → Node → Members → Members
insert_member key value no_members = member key value no_members
insert_member key value (member k v m) =
    if equal k key
    then member k v m
    else if less key k
    then member key value (member k v m)
    else member k v (insert_member key value m)

unfoldable pub push_node : Node → Nodes → Nodes
push_node value no_nodes = node value no_nodes
push_node value (node v vs) = node v (push_node value vs)

-- Whether `insert` puts it there.
unfoldable pub inserts : Bytes → Members → ℕ
inserts key no_members = 1
inserts key (member k v m) = if equal k key then 0 else if less key k then 1 else inserts key m

-- Where a call through a pointer puts a value: on an object with a key, on an array without one.
pub data Place : Type 0 where
  at_key : ℕ → Bytes → Place
  at_end : ℕ → Place

abbrev pub on_object : Place → ℕ → Option Bytes
on_object (at_key a key) id = if a == id then some key else none
on_object (at_end a) id = none

abbrev pub on_array : Place → ℕ → Bool
on_array (at_key a key) id = false
on_array (at_end a) id = a == id

abbrev pub put_in : Option Bytes → Node → Members → Members → Members
put_in none value m below = below
put_in (some key) value m below = insert_member key value m

abbrev pub puts_in : Option Bytes → Members → ℕ → ℕ
puts_in none m below = below
puts_in (some key) m below = inserts key m

-- The call, found in the tree that the pointer points into; and how often it puts the value there.
unfoldable mutual
  pub add : Place → Node → Node → Node
  add p value (object id m) = object id (put_in (on_object p id) value m (add_members p value m))
  add p value (array id vs) =
      array id (if on_array p id then push_node value vs else add_nodes p value vs)
  add p value (text id) = text id
  add p value plain = plain

  pub add_members : Place → Node → Members → Members
  add_members p value no_members = no_members
  add_members p value (member k v m) = member k (add p value v) (add_members p value m)

  pub add_nodes : Place → Node → Nodes → Nodes
  add_nodes p value no_nodes = no_nodes
  add_nodes p value (node v vs) = node (add p value v) (add_nodes p value vs)

unfoldable mutual
  pub adds : Place → Node → ℕ
  adds p (object id m) = puts_in (on_object p id) m (adds_members p m)
  adds p (array id vs) = if on_array p id then 1 else adds_nodes p vs
  adds p (text id) = 0
  adds p plain = 0

  pub adds_members : Place → Members → ℕ
  adds_members p no_members = 0
  adds_members p (member k v m) = adds p v + adds_members p m

  pub adds_nodes : Place → Nodes → ℕ
  adds_nodes p no_nodes = 0
  adds_nodes p (node v vs) = adds p v + adds_nodes p vs

-- A root that the caller owns; what has been allocated for it is the numbers from the first one on that are
-- below `next`; `lost` is what no value owns.
pub record Store : Type 0 where
  pub root : Node
  pub next : ℕ
  pub lost : List ℕ

-- `add_object`, `add_array`, and `add` of a string, give the new thing to a value, which owns it only if
-- it is put into the map.
pub data Kind : Type 0 where
  new_object new_array new_text : Kind

abbrev pub allocate : Kind → ℕ → Node
allocate new_object id = object id no_members
allocate new_array id = array id no_nodes
allocate new_text id = text id

unfoldable pub add_new : Kind → Place → Store → Store
unfolding add adds
add_new kind p s = record {
  root = add p (allocate kind s.next) s.root;
  next = s.next + 1;
  lost = if adds p s.root == 0 then s.next ∷ s.lost else s.lost;
}

-- `add` of a number.
unfoldable pub add_plain : Place → Store → Store
unfolding add
add_plain p s = record s { root = add p plain s.root }

-- `add` of an object, or of an array, that stands by itself: it is owned from then on, unless it is not put
-- into the map.
unfoldable pub add_built : Place → Store → Store → Store
unfolding add adds
add_built p t s = record {
  root = add p t.root s.root;
  next = t.next;
  lost = if adds p s.root == 0 then deleted t.root ++ (t.lost ++ s.lost) else t.lost ++ s.lost;
}

-- What comes of one object, or one array, whose number is the first, by calls on it and on what the calls
-- give, or add. What stands by itself is made by such calls too, and is added once; later calls may reach
-- into it. A call through a pointer to what is lost changes nothing that the root owns, and what it gives
-- or adds is lost too.
pub data Built : ℕ → Store → Type 0 where
  an_object :
      (first : ℕ)
      → Built first (record { root = object first no_members; next = first + 1; lost = [] })
  an_array :
      (first : ℕ)
      → Built first (record { root = array first no_nodes; next = first + 1; lost = [] })
  adds_new :
      {first : ℕ} {s : Store} (kind : Kind) (p : Place)
      → Built first s
      → Built first (add_new kind p s)
  adds_plain : {first : ℕ} {s : Store} (p : Place) → Built first s → Built first (add_plain p s)
  adds_built :
      {first : ℕ} {s t : Store} (p : Place)
      → Built first s
      → Built s.next t
      → Built first (add_built p t s)
