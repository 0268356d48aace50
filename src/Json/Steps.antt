-- ===== src/Json/Steps.antt =====
-- One call of the reader on each kind of text that src/server/json.cpp writes.
use fcgi_cpp_appserver.Common.{
  ℕ, suc, ◌≡◌, refl, ap, Bool, true, false, some, [], ◌∷◌, ◌++◌, append_assoc, arith,
}
use fcgi_cpp_appserver.Common.Bytes.{Bytes}
use fcgi_cpp_appserver.Json
use fcgi_cpp_appserver.Json.{
  comma, Value, Items, Elements, integer, float, no_items, item, no_elements, element, serialize,
  serialize_items, serialize_elements, serialize_string, escape_all,
}
use fcgi_cpp_appserver.Json.Reader.{
  Tree, Members, Trees, object, array, string, member, tree, read_value, read_members, read_trees,
  closes, ◌>>=◌,
}
use fcgi_cpp_appserver.Json.Reader.{no_members, no_trees, number}
use fcgi_cpp_appserver.Json.Strings.{are_plain, read_string-serialize_string}
use fcgi_cpp_appserver.Json.View.{IsNumeric, show_int, show_int-IsNumeric, stops, read_numeric}

closes-serialize_string : (k t : Bytes) → closes b'}' (serialize_string k ++ t) ≡ false
unfolding serialize_string
closes-serialize_string k t = refl

closes-numeric : (s t : Bytes) → IsNumeric s → closes b']' (s ++ t) ≡ false
closes-numeric [] t h = absurd (cc)
closes-numeric (c ∷ s) t h = ground arith

module _ {Double : Type 0} (show_double : Double → Bytes)
    (numeric : (d : Double) → IsNumeric (show_double d)) where
  closes-serialize :
      (v : Value Double) (t : Bytes) → closes b']' (serialize show_double v ++ t) ≡ false
  unfolding serialize serialize_string
  closes-serialize (Json.object m) t = refl
  closes-serialize (Json.array vs) t = refl
  closes-serialize (Json.string s) t = refl
  closes-serialize (integer negative n) t =
      closes-numeric (show_int negative n) t (show_int-IsNumeric negative n)
  closes-serialize (float d) t = closes-numeric (show_double d) t (numeric d)

  pub stops-items :
      (m : Items Double) (rest : Bytes)
      → stops (serialize_items show_double false m ++ b'}' ∷ rest) ≡ true
  unfolding serialize_items
  stops-items no_items rest = refl
  stops-items (item k v m) rest = refl

  pub stops-elements :
      (vs : Elements Double) (rest : Bytes)
      → stops (serialize_elements show_double false vs ++ b']' ∷ rest) ≡ true
  unfolding serialize_elements
  stops-elements no_elements rest = refl
  stops-elements (element v vs) rest = refl

  pub read_object :
      (f : ℕ) (m : Items Double) (ms : Members) (rest : Bytes)
      → read_members f true (serialize_items show_double true m ++ b'}' ∷ rest) ≡ some (ms, rest)
      → read_value (suc f) (serialize show_double (Json.object m) ++ rest) ≡ some (object ms, rest)
  unfolding read_value serialize
  read_object f m ms rest h =
      rw (append_assoc (serialize_items show_double true m) (b'}' ∷ []) rest, h) refl

  pub read_array :
      (f : ℕ) (vs : Elements Double) (ts : Trees) (rest : Bytes)
      → read_trees f true (serialize_elements show_double true vs ++ b']' ∷ rest) ≡ some (ts, rest)
      → read_value (suc f) (serialize show_double (Json.array vs) ++ rest) ≡ some (array ts, rest)
  unfolding read_value serialize
  read_array f vs ts rest h =
      rw (append_assoc (serialize_elements show_double true vs) (b']' ∷ []) rest, h) refl

  pub read_literal :
      (f : ℕ) (s rest : Bytes)
      → are_plain s ≡ true
      → read_value (suc f) (serialize show_double (Json.string s) ++ rest) ≡ some (string s, rest)
  unfolding read_value serialize serialize_string
  read_literal f s rest h =
      ap (λ o. o >>= λ (t, left). some (string t, left)) (read_string-serialize_string s rest h)

  pub read_member :
      (f : ℕ) (first : Bool) (k : Bytes) (v : Value Double) (m : Items Double) (t : Tree)
      (ms : Members) (rest : Bytes)
      → are_plain k ≡ true
      → read_value f
          (serialize show_double v ++ (serialize_items show_double false m ++ b'}' ∷ rest))
        ≡ some (t, serialize_items show_double false m ++ b'}' ∷ rest)
      → read_members f false (serialize_items show_double false m ++ b'}' ∷ rest) ≡ some (ms, rest)
      → read_members (suc f) first (serialize_items show_double first (item k v m) ++ b'}' ∷ rest)
        ≡ some (member k t ms, rest)
  unfolding read_members serialize_items
  read_member f true k v m t ms rest h hv hm =
      simp (append_assoc, closes-serialize_string, read_string-serialize_string, h, hv, hm)
  read_member f false k v m t ms rest h hv hm =
      simp (append_assoc, read_string-serialize_string, h, hv, hm)

  pub read_element :
      (f : ℕ) (first : Bool) (v : Value Double) (vs : Elements Double) (t : Tree) (ts : Trees)
      (rest : Bytes)
      → read_value f
          (serialize show_double v ++ (serialize_elements show_double false vs ++ b']' ∷ rest))
        ≡ some (t, serialize_elements show_double false vs ++ b']' ∷ rest)
      → read_trees f false (serialize_elements show_double false vs ++ b']' ∷ rest)
        ≡ some (ts, rest)
      → read_trees
          (suc f)
          first
          (serialize_elements show_double first (element v vs) ++ b']' ∷ rest)
        ≡ some (tree t ts, rest)
  unfolding read_trees serialize_elements
  read_element f true v vs t ts rest hv hs = simp (append_assoc, closes-serialize, hv, hs)
  read_element f false v vs t ts rest hv hs = simp (append_assoc, hv, hs)

  pub read_no_items :
      (f : ℕ) (first : Bool) (rest : Bytes)
      → read_members (suc f) first (serialize_items show_double first no_items ++ b'}' ∷ rest)
        ≡ some (no_members, rest)
  unfolding read_members serialize_items
  read_no_items f first rest = refl

  pub read_no_elements :
      (f : ℕ) (first : Bool) (rest : Bytes)
      → read_trees (suc f) first (serialize_elements show_double first no_elements ++ b']' ∷ rest)
        ≡ some (no_trees, rest)
  unfolding read_trees serialize_elements
  read_no_elements f first rest = refl

  pub serialize_integer :
      (negative : Bool) (n : ℕ) → serialize show_double (integer negative n) ≡ show_int negative n
  unfolding serialize
  serialize_integer negative n = refl

  pub serialize_float : (d : Double) → serialize show_double (float d) ≡ show_double d
  unfolding serialize
  serialize_float d = refl

  pub read_scalar :
      (f : ℕ) (v : Value Double) (s rest : Bytes)
      → serialize show_double v ≡ s
      → IsNumeric s
      → stops rest ≡ true
      → read_value (suc f) (serialize show_double v ++ rest) ≡ some (number s, rest)
  read_scalar f v s rest e h k = rw e (read_numeric f s rest h k)
