-- ===== src/Json.antt =====
-- `JSONObject`, `JSONArray` and their printer, of src/server/json.h and src/server/json.cpp. A `double`
-- is of a type that is an argument, with what the stream writes for it. The destructors only free.
pub mod Strings
pub mod Keys
pub mod Reader
pub mod View
pub mod Steps
pub mod Text
pub mod Memory
pub mod Owned
use fcgi_cpp_appserver.Common.{ℕ, Bool, true, false, ◌||◌, List, [], ◌∷◌, ◌++◌, ◌==◌, if◌then◌else◌}
use fcgi_cpp_appserver.Common.Bytes.{Bytes, codes, equal, less}
use fcgi_cpp_appserver.Common.Decimal.{show}

module _ (Double : Type 0) where
  mutual
    -- `JSONValue`; an `int` is its sign and its magnitude.
    pub data Value : Type 0 where
      object : Items → Value
      array : Elements → Value
      string : Bytes → Value
      integer : Bool → ℕ → Value
      float : Double → Value

    -- The map of an object.
    pub data Items : Type 0 where
      no_items : Items
      item : Bytes → Value → Items → Items

    -- The vector of an array.
    pub data Elements : Type 0 where
      no_elements : Elements
      element : Value → Elements → Elements

-- `m_items.insert(std::make_pair(key, value))`: a key that is there keeps its value.
unfoldable pub add_item : {Double : Type 0} → Bytes → Value Double → Items Double → Items Double
add_item key value no_items = item key value no_items
add_item key value (item k v m) =
    if equal k key
    then item k v m
    else if less key k
    then item key value (item k v m)
    else item k v (add_item key value m)

-- `m_items.push_back(value)`.
unfoldable pub add_element : {Double : Type 0} → Value Double → Elements Double → Elements Double
add_element value no_elements = element value no_elements
add_element value (element v vs) = element v (add_element value vs)

-- What is written for a character.
unfoldable pub escape : ℕ → Bytes
escape c =
    if c == b'"' || c == b'\\' || c == b'/'
    then b'\\' ∷ c ∷ []
    else if c == 8
    then codes "\\b"
    else if c == 12
    then codes "\\f"
    else if c == b'\n'
    then codes "\\n"
    else if c == b'\r'
    then codes "\\r"
    else if c == b'\t'
    then codes "\\t"
    else c ∷ []

unfoldable pub escape_all : Bytes → Bytes
escape_all [] = []
escape_all (c ∷ s) = escape c ++ escape_all s

unfoldable pub serialize_string : Bytes → Bytes
serialize_string s = b'"' ∷ (escape_all s ++ b'"' ∷ [])

abbrev pub comma : Bool → Bytes
comma first = if first then [] else b',' ∷ []

abbrev show_int : Bool → ℕ → Bytes
show_int negative n = if negative then b'-' ∷ show n else show n

-- The output operators.
module _ {Double : Type 0} (show_double : Double → Bytes) where
  unfoldable mutual
    pub serialize : Value Double → Bytes
    serialize (object m) = b'{' ∷ (serialize_items true m ++ b'}' ∷ [])
    serialize (array vs) = b'[' ∷ (serialize_elements true vs ++ b']' ∷ [])
    serialize (string s) = serialize_string s
    serialize (integer negative n) = show_int negative n
    serialize (float d) = show_double d

    pub serialize_items : Bool → Items Double → Bytes
    serialize_items first no_items = []
    serialize_items first (item k v m) =
        comma first ++ (serialize_string k ++ (b':' ∷ (serialize v ++ serialize_items false m)))

    pub serialize_elements : Bool → Elements Double → Bytes
    serialize_elements first no_elements = []
    serialize_elements first (element v vs) =
        comma first ++ (serialize v ++ serialize_elements false vs)
