-- ===== src/Server.antt =====
-- `fcgi_server` of src/server/fcgi_server.cpp: the table of handlers and the choice of the handler for a
-- request. A `fcgi_handler*` is a number, or `none` where it is null.
pub mod Order
pub mod Dispatch
pub mod Invoke
pub mod Exact
pub mod Lifetime
use fcgi_cpp_appserver.Common.{
  ℕ, ◌+◌, ◌≡◌, Bool, true, false, not, ◌&&◌, Option, none, some, List, [], ◌∷◌, ◌++◌, ltb, ◌==◌,
  if◌then◌else◌, length,
}
use fcgi_cpp_appserver.Common.Bytes.{Bytes, codes, equal, less, find, substr}
use fcgi_cpp_appserver.Exception.{Exception, fcgi_exception, logic_error, http_not_found}

abbrev pub Handler : Type 0
Handler = Option ℕ

-- `std::multimap<std::string, fcgi_handler*>`: by key, entries of one key in the order of insertion.
abbrev pub LocationMap : Type 0
LocationMap = List (Bytes × Handler)

-- `m.insert(std::make_pair(uri, handler))`.
unfoldable pub insert : Bytes → Handler → LocationMap → LocationMap
insert k h [] = (k, h) ∷ []
insert k h ((j, g) ∷ m) = if less k j then (k, h) ∷ (j, g) ∷ m else (j, g) ∷ insert k h m

pub record Server : Type 0 where
  pub endpoint : Bytes
  pub locations_map : LocationMap
  pub exact_locations_map : LocationMap
  pub handlers : List ℕ

-- The constructor, where the accept mutex can be made.
unfoldable pub create : Bytes → Server
create endpoint = record {
  endpoint = endpoint;
  locations_map = [];
  exact_locations_map = [];
  handlers = [];
}

unfoldable pub add_handler : Server → Handler → Server
add_handler s handler = elim handler [
  | none ↦ s
  | some h ↦ record s { handlers = s.handlers ++ h ∷ [] }
]

-- `std::list::remove`.
unfoldable pub remove : ℕ → List ℕ → List ℕ
remove h [] = []
remove h (g ∷ gs) = if g == h then remove h gs else g ∷ remove h gs

unfoldable pub remove_handler : Server → Handler → Server
unfolding remove
remove_handler s handler = elim handler [
  | none ↦ s
  | some h ↦ record s { handlers = remove h s.handlers }
]

-- `_uri.find(key) == 0`.
unfoldable pub at_front : Bytes → Bytes → Bool
at_front uri key = elim (find uri key) [ none ↦ false | some i ↦ i == 0 ]

-- `none` is a thrown `std::out_of_range`. `sizeof("=")` is 2: it counts the NUL.
unfoldable pub add_handler_mapping : Server → Bytes → Handler → Option Server
add_handler_mapping s uri handler =
    if at_front uri (b'=' ∷ [])
    then (elim (substr uri 2 (length uri)) [
      | none ↦ none
      | some key ↦
          some (record s { exact_locations_map = insert key handler s.exact_locations_map })
    ])
    else some (record s { locations_map = insert uri handler s.locations_map })

-- It has no body.
unfoldable pub remove_handler_mapping : Server → Bytes → Handler → Server
remove_handler_mapping s uri handler = s

abbrev pub is_null : Handler → Bool
is_null none = true
is_null (some h) = false

-- The two loops of `invoke_handler`. Neither sets `matched_prefix`, which stays empty.
unfoldable pub exact_loop : Bytes → Handler → LocationMap → Handler
exact_loop uri fire [] = fire
exact_loop uri fire ((k, h) ∷ m) =
    exact_loop uri (if equal k uri && not (is_null h) && ltb 0 (length k) then h else fire) m

unfoldable pub prefix_loop : Bytes → Handler → LocationMap → Handler
prefix_loop uri fire [] = fire
prefix_loop uri fire ((k, h) ∷ m) =
    prefix_loop uri (if at_front uri k && not (is_null h) && ltb 0 (length k) then h else fire) m

pub data Choice : Type 0 where
  fires : ℕ → Choice
  refuses : Exception → Choice

-- `invoke_handler`, up to the call of `handle`.
unfoldable pub invoke_handler : Server → Bytes → Choice
invoke_handler s uri = elim (exact_loop uri none s.exact_locations_map) [
  | some h ↦ fires h
  | none ↦ elim (prefix_loop uri none s.locations_map) [
    | some h ↦ fires h
    | none ↦ refuses (
        fcgi_exception (codes "No handlers configured for location: \"" ++ (uri ++ b'"' ∷ []))
          http_not_found)
  ]
]
