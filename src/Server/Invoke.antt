-- ===== src/Server/Invoke.antt =====
-- `invoke_handler` on the tables that `add_handler_mapping` builds.
use fcgi_cpp_appserver.Common.{
  ℕ, ◌<◌, ◌≡◌, refl, ◌≢◌, ◌⊎◌, inl, inr, Bool, true, not, ◌&&◌, none, some, [], ◌∷◌, arith, ltb,
  if◌then◌else◌, length, Bool-cases,
}
use mathlib.Core.Path.{ap₂}
use fcgi_cpp_appserver.Common.Bytes.{Bytes, equal, equal_iff}
use fcgi_cpp_appserver.Common.Dict.{All}
use fcgi_cpp_appserver.Exception.{fcgi_exception, http_not_found}
use fcgi_cpp_appserver.Server.{
  Handler, LocationMap, insert, Server, create, add_handler, remove_handler, add_handler_mapping,
  exact_loop, Choice, fires, refuses, invoke_handler, is_null, at_front,
}
use fcgi_cpp_appserver.Server.Order.{IsOrdered, insert-IsOrdered}
use fcgi_cpp_appserver.Server.Dispatch.{
  Serves, Stands, IsLongest, nothing, found, prefix_loop-Picks,
}

-- The servers that the program can set up.
pub data Built : Server → Type 0 where
  created : (endpoint : Bytes) → Built (create endpoint)
  added : {s : Server} (h : Handler) → Built s → Built (add_handler s h)
  removed : {s : Server} (h : Handler) → Built s → Built (remove_handler s h)
  mapped :
      {s t : Server} (uri : Bytes) (h : Handler)
      → Built s
      → add_handler_mapping s uri h ≡ some t
      → Built t

mapping_cases :
    (s : Server) (uri : Bytes) (h : Handler) {t : Server}
    → add_handler_mapping s uri h ≡ some t
    → (t.locations_map ≡ s.locations_map) ⊎ (t.locations_map ≡ insert uri h s.locations_map)
unfolding add_handler_mapping
mapping_cases s uri h e = elim (Bool-cases (at_front uri (b'=' ∷ []))) [
  | inl exact ↦ inl (ground arith)
  | inr plain ↦ inr (ground arith)
]

mapping-IsOrdered :
    (s : Server) (uri : Bytes) (h : Handler) {t : Server}
    → IsOrdered s.locations_map
    → add_handler_mapping s uri h ≡ some t
    → IsOrdered t.locations_map
mapping-IsOrdered s uri h o e = elim (mapping_cases s uri h e) [
  | inl same ↦ rw same o
  | inr more ↦ rw more (insert-IsOrdered uri h s.locations_map o)
]

added_same : (s : Server) (h : Handler) → (add_handler s h).locations_map ≡ s.locations_map
unfolding add_handler
added_same s h = ground arith

removed_same : (s : Server) (h : Handler) → (remove_handler s h).locations_map ≡ s.locations_map
unfolding remove_handler
removed_same s h = ground arith

pub Built-IsOrdered : {s : Server} → Built s → IsOrdered s.locations_map
Built-IsOrdered (created endpoint) = unfold create in tt
Built-IsOrdered (added {s} h b) = rw (added_same s h) (Built-IsOrdered b)
Built-IsOrdered (removed {s} h b) = rw (removed_same s h) (Built-IsOrdered b)
Built-IsOrdered (mapped {s} uri h b e) = mapping-IsOrdered s uri h (Built-IsOrdered b) e

-- An entry of the exact map that serves the text.
abbrev pub IsExact : Bytes → Bytes × Handler → Type 0
IsExact uri e = (e.0 ≡ uri) × (0 < length e.0) × (e.1 ≢ none)

abbrev exact_test : Bytes → Bytes → Handler → Bool
exact_test uri k h = equal k uri && not (is_null h) && ltb 0 (length k)

exact_test-IsExact :
    (uri k : Bytes) (h : Handler) → exact_test uri k h ≡ true → (g : ℕ) × (h ≡ some g) × (k ≡ uri)
exact_test-IsExact uri k none e = absurd (ground arith)
exact_test-IsExact uri k (some h) e = (h, refl, (equal_iff k uri).0 (ground arith))

IsExact-exact_test : (uri k : Bytes) (h : Handler) → IsExact uri (k, h) → exact_test uri k h ≡ true
IsExact-exact_test uri k none (p, l, n) = absurd (n refl)
IsExact-exact_test uri k (some h) (p, l, n) = ground (arith, (equal_iff k uri).1 p)

abbrev Exact : Bytes → LocationMap → Handler → Handler → Type 0
Exact uri m before result =
    All (λ e. ¬ (IsExact uri e)) m × (result ≡ before)
    ⊎ ((h : ℕ) × Stands (uri, some h) m × (result ≡ some h))

Exact-cons :
    (uri k : Bytes) (h : Handler) (m : LocationMap) (before result : Handler)
    → Exact uri m (if exact_test uri k h then h else before) result
    → Exact uri ((k, h) ∷ m) before result
Exact-cons uri k h m before result (inr (g, s, e)) = inr (g, inr s, e)
Exact-cons uri k h m before result (inl (none_m, e)) = elim (Bool-cases (exact_test uri k h)) [
  | inl hit ↦
      let (g, is_g, same) = exact_test-IsExact uri k h hit in
      inr (g, inl (ap₂ (λ (j : Bytes) (x : Handler). (j, x)) same is_g), ground arith)
  | inr miss ↦ inl ((λ x. cc (IsExact-exact_test uri k h x), none_m), ground arith)
]

exact_loop-Exact :
    (uri : Bytes) (m : LocationMap) (before : Handler)
    → Exact uri m before (exact_loop uri before m)
unfolding exact_loop
exact_loop-Exact uri [] before = inl (tt, refl)
exact_loop-Exact uri ((k, h) ∷ m) before =
    Exact-cons uri k h m before _
      (exact_loop-Exact uri m (if exact_test uri k h then h else before))

-- What `invoke_handler` may do.
pub data Dispatched (s : Server) (uri : Bytes) : Choice → Type 0 where
  exact : (h : ℕ) → Stands (uri, some h) s.exact_locations_map → Dispatched s uri (fires h)
  by_prefix :
      (k : Bytes) (h : ℕ)
      → All (λ e. ¬ (IsExact uri e)) s.exact_locations_map
      → Stands (k, some h) s.locations_map
      → Serves uri (k, some h)
      → IsLongest uri k s.locations_map
      → Dispatched s uri (fires h)
  refused :
      (what : Bytes)
      → All (λ e. ¬ (IsExact uri e)) s.exact_locations_map
      → All (λ e. ¬ (Serves uri e)) s.locations_map
      → Dispatched s uri (refuses (fcgi_exception what http_not_found))

-- The choice of `invoke_handler` on a server whose tables are built by its methods: an exact mapping
-- of the text goes first; without one the handler of a longest mapped prefix fires; and 404 is thrown
-- only where nothing is mapped to the text or a prefix of it.
pub invoke_handler-Dispatched :
    {s : Server} (uri : Bytes) → Built s → Dispatched s uri (invoke_handler s uri)
unfolding invoke_handler
invoke_handler-Dispatched {s} uri b = elim (exact_loop-Exact uri s.exact_locations_map none) [
  | inr (h, stands, e) ↦ rw (e, invoke_handler) (exact h stands)
  | inl (no_exact, e) ↦ elim (prefix_loop-Picks uri s.locations_map none (Built-IsOrdered b)) [
    | nothing none_m f ↦ rw (e, f, invoke_handler) (refused _ no_exact none_m)
    | found k h stands srv long f ↦
        rw (e, f, invoke_handler) (by_prefix k h no_exact stands srv long)
  ]
]
