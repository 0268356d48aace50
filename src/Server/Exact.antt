-- ===== src/Server/Exact.antt =====
-- A mapping with '=' in front, for an exact match.
use fcgi_cpp_appserver.Common.{
  ℕ, suc, ◌<◌, ◌≡◌, ap, false, some, [], ◌∷◌, ◌++◌, arith, length, take_all, Bool-cases, inl, inr,
}
use fcgi_cpp_appserver.Common.Bytes.{Bytes, codes, equal, equal_iff, equal_refl, substr, find}
use fcgi_cpp_appserver.Exception.{fcgi_exception, http_not_found}
use fcgi_cpp_appserver.Server.{
  Server, create, insert, add_handler_mapping, exact_loop, prefix_loop, fires, refuses,
  invoke_handler, at_front,
}

longer-ne : (c : ℕ) (path : Bytes) → equal path (c ∷ path) ≡ false
longer-ne c path = elim (Bool-cases (equal path (c ∷ path))) [
  | inl same ↦ absurd (omega (arith, ap length ((equal_iff path (c ∷ path)).0 same)))
  | inr other ↦ other
]

-- The key loses the byte behind the '=' too: of a new server with one mapping "=" followed by a byte
-- and a path that is not empty, the byte and the path are answered by 404, and the path alone fires
-- the handler.
pub exact_mapping_shifted :
    (endpoint path : Bytes) (c h : ℕ)
    → 0 < length path
    → (t : Server) × (what : Bytes) × (add_handler_mapping
          (create endpoint)
          (b'=' ∷ c ∷ path)
          (some h)
        ≡ some t)
      × (invoke_handler t (c ∷ path) ≡ refuses (fcgi_exception what http_not_found))
      × (invoke_handler t path ≡ fires h)
unfolding add_handler_mapping create insert at_front find substr invoke_handler exact_loop
    prefix_loop
exact_mapping_shifted endpoint path c h l = (
  record (create endpoint) { exact_locations_map = (path, some h) ∷ [] },
  codes "No handlers configured for location: \"" ++ ((c ∷ path) ++ b'"' ∷ []),
  ground (arith, take_all (suc (suc (length path))) path (omega arith)),
  ground (arith, longer-ne c path),
  ground (arith, equal_refl path),
)
