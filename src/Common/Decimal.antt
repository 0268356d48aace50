-- ===== src/Common/Decimal.antt =====
-- `o << n` of an unsigned number: its decimal digits.
use fcgi_cpp_appserver.Common.{ℕ, zero, suc, ◌+◌, ◌/◌, ◌%◌, true, false, [], ◌∷◌, ◌++◌, ltb}
use fcgi_cpp_appserver.Common.Bytes.{Bytes}

-- On fuel, which `n` itself suffices for.
unfoldable pub show_loop : ℕ → ℕ → Bytes
show_loop zero n = (b'0' + n) ∷ []
show_loop (suc fuel) n = elim (ltb n 10) [
  | true ↦ (b'0' + n) ∷ []
  | false ↦ show_loop fuel (n / 10) ++ (b'0' + n % 10) ∷ []
]

unfoldable pub show : ℕ → Bytes
unfolding show_loop
show n = show_loop n n
