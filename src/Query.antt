-- ===== src/Query.antt =====
-- `fcgi_request::parse_query_args` of src/server/fcgi_handler.cpp, and the lookups of
-- src/server/fcgi_handler.h in the map that it fills.
pub mod Pieces
pub mod Pairs
use fcgi_cpp_appserver.Common.{
  ℕ, zero, suc, ◌+◌, ◌-◌, Bool, true, false, Option, none, some, List, [], ◌∷◌, ◌==◌, if◌then◌else◌,
  length,
}
use fcgi_cpp_appserver.Common.Bytes.{Bytes, npos, find_first_of, substr}
use fcgi_cpp_appserver.Common.Dict.{Dict, insert, lookup}

-- What a run comes to; `stuck` is a run that the fuel does not suffice for.
pub data Outcome : Type 0 where
  done : Dict Bytes → Outcome
  out_of_range stuck : Outcome

infixl 5 ◌>>=◌
abbrev pub ◌>>=◌ {ℓ} : {A : Type ℓ} → Option A → (A → Outcome) → Outcome
none >>= f = out_of_range
some a >>= f = f a

-- One argument: up to the first '=' the name, and behind it the value, of at most `size - delim`
-- characters, where `size` is `last - first`. An argument without '=' has an empty value, and an
-- empty one is left out.
unfoldable pub store_arg : Bytes → ℕ → Dict Bytes → (Dict Bytes → Outcome) → Outcome
store_arg arg size params next =
    let delim = find_first_of arg b'=' 0 in
    if delim == npos then next (if length arg == 0 then params else insert arg [] params) else (do
      name ← substr arg 0 delim
      value ← substr arg (delim + 1) (size - delim)
      next (insert name value params))

-- The statements behind the loop: the rest of the text is the last argument.
unfoldable pub last_arg : Bytes → ℕ → ℕ → Dict Bytes → Outcome
last_arg query first last params = do
  arg ← substr query first npos
  store_arg arg (last - first) params done

-- The loop. An argument ends at `last`; the one behind it ends at the next 'c', as in the source.
unfoldable pub args_loop : ℕ → Bytes → ℕ → ℕ → Dict Bytes → Outcome
args_loop zero query first last params = stuck
args_loop (suc fuel) query first last params =
    let more = substr query first (last - first) >>= λ arg.
    store_arg arg (last - first) params
      (args_loop fuel query (last + 1) (find_first_of query b'c' (last + 1))) in
    if last == npos then last_arg query first last params else more

-- Each round but the last ends an argument at a character of its own, so `length + 1` rounds do.
unfoldable pub parse_query_args : Bytes → Outcome
unfolding args_loop store_arg last_arg
parse_query_args query = args_loop (length query + 1) query 0 (find_first_of query b'&' 0) []

-- `has_param` and `get_param`.
unfoldable pub has_param : Dict Bytes → Bytes → Bool
has_param params name = elim (lookup name params) [ none ↦ false | some v ↦ true ]

unfoldable pub get_param : Dict Bytes → Bytes → Bytes
get_param params name = elim (lookup name params) [ none ↦ [] | some v ↦ v ]
