-- ===== src/Query/Pairs.antt =====
-- Queries of the usual form, `name=value&name=value`.
use fcgi_cpp_appserver.Common.{
  ℕ, ◌<◌, ◌≡◌, refl, ◌∙◌, false, some, [], ◌∷◌, ◌++◌, arith, if◌then◌else◌, length, Option-cases,
  inl, inr,
}
use fcgi_cpp_appserver.Common.Bytes.{Bytes, npos, member, equal}
use fcgi_cpp_appserver.Common.Dict.{Dict, insert, lookup, lookup-insert, IsSorted}
use fcgi_cpp_appserver.Query.{done, parse_query_args, get_param, has_param}
use fcgi_cpp_appserver.Query.Pieces.{split, cut, cut_then, put, parse_query_args-pieces}

split-append : (d : ℕ) (a r : Bytes) → member d a ≡ false → split d (a ++ d ∷ r) ≡ some (a, r)
split-append d [] r h = ground arith
split-append d (x ∷ a) r h = ground (arith, split-append d a r)

cut_whole : (d : ℕ) (s : Bytes) → member d s ≡ false → cut d s ≡ s ∷ []
cut_whole d [] h = refl
cut_whole d (x ∷ s) h = ground (arith, cut_whole d s)

-- `name=value`.
abbrev pub pair : Bytes → Bytes → Bytes
pair name value = name ++ b'=' ∷ value

put-pair :
    (m : Dict Bytes) (name value : Bytes)
    → member b'=' name ≡ false
    → put m (pair name value) ≡ insert name value m
put-pair m name value h = rw (put, split-append b'=' name value h)

-- A query of two arguments whose names have no '=', the first without '&' and the second without 'c',
-- shorter than `npos`, gives these two entries: the second value runs on over any '&' that it holds.
pub two_args :
    (a v b w : Bytes)
    → member b'=' a ≡ false
    → member b'=' b ≡ false
    → member b'&' (pair a v) ≡ false
    → member b'c' (pair b w) ≡ false
    → length (pair a v ++ b'&' ∷ pair b w) < npos
    → parse_query_args (pair a v ++ b'&' ∷ pair b w) ≡ done (insert b w (insert a v []))
two_args a v b w ha hb h k short =
    parse_query_args-pieces (pair a v ++ b'&' ∷ pair b w) short
    ∙ rw (
      cut_then,
      split-append b'&' (pair a v) (pair b w) h,
      cut_whole b'c' (pair b w) k,
      put-pair [] a v ha,
      put-pair (insert a v []) b w hb,
    )

-- What is read for a name after one insertion more in a map that is sorted by key: the value that is
-- there already, else the inserted one if it is of that name, else nothing.
get_param-insert :
    (k j v : Bytes) (m : Dict Bytes)
    → IsSorted m
    → get_param (insert k v m) j
      ≡ (if has_param m j then get_param m j else if equal k j then v else [])
unfolding get_param has_param
get_param-insert k j v m h = elim (Option-cases (lookup j m)) [
  | inl e ↦ ground (arith, lookup-insert k j v m h)
  | inr (w, e) ↦ ground (arith, lookup-insert k j v m h)
]
