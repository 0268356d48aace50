-- ===== src/Query/Pieces.antt =====
-- What `parse_query_args` computes, without positions: the text is cut at the first '&', and what
-- stands behind it at every 'c'.
use fcgi_cpp_appserver.Common.{
  ℕ, zero, suc, ◌+◌, ◌-◌, ◌≤◌, ◌<◌, ◌≡◌, refl, sym, ap, ◌∙◌, inl, inr, false, Option, none, some,
  List, [], ◌∷◌, ◌++◌, append_assoc, foldl, arith, ◌==◌, if◌then◌else◌, length, take, drop,
  length-append, take-length-append, drop-length-append, take_all, Bool-cases,
}
use fcgi_cpp_appserver.Common.Bytes.{Bytes, npos, index_at, find_first_of, substr}
use fcgi_cpp_appserver.Common.Dict.{Dict, insert}
use fcgi_cpp_appserver.Query.{Outcome, done, store_arg, last_arg, args_loop, parse_query_args}

-- The text before and behind the first `d`.
abbrev pub split : ℕ → Bytes → Option (Bytes × Bytes)
split d [] = none
split d (c ∷ s) =
    if c == d
    then some ([], s)
    else elim (split d s) [ none ↦ none | some (a, r) ↦ some (c ∷ a, r) ]

abbrev pub push_head : ℕ → List Bytes → List Bytes
push_head c [] = (c ∷ []) ∷ []
push_head c (p ∷ ps) = (c ∷ p) ∷ ps

-- The text cut at every `d`.
abbrev pub cut : ℕ → Bytes → List Bytes
cut d [] = [] ∷ []
cut d (c ∷ s) = if c == d then [] ∷ cut d s else push_head c (cut d s)

-- The head of the text up to its first `d`, and the pieces of what follows it.
abbrev pub cut_then : ℕ → ℕ → Bytes → List Bytes
cut_then d e s = elim (split d s) [ none ↦ s ∷ [] | some (a, r) ↦ a ∷ cut e r ]

-- The map after one argument.
abbrev pub put : Dict Bytes → Bytes → Dict Bytes
put m arg = elim (split b'=' arg) [
  | none ↦ if length arg == 0 then m else insert arg [] m
  | some (name, value) ↦ insert name value m
]

data Splits (d : ℕ) (s : Bytes) : Type 0 where
  whole : split d s ≡ none → ((i : ℕ) → index_at i d s ≡ none) → Splits d s
  at :
      (a r : Bytes)
      → split d s ≡ some (a, r)
      → s ≡ a ++ d ∷ r
      → ((i : ℕ) → index_at i d s ≡ some (i + length a))
      → Splits d s

split-Splits : (d : ℕ) (s : Bytes) → Splits d s
unfolding index_at
split-Splits d [] = whole refl (λ i. refl)
split-Splits d (c ∷ s) = elim (Bool-cases (c == d)) [
  | inl e ↦ at [] s (rw e) (ground arith) (λ i. ground arith)
  | inr e ↦ elim (split-Splits d s) [
    | whole n f ↦ whole (rw (e, n)) (λ i. ground (arith, f (i + 1)))
    | at a r n q f ↦ at (c ∷ a) r (rw (e, n)) (ap (◌∷◌ c) q) (λ i. ground (arith, f (i + 1)))
  ]
]

cut-cut_then : (d : ℕ) (s : Bytes) → cut d s ≡ cut_then d d s
cut-cut_then d [] = refl
cut-cut_then d (c ∷ s) = elim (Bool-cases (c == d)) [
  | inl e ↦ ground arith
  | inr e ↦ elim (split-Splits d s) [
    | whole n f ↦ ground (arith, cut-cut_then d s)
    | at a r n q f ↦ ground (arith, cut-cut_then d s)
  ]
]

module _ (n v : Bytes) (d : ℕ) where
  substr_name : substr (n ++ d ∷ v) 0 (length n) ≡ some n
  unfolding substr
  substr_name = ground (arith, take-length-append n (d ∷ v))

  drop_name : drop (length n + 1) (n ++ d ∷ v) ≡ v
  drop_name =
      let e : length (n ++ d ∷ []) ≡ length n + 1 = omega (arith, length-append n (d ∷ [])) in
      rw (← e) (
        ap (drop (length (n ++ d ∷ []))) (sym (append_assoc n (d ∷ []) v))
        ∙ drop-length-append (n ++ d ∷ []) v)

  substr_value : (k : ℕ) → length v ≤ k → substr (n ++ d ∷ v) (length n + 1) k ≡ some v
  unfolding substr
  substr_value k h = ground (arith, drop_name, take_all k v h, length-append n (d ∷ v))

store_arg-put :
    (arg : Bytes) (size : ℕ) (m : Dict Bytes) (next : Dict Bytes → Outcome)
    → length arg < npos
    → length arg ≤ size
    → store_arg arg size m next ≡ next (put m arg)
unfolding store_arg find_first_of
store_arg-put arg size m next short fits = elim (split-Splits b'=' arg) [
  | whole n f ↦ ground (arith, f 0)
  | at a r n q f ↦
      let e : length arg ≡ length a + 1 + length r =
        omega (arith, ap length q, length-append a (b'=' ∷ r)) in
      ground (
        arith,
        n,
        f 0,
        q,
        substr_name a r b'=',
        substr_value a r b'=' (size - length a) (omega arith),
      )
]

find_first_of-at :
    (d : ℕ) (pre rest : Bytes)
    → find_first_of (pre ++ rest) d (length pre)
      ≡ elim (index_at (length pre) d rest) [ none ↦ npos | some i ↦ i ]
unfolding find_first_of
find_first_of-at d pre rest = ground (arith, drop-length-append pre rest)

abbrev puts : Dict Bytes → List Bytes → Dict Bytes
puts = foldl put

module _ (query pre rest : Bytes) (first : ℕ) (m : Dict Bytes) (here : query ≡ pre ++ rest)
    (index : first ≡ length pre) (short : length query < npos) where
  sizes : length query ≡ first + length rest
  sizes = omega (arith, ap length here, length-append pre rest)

  substr_here : (n : ℕ) → substr query first n ≡ some (take n rest)
  unfolding substr
  substr_here n =
      let tail : drop first query ≡ rest = rw (index, here) (drop-length-append pre rest) in
      ground (arith, tail, sizes)

  last_arg-put : last_arg query first npos m ≡ done (put m rest)
  unfolding last_arg
  last_arg-put =
      rw (substr_here npos, take_all npos rest (omega (arith, sizes)))
        (store_arg-put rest (npos - first) m done (omega (arith, sizes)) (omega (arith, sizes)))

  more_args :
      (a r : Bytes) (d fuel : ℕ)
      → rest ≡ a ++ d ∷ r
      → args_loop (suc fuel) query first (first + length a) m
        ≡ args_loop fuel query
            (first + length a + 1)
            (find_first_of query b'c' (first + length a + 1))
            (put m a)
  unfolding args_loop
  more_args a r d fuel q =
      let e : length rest ≡ length a + 1 + length r =
        omega (arith, ap length q, length-append a (d ∷ r)) in
      let open_end : (first + length a == npos) ≡ false = ground (arith, sizes) in
      let width : first + length a - first ≡ length a = omega arith in
      rw (open_end, substr_here (first + length a - first), width, q, take-length-append a (d ∷ r))
        (store_arg-put a (length a) m _ (omega (arith, sizes)) (omega arith))

args_loop-cut :
    (d fuel : ℕ) (query pre rest : Bytes) (first : ℕ) (m : Dict Bytes)
    → query ≡ pre ++ rest
    → first ≡ length pre
    → length query < npos
    → length rest < fuel
    → args_loop fuel query first (find_first_of query d first) m
      ≡ done (puts m (cut_then d b'c' rest))
args_loop-cut d zero query pre rest first m here index short room = absurd (omega arith)
args_loop-cut d (suc fuel) query pre rest first m here index short room =
    elim (split-Splits d rest) [
      | whole n f ↦
          let e : find_first_of query d first ≡ npos =
            rw (here, index) (ground (arith, find_first_of-at d pre rest, f (length pre))) in
          let one : puts m (cut_then d b'c' rest) ≡ put m rest = rw (cut_then, n) in
          rw (e, one) (unfold args_loop in last_arg-put query pre rest first m here index short)
      | at a r n q f ↦
          let e : find_first_of query d first ≡ first + length a =
            rw (here, index) (ground (arith, find_first_of-at d pre rest, f (length pre))) in
          let e' : length rest ≡ length a + 1 + length r =
            omega (arith, ap length q, length-append a (d ∷ r)) in
          let here' : query ≡ (pre ++ (a ++ d ∷ [])) ++ r = here ∙ rw q (simp append_assoc) in
          let index' : first + length a + 1 ≡ length (pre ++ (a ++ d ∷ [])) =
            omega (arith, length-append pre (a ++ d ∷ []), length-append a (d ∷ [])) in
          let step : puts m (cut_then d b'c' rest) ≡ puts (put m a) (cut_then b'c' b'c' r) =
            rw (cut_then, n, cut-cut_then b'c' r) in
          rw (e, step)
            (more_args query pre rest first m here index short a r d fuel q
              ∙ args_loop-cut b'c' fuel query (pre ++ (a ++ d ∷ [])) r (first + length a + 1)
                  (put m a) here' index' short (omega arith))
    ]

-- The map that `parse_query_args` builds of a query shorter than `npos`: no position is ever out of
-- range, and each argument goes in in turn, the text being cut at its first '&' and behind it at every
-- 'c'.
pub parse_query_args-pieces :
    (query : Bytes)
    → length query < npos
    → parse_query_args query ≡ done (foldl put [] (cut_then b'&' b'c' query))
unfolding parse_query_args
parse_query_args-pieces query short =
    args_loop-cut b'&' (length query + 1) query [] query 0 [] refl refl short (omega arith)
