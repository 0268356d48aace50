-- ===== src/Regex.antt =====
-- `Regex` of src/server/regex.h. The regex library is an argument: whether it compiles a pattern, and
-- what `re_search` gives for a text.
use fcgi_cpp_appserver.Common.{
  ℕ, ◌-◌, ◌≤◌, ◌≡◌, refl, ap, ◌∙◌, sym, Bool, true, false, Option, none, some, ◌++◌, ltb, length,
  take, drop, take-append-drop, arith, Bool-cases, inl, inr, length-take,
}
use fcgi_cpp_appserver.Common.Bytes.{Bytes, codes, substr}
use fcgi_cpp_appserver.Exception.{Exception, logic_error, runtime_error}

-- -2 and below; -1; or a match from `start` to `end`, where `start` is the result.
pub data Found : Type 0 where
  fails nowhere : Found
  found : (start : ℕ) → (stop : ℕ) → Found

-- How a call ends that gives a `bool` and may set `needle`.
pub data Search {ℓ} (A : Type ℓ) : Type ℓ where
  returns : Bool → A → Search A
  throws : Exception → Search A

-- The constructor: the library's matcher for the pattern, or `none` where it cannot be compiled.
unfoldable pub create : (Bytes → Option (Bytes → Found)) → Bytes → Search (Bytes → Found)
create re_compile_pattern source = elim (re_compile_pattern source) [
  | none ↦ throws (runtime_error (codes "error compiling regex"))
  | some re_search ↦ returns true re_search
]

-- `haystack.substr(start, end - start)`, where `end` is not before `start`.
unfoldable pub assign : Option Bytes → Search Bytes
assign none = throws (logic_error (codes "basic_string::substr"))
assign (some t) = returns true t

unfoldable pub found_text : Bytes → Bytes → Found → Search Bytes
unfolding assign
found_text haystack needle fails = throws (runtime_error (codes "regex failure"))
found_text haystack needle nowhere = returns false needle
found_text haystack needle (found start stop) = assign (substr haystack start (stop - start))

unfoldable pub search : (Bytes → Found) → Bytes → Bytes → Search Bytes
unfolding found_text
search re_search haystack needle = found_text haystack needle (re_search haystack)

-- `match`.
unfoldable pub found_at : ℕ → Found → Search ℕ
found_at needle fails = throws (runtime_error (codes "regex failure"))
found_at needle nowhere = returns false needle
found_at needle (found start stop) = returns true start

unfoldable pub match_at : (Bytes → Found) → Bytes → ℕ → Search ℕ
unfolding found_at
match_at re_search haystack needle = found_at needle (re_search haystack)

-- As the library's manual has it: a match lies within the text.
abbrev pub IsWithin : Bytes → Found → Type 0
IsWithin haystack fails = Unit
IsWithin haystack nowhere = Unit
IsWithin haystack (found start stop) = (start ≤ stop) × (stop ≤ length haystack)

-- What the two calls give together.
abbrev pub Agree : Bytes → Bytes → ℕ → Search Bytes → Search ℕ → Type 0
Agree haystack needle at (returns true t) (returns true i) =
    ((before : Bytes) × (behind : Bytes) × (haystack ≡ before ++ (t ++ behind))
      × (length before ≡ i))
Agree haystack needle at (returns false t) (returns false i) = (t ≡ needle) × (i ≡ at)
Agree haystack needle at (throws e) (throws f) = e ≡ f
Agree haystack needle at (returns true t) (returns false i) = ⊥
Agree haystack needle at (returns false t) (returns true i) = ⊥
Agree haystack needle at (returns b t) (throws f) = ⊥
Agree haystack needle at (throws e) (returns b i) = ⊥

same_found :
    (haystack needle : Bytes) (at start stop : ℕ)
    → start ≤ stop
    → stop ≤ length haystack
    → Agree haystack needle at (assign (substr haystack start (stop - start))) (returns true start)
unfolding assign substr
same_found haystack needle at start stop le lt = elim (Bool-cases (ltb (length haystack) start)) [
  | inl out ↦ absurd (ground (arith, out, le, lt))
  | inr within ↦ rw within (
    take start haystack,
    drop (stop - start) (drop start haystack),
    sym (
        ap (λ l. take start haystack ++ l) (take-append-drop (stop - start) (drop start haystack))
        ∙ take-append-drop start haystack),
    omega (arith, le, lt, length-take start haystack),
  )
]

same_for :
    (haystack needle : Bytes) (at : ℕ) (f : Found)
    → IsWithin haystack f
    → Agree haystack needle at (found_text haystack needle f) (found_at at f)
unfolding found_text found_at
same_for haystack needle at fails h = refl
same_for haystack needle at nowhere h = (refl, refl)
same_for haystack needle at (found start stop) h = same_found haystack needle at start stop h.0 h.1

-- Where what the library gives lies within the text, the two calls agree: both throw the same, or both
-- find nothing and leave `needle` alone, or both find: the text of the one stands in the haystack at
-- the place of the other.
pub search-match_at :
    (re_search : Bytes → Found) (haystack needle : Bytes) (at : ℕ)
    → IsWithin haystack (re_search haystack)
    → Agree haystack needle at (search re_search haystack needle) (match_at re_search haystack at)
unfolding search match_at
search-match_at re_search haystack needle at h = same_for haystack needle at (re_search haystack) h
