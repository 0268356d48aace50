-- ===== src/Url/Joined.antt =====
-- The text that the parts of a URL come from.
use fcgi_cpp_appserver.Common.{
  ℕ, ◌<◌, ◌≡◌, refl, sym, ap, ◌∙◌, ◌⊎◌, inl, inr, Bool, false, [], ◌∷◌, ◌++◌, ◌==◌, if◌then◌else◌,
  length, take, drop, take-append-drop, append-nil, arith, Bool-cases, ==_iff,
}
use fcgi_cpp_appserver.Common.Bytes.{Bytes, codes}
use fcgi_cpp_appserver.Exception.{runtime_error}
use fcgi_cpp_appserver.Url.{
  Made, made, throws, schema_length, break_at, ends_host, ends_port, ends_path, take_path,
  take_query, take_rest, take_port, create,
}
use fcgi_cpp_appserver.Url.Parts.{Stopped, show_port, IsQuery, no_colon}

-- What a text is split into is the text again.
break_at_joined : (stops : ℕ → Bool) (s : Bytes) → (break_at stops s).0 ++ (break_at stops s).1 ≡ s
unfolding break_at
break_at_joined stops [] = refl
break_at_joined stops (c ∷ s) = ground (arith, break_at_joined stops s)

take_path_joined : (s : Bytes) → (take_path s).0 ++ (take_path s).1 ≡ s
unfolding take_path
take_path_joined [] = refl
take_path_joined (c ∷ s) = ground (arith, break_at_joined ends_path (c ∷ s))

-- What stands behind the port, if it is no path and no query, is in no part.
abbrev pub Joins : Bytes → Made → Type 0
Joins source (made u) =
    (rest : Bytes) × (u.schema ++ (u.host ++ (show_port u.port ++ (u.path ++ (u.query ++ rest))))
      ≡ source)
    × ((rest ≡ []) ⊎ (0 < length u.port))
Joins source (throws e) = Unit

abbrev behind : Bytes → Bytes
behind [] = []
behind (c ∷ s) = if c == b'?' then [] else c ∷ s

query_behind : (t : Bytes) → take_query t ++ behind t ≡ t
unfolding take_query
query_behind [] = refl
query_behind (c ∷ s) = ground (arith, append-nil (c ∷ s))

IsQuery-behind : (t : Bytes) → IsQuery t → behind t ≡ []
IsQuery-behind [] h = refl
IsQuery-behind (c ∷ s) h = ground (arith, h)

break_at-Stopped : (stops : ℕ → Bool) (s : Bytes) → Stopped stops (break_at stops s).1
unfolding break_at
break_at-Stopped stops [] = tt
break_at-Stopped stops (c ∷ s) = elim (Bool-cases (stops c)) [
  | inl e ↦ rw (e, Stopped) e
  | inr e ↦ rw (e, Stopped) (break_at-Stopped stops s)
]

Stopped-IsQuery : (t : Bytes) → Stopped ends_path t → IsQuery t
Stopped-IsQuery [] h = tt
Stopped-IsQuery (c ∷ s) h = ground (arith, h)

take_path-IsQuery : (p : Bytes) → Stopped ends_host p → Stopped no_colon p → IsQuery (take_path p).1
unfolding take_path
take_path-IsQuery [] h k = tt
take_path-IsQuery (c ∷ s) h k = elim (Bool-cases (c == b'/')) [
  | inl e ↦ rw (e, IsQuery) (Stopped-IsQuery _ (break_at-Stopped ends_path (c ∷ s)))
  | inr e ↦ rw (e, IsQuery) (ground arith)
]

module _ (source schema host : Bytes) where
  take_rest-Joins :
      (port p : Bytes)
      → schema ++ (host ++ (show_port port ++ p)) ≡ source
      → (behind (take_path p).1 ≡ []) ⊎ (0 < length port)
      → Joins source (made (take_rest source schema host port p))
  unfolding take_rest
  take_rest-Joins port p e none_left =
      (behind (take_path p).1, rw (query_behind (take_path p).1, take_path_joined p) e, none_left)

  take_port-Joins :
      (p : Bytes)
      → Stopped ends_host p
      → schema ++ (host ++ p) ≡ source
      → Joins source (take_port source schema host p)
  unfolding take_port
  take_port-Joins [] h e = take_rest-Joins [] [] e (inl refl)
  take_port-Joins (c ∷ s) h e = elim (Bool-cases (c == b':')) [
    | inl colon ↦
        rw (colon, Joins)
          (with_port (break_at ends_port s) (
            ap (λ d. d ∷ s) ((==_iff c b':').0 colon)
            ∙ sym (ap (λ x. b':' ∷ x) (break_at_joined ends_port s))))
    | inr other ↦
        rw (other, Joins)
          (take_rest-Joins [] (c ∷ s) e
            (inl (IsQuery-behind _ (take_path-IsQuery (c ∷ s) h (ground arith)))))
  ]
    where
      with_port :
          (parts : Bytes × Bytes)
          → c ∷ s ≡ b':' ∷ (parts.0 ++ parts.1)
          → Joins source (
              if length parts.0 == 0
              then throws (runtime_error (codes "bad url"))
              else made (take_rest source schema host parts.0 parts.1))
      with_port ([], p) f = tt
      with_port (d ∷ port, p) f =
          let z : (length (d ∷ port) == 0) ≡ false = ground arith in
          rw (z, Joins)
            (take_rest-Joins (d ∷ port) p (ap (λ x. schema ++ (host ++ x)) (sym f) ∙ e)
              (inr (omega arith)))

-- The parts of a URL in turn, with "://" in the schema and ':' in front of the port, are the source;
-- only behind a port there may be more, which is in no part.
pub create-Joins : (source : Bytes) → Joins source (create source)
unfolding create
create-Joins source =
    let n = schema_length source in
    let text = drop n source in
    take_port-Joins source (take n source) (break_at ends_host text).0 (break_at ends_host text).1
      (break_at-Stopped ends_host text)
      (rw (break_at_joined ends_host text) (take-append-drop n source))
