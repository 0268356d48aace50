-- ===== src/Form/Whole.antt =====
-- The chunks in which a form's body comes make no difference.
use fcgi_cpp_appserver.Common.{
  ℕ, zero, suc, ◌<◌, ◌≡◌, refl, sym, ap, subst, ◌∙◌, some, [], ◌∷◌, ◌++◌, arith, ltb, length, take,
  drop, length-take, length-drop, take-append-drop, Bool-cases, inl, inr, take_all,
}
use fcgi_cpp_appserver.Common.Bytes.{Bytes}
use fcgi_cpp_appserver.Exception.{Exception}
use fcgi_cpp_appserver.Multipart.{
  State, boundary_seek, after_boundary, headers, part_data, finish, Parser, Outcome, done, thrown,
  stuck, throws, seek_boundary, pass_boundary, collect_header, end_header, read_data, step, step_in,
}
use fcgi_cpp_appserver.Multipart.Safety.{IsSafe, Step-cases, is_next, is_again, is_throws}
use fcgi_cpp_appserver.Multipart.Feeds.{
  feed, feeds, feed-IsSafe, feeds-IsSafe, feeds-append, feeds-ne-stuck, process_buf-feeds,
  Outcome-cases, is_done, is_thrown, is_stuck,
}
use fcgi_cpp_appserver.Form.{read_loop, process_caught, process_chunk}

-- A round that throws leaves the machine in its last state.
throws-finish :
    (m : State) (p q : Parser) (c : ℕ) (e : Exception)
    → step_in m p c ≡ throws q e
    → q.state ≡ finish
unfolding step_in
throws-finish boundary_seek p q c e h = unfold seek_boundary in ground arith
throws-finish after_boundary p q c e h = unfold pass_boundary in ground arith
throws-finish headers p q c e h = unfold collect_header end_header in ground arith
throws-finish part_data p q c e h = unfold read_data in ground arith
throws-finish finish p q c e h = cc

feed-finish : (p q : Parser) (c : ℕ) (e : Exception) → feed p c ≡ throws q e → q.state ≡ finish
unfolding step
feed-finish p q c e h = elim (Step-cases (step p c)) [
  | is_next r f ↦ absurd (cc (rw (f, feed) at h))
  | is_again r f ↦ throws-finish r.state r q c e (rw (f, feed) at h)
  | is_throws r x f ↦ throws-finish p.state p q c e (f ∙ (rw (f, feed) at h))
]

-- The parser after a call whose exception is caught.
abbrev pub caught : Parser → Outcome → Parser
caught p (done q) = q
caught p (thrown q e) = q
caught p stuck = p

feeds-finish : (cs : Bytes) (p : Parser) → p.state ≡ finish → feeds p cs ≡ done p
unfolding step step_in
feeds-finish [] p m = refl
feeds-finish (c ∷ cs) p m = ground (arith, feeds-finish cs p m)

feeds-thrown :
    (cs : Bytes) (p : Parser) {q : Parser} {e : Exception}
    → IsSafe p
    → feeds p cs ≡ thrown q e
    → (q.state ≡ finish) × IsSafe q
feeds-thrown [] p s h = absurd (cc)
feeds-thrown (c ∷ cs) p {q} {e} s h = elim (Step-cases (feed p c)) [
  | is_next r f ↦ feeds-thrown cs r (rw f at (feed-IsSafe p c s)) (rw (f, feeds) at h)
  | is_again r f ↦ absurd (cc (rw (f, feeds) at h))
  | is_throws r x f ↦
      let same : r ≡ q = cc (rw (f, feeds) at h) in
      subst (λ (t : Parser). (t.state ≡ finish) × IsSafe t) same
        (feed-finish p r c x f, rw f at (feed-IsSafe p c s))
]

-- The parser that a body leaves, wherever it throws.
abbrev pub after : Parser → Bytes → Parser
after p cs = caught p (feeds p cs)

after-IsSafe : (cs : Bytes) (p : Parser) → IsSafe p → IsSafe (after p cs)
after-IsSafe cs p s = elim (Outcome-cases (feeds p cs)) [
  | is_done q e ↦ rw (e, caught) (feeds-IsSafe cs p s e)
  | is_thrown q x e ↦ rw (e, caught) (feeds-thrown cs p s e).1
  | is_stuck e ↦ rw (e, caught) s
]

after-append : (xs ys : Bytes) (p : Parser) → IsSafe p → after p (xs ++ ys) ≡ after (after p xs) ys
after-append xs ys p s = elim (Outcome-cases (feeds p xs)) [
  | is_done q e ↦
      ground (arith, feeds-append xs p ys, e, feeds-ne-stuck ys q (feeds-IsSafe xs p s e))
  | is_thrown q x e ↦
      ground (arith, feeds-append xs p ys, e, feeds-finish ys q (feeds-thrown xs p s e).0)
  | is_stuck e ↦ absurd (feeds-ne-stuck xs p s e)
]

process_caught-after :
    (p : Parser) (c : ℕ) (cs : Bytes)
    → IsSafe p
    → process_caught p (c ∷ cs) ≡ some (after p (c ∷ cs))
unfolding process_caught
process_caught-after p c cs s = elim (Outcome-cases (feeds p (c ∷ cs))) [
  | is_done q e ↦ ground (arith, process_buf-feeds p c cs s, e)
  | is_thrown q x e ↦ ground (arith, process_buf-feeds p c cs s, e)
  | is_stuck e ↦ absurd (feeds-ne-stuck (c ∷ cs) p s e)
]

process_chunk-after : (p : Parser) (cs : Bytes) → IsSafe p → process_chunk p cs ≡ some (after p cs)
unfolding process_chunk
process_chunk-after p [] s = refl
process_chunk-after p (c ∷ cs) s = ground (arith, process_caught-after p c cs s)

-- The loop hands the whole body to the parser, in chunks of any size.
pub read_loop-after :
    (fuel clen : ℕ) (input : Bytes) (p : Parser)
    → IsSafe p
    → 0 < clen
    → length input < fuel
    → read_loop fuel clen input p ≡ some (after p input)
unfolding read_loop
read_loop-after zero clen input p s h l = absurd (omega arith)
read_loop-after (suc fuel) clen input p s h l = elim (Bool-cases (ltb (length input) clen)) [
  | inl short ↦
      let e : take clen input ≡ input = take_all clen input (ground arith) in
      let chunk : process_chunk p (take clen input) ≡ some (after p input) =
        rw e (process_chunk-after p input s) in
      ground (arith, chunk)
  | inr long ↦
      let buf = take clen input in
      let rest = drop clen input in
      let e : length buf ≡ clen = ground (arith, length-take clen input) in
      let next_round : read_loop fuel (length buf) rest (after p buf)
          ≡ some (after (after p buf) rest) =
        read_loop-after fuel (length buf) rest (after p buf) (after-IsSafe buf p s) (omega arith)
          (ground (arith, length-drop clen input)) in
      let joined : after p input ≡ after (after p buf) rest =
        ap (after p) (sym (take-append-drop clen input)) ∙ after-append buf rest p s in
      ground (arith, process_chunk-after p buf s, next_round, joined)
]
