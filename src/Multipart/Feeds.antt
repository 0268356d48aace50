-- ===== src/Multipart/Feeds.antt =====
-- `upload_process_buf` without fuel: no byte is read a third time, and where the body is cut into
-- buffers makes no difference.
use fcgi_cpp_appserver.Common.{
  ℕ, zero, suc, ◌*◌, ◌≤◌, ◌<◌, ◌≡◌, refl, sym, ◌∙◌, ◌≢◌, [], ◌∷◌, ◌++◌, foldl, arith, length,
}
use fcgi_cpp_appserver.Common.Bytes.{Bytes}
use fcgi_cpp_appserver.Exception.{Exception}
use fcgi_cpp_appserver.Multipart.{
  State, boundary_seek, after_boundary, headers, part_data, finish, Parser, Outcome, done, thrown,
  stuck, Step, next, again, throws, flush_output_buffer, putc, lump, seek_boundary, pass_boundary,
  end_header, collect_header, end_part, read_data, step_in, step, process_loop, process_buf,
}
use fcgi_cpp_appserver.Multipart.Safety.{
  IsSafe, AllStep, step-IsSafe, Step-cases, is_next, is_again, is_throws,
}

-- One byte, read once more where the machine asks for it.
abbrev pub feed : Parser → ℕ → Step
feed p c = elim (step p c) [ next q ↦ next q | again q ↦ step q c | throws q e ↦ throws q e ]

abbrev pub feeds : Parser → Bytes → Outcome
feeds p [] = done p
feeds p (c ∷ cs) = elim (feed p c) [
  | next q ↦ feeds q cs
  | again q ↦ stuck
  | throws q e ↦ thrown q e
]

-- The fields that output leaves alone.
record SameFrame (p q : Parser) : Type 0 where
  state_same : q.state ≡ p.state
  boundary_same : q.boundary ≡ p.boundary

putc-SameFrame : (p : Parser) (c : ℕ) → SameFrame p (putc p c)
unfolding putc flush_output_buffer
putc-SameFrame p c = ground arith

puts-SameFrame : (cs : Bytes) (p : Parser) → SameFrame p (foldl putc p cs)
puts-SameFrame [] p = record { state_same = refl; boundary_same = refl }
puts-SameFrame (c ∷ cs) p = ground (arith, putc-SameFrame p c, puts-SameFrame cs (putc p c))

abbrev pub IsNext : Step → Type 0
IsNext (next q) = Unit
IsNext (again q) = ⊥
IsNext (throws q e) = ⊥

pub settled-IsNext :
    (q : Parser) (c : ℕ)
    → q.state ≡ part_data
    → q.boundary_pos ≡ q.boundary_start
    → IsNext (step q c)
unfolding step step_in read_data
settled-IsNext q c s e = ground arith

restart_settles :
    (r : Parser) {q : Parser}
    → 0 < length r.boundary
    → r.state ≡ part_data
    → end_part (record r { boundary_start = 0; boundary_pos = 0 }) ≡ q
    → (q.state ≡ part_data) × (q.boundary_pos ≡ q.boundary_start)
unfolding end_part
restart_settles r h m e = ground arith

-- A byte that is read again is then taken.
again_settles :
    (m : State) (p q : Parser) (c : ℕ)
    → IsSafe p
    → p.state ≡ m
    → step_in m p c ≡ again q
    → (q.state ≡ part_data) × (q.boundary_pos ≡ q.boundary_start)
unfolding step_in
again_settles boundary_seek p q c s m e = unfold seek_boundary in ground arith
again_settles after_boundary p q c s m e = unfold pass_boundary in ground arith
again_settles headers p q c s m e = unfold collect_header end_header in ground arith
again_settles part_data p q c s m e =
    unfold read_data in
    ground (arith, puts-SameFrame (lump p) p, restart_settles (foldl putc p (lump p)) {q = q})
again_settles finish p q c s m e = cc

pub IsNext-next : (s : Step) → IsNext s → (q : Parser) × (s ≡ next q)
IsNext-next (next q) h = (q, refl)
IsNext-next (again q) h = absurd h
IsNext-next (throws q e) h = absurd h

-- On fuel of two rounds a byte the loop does what `feeds` does, which no fuel bounds.
pub process_loop-feeds :
    (fuel : ℕ) (p : Parser) (cs : Bytes)
    → IsSafe p
    → 2 * length cs ≤ fuel
    → process_loop fuel p cs ≡ feeds p cs
unfolding process_loop
process_loop-feeds zero p [] s h = refl
process_loop-feeds (suc fuel) p [] s h = refl
process_loop-feeds zero p (c ∷ cs) s h = absurd (omega arith)
process_loop-feeds (suc zero) p (c ∷ cs) s h = absurd (omega arith)
process_loop-feeds (suc (suc fuel)) p (c ∷ cs) s h = elim (Step-cases (step p c)) [
  | is_next q e ↦
      rw (e, process_loop, feeds, feed)
        (process_loop-feeds (suc fuel) q cs (rw e at (step-IsSafe p c s)) (omega arith))
  | is_again q e ↦
      let t : IsSafe q = rw e at (step-IsSafe p c s) in
      let (m, at_start) = again_settles p.state p q c s refl (unfold step in e) in
      let (r, e') = IsNext-next (step q c) (settled-IsNext q c m at_start) in
      rw (e, process_loop, feeds, feed, e')
        (process_loop-feeds fuel r cs (rw e' at (step-IsSafe q c t)) (omega arith))
  | is_throws q x e ↦ rw (e, process_loop, feeds, feed)
]

infixl 5 ◌>>=◌
abbrev pub ◌>>=◌ : Outcome → (Parser → Outcome) → Outcome
done q >>= f = f q
thrown q e >>= f = thrown q e
stuck >>= f = stuck

pub feeds-append :
    (xs : Bytes) (p : Parser) (ys : Bytes) → feeds p (xs ++ ys) ≡ (feeds p xs >>= λ q. feeds q ys)
feeds-append [] p ys = refl
feeds-append (c ∷ cs) p ys = elim (Step-cases (feed p c)) [
  | is_next q e ↦ rw (e, feeds) (feeds-append cs q ys)
  | is_again q e ↦ rw (e, feeds)
  | is_throws q x e ↦ rw (e, feeds)
]

pub feed-IsSafe : (p : Parser) (c : ℕ) → IsSafe p → AllStep IsSafe (feed p c)
feed-IsSafe p c s = elim (Step-cases (step p c)) [
  | is_next q e ↦ rw (e, feed, AllStep) (rw e at (step-IsSafe p c s))
  | is_again q e ↦ rw (e, feed, AllStep) (step-IsSafe q c (rw e at (step-IsSafe p c s)))
  | is_throws q x e ↦ rw (e, feed, AllStep) (rw e at (step-IsSafe p c s))
]

pub feeds-IsSafe :
    (cs : Bytes) (p : Parser) {q : Parser} → IsSafe p → feeds p cs ≡ done q → IsSafe q
feeds-IsSafe [] p {q} s e = ground arith
feeds-IsSafe (c ∷ cs) p s e = elim (Step-cases (feed p c)) [
  | is_next q f ↦ feeds-IsSafe cs q (rw f at (feed-IsSafe p c s)) (rw (f, feeds) at e)
  | is_again q f ↦ absurd (cc (rw (f, feeds) at e))
  | is_throws q x f ↦ absurd (cc (rw (f, feeds) at e))
]

feed-ne-again : (p q : Parser) (c : ℕ) → IsSafe p → feed p c ≢ again q
feed-ne-again p q c s h = elim (Step-cases (step p c)) [
  | is_next r e ↦ cc (rw (e, feed) at h)
  | is_again r e ↦
      let (m, at_start) = again_settles p.state p r c s refl (unfold step in e) in
      let (r', e') = IsNext-next (step r c) (settled-IsNext r c m at_start) in
      cc (rw (e, feed, e') at h)
  | is_throws r x e ↦ cc (rw (e, feed) at h)
]

pub feeds-ne-stuck : (cs : Bytes) (p : Parser) → IsSafe p → feeds p cs ≢ stuck
feeds-ne-stuck [] p s h = cc
feeds-ne-stuck (c ∷ cs) p s h = elim (Step-cases (feed p c)) [
  | is_next q f ↦ feeds-ne-stuck cs q (rw f at (feed-IsSafe p c s)) (rw (f, feeds) at h)
  | is_again q f ↦ feed-ne-again p q c s f
  | is_throws q x f ↦ cc (rw (f, feeds) at h)
]

-- `upload_process_buf` on a buffer that is not empty.
pub process_buf-feeds :
    (p : Parser) (c : ℕ) (cs : Bytes) → IsSafe p → process_buf p (c ∷ cs) ≡ feeds p (c ∷ cs)
unfolding process_buf
process_buf-feeds p c cs s = process_loop-feeds (2 * length (c ∷ cs)) p (c ∷ cs) s (omega arith)

pub data OutcomeCase (o : Outcome) : Type 0 where
  is_done : (q : Parser) → o ≡ done q → OutcomeCase o
  is_thrown : (q : Parser) (x : Exception) → o ≡ thrown q x → OutcomeCase o
  is_stuck : o ≡ stuck → OutcomeCase o

pub Outcome-cases : (o : Outcome) → OutcomeCase o
Outcome-cases (done q) = is_done q refl
Outcome-cases (thrown q x) = is_thrown q x refl
Outcome-cases stuck = is_stuck refl

-- From a safe parser, two buffers in turn that are not empty are one buffer: where the body is cut
-- makes no difference, and the fuel suffices.
pub process_buf-append :
    (p : Parser) (x : ℕ) (xs : Bytes) (y : ℕ) (ys : Bytes)
    → IsSafe p
    → (process_buf p (x ∷ (xs ++ y ∷ ys))
        ≡ (process_buf p (x ∷ xs) >>= λ q. process_buf q (y ∷ ys)))
      × (process_buf p (x ∷ (xs ++ y ∷ ys)) ≢ stuck)
process_buf-append p x xs y ys s =
    (joined, λ h. feeds-ne-stuck (x ∷ (xs ++ y ∷ ys)) p s (sym whole ∙ h))
  where
    whole : process_buf p (x ∷ (xs ++ y ∷ ys)) ≡ feeds p (x ∷ (xs ++ y ∷ ys))
    whole = process_buf-feeds p x (xs ++ y ∷ ys) s

    joined :
        process_buf p (x ∷ (xs ++ y ∷ ys))
        ≡ (process_buf p (x ∷ xs) >>= λ q. process_buf q (y ∷ ys))
    joined = elim (Outcome-cases (feeds p (x ∷ xs))) [
      | is_done q e ↦
          rw (whole, process_buf-feeds p x xs s, feeds-append (x ∷ xs) p (y ∷ ys), e)
            (sym (process_buf-feeds q y ys (feeds-IsSafe (x ∷ xs) p s e)))
      | is_thrown q fault e ↦
          rw (whole, process_buf-feeds p x xs s, feeds-append (x ∷ xs) p (y ∷ ys), e)
      | is_stuck e ↦ absurd (feeds-ne-stuck (x ∷ xs) p s e)
    ]
