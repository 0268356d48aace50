-- ===== src/MainProcess/Rounds.antt =====
-- The rounds of `run`.
use fcgi_cpp_appserver.Common.{
  ℕ, ◌<◌, ◌≡◌, sym, subst, ◌∙◌, Bool, true, false, Option, none, some, List, [], ◌∷◌, ltb, ◌==◌,
  arith, inl, inr, Bool-cases, Option-cases,
}
use fcgi_cpp_appserver.Common.Dict.{All, All-map}
use fcgi_cpp_appserver.MainProcess.{
  Workers, Entry, Main, find, erase, count_down, Event, reap, round,
}
use fcgi_cpp_appserver.MainProcess.Workers.{count, count-erase, AllOf-erase, AllOf-find}
use fcgi_cpp_appserver.MainProcess.Spawn.{
  IsFresh, Right, After, IsSorted, has, Healthy, spawn-Healthy,
}

After-has : (k f : ℕ) (es : List Entry) → After k es → has f es ≡ true → k < f
After-has k f [] a h = absurd (cc)
After-has k f (e ∷ es) a h = ground (arith, After-has k f es a.1)

After-count_down : (k f : ℕ) (es : List Entry) → k < f → After k es → After k (count_down f es)
unfolding count_down
After-count_down k f [] l a = (l, tt)
After-count_down k f (e ∷ es) l a = ground (arith, After-count_down k f es l a.1)

has-count_down : (f g : ℕ) (es : List Entry) → has g es ≡ true → has g (count_down f es) ≡ true
unfolding count_down
has-count_down f g [] h = absurd (cc)
has-count_down f g (e ∷ es) h = ground (arith, has-count_down f g es)

module _ (pid f : ℕ) (ws : Workers) (ended : find pid ws ≡ some f) where
  count_other : (g : ℕ) → ¬ (f ≡ g) → count g (erase pid ws) ≡ count g ws
  count_other g other = ground (arith, count-erase pid f g ws ended, other)

  Right-erase : (es : List Entry) → After f es → All (Right ws) es → All (Right (erase pid ws)) es
  Right-erase [] a h = tt
  Right-erase (e ∷ es) a h = (
    (h.0.0 ∙ sym (count_other e.function (λ same. absurd (omega arith))), h.0.1, h.0.2),
    Right-erase es a.1 h.1,
  )

  count_down-Right :
      (es : List Entry)
      → IsSorted es
      → has f es ≡ true
      → All (Right ws) es
      → All (Right (erase pid ws)) (count_down f es) × IsSorted (count_down f es)
  unfolding count_down
  count_down-Right [] s h r = absurd (cc)
  count_down-Right (e ∷ es) s h r = elim (Bool-cases (e.function == f)) [
    | inl same ↦
        let e_is : f ≡ e.function = ground arith in
        let not_before : ltb f e.function ≡ false = ground arith in
        let counted = count-erase pid f e.function ws ended in
        rw (not_before, same)
          (
            (
              (
                ground (arith, counted, r.0.0, r.0.1, r.0.2, e_is),
                ground (arith, counted, r.0.0, r.0.1, r.0.2, e_is),
                r.0.2,
              ),
              Right-erase es (subst (λ k. After k es) (sym e_is) s.0) r.1,
            ),
            s,
          )
    | inr other ↦
        let later : has f es ≡ true = ground arith in
        let before : e.function < f = After-has e.function f es s.0 later in
        let not_before : ltb f e.function ≡ false = ground arith in
        let ih = count_down-Right es s.1 later r.1 in
        rw (not_before, other)
          (
            (
              (r.0.0 ∙ sym (count_other e.function (λ same. absurd (omega arith))), r.0.1, r.0.2),
              ih.0,
            ),
            (After-count_down e.function f es before s.0, ih.1),
          )
  ]

pub reap-Healthy :
    (waited : Option ℕ) (freed : ℕ → ℕ) (p : Main)
    → ((f : ℕ) → freed f ≡ f)
    → Healthy p
    → Healthy (reap waited freed p)
unfolding reap
reap-Healthy none freed p same v = v
reap-Healthy (some pid) freed p same v = elim (Option-cases (find pid p.workers)) [
  | inl stranger ↦ rw (stranger, reap) v
  | inr (f, ended) ↦
      let k = AllOf-find (λ g. has g p.functions ≡ true) pid f p.workers v.known ended in
      let counted = count_down-Right pid f p.workers ended p.functions v.sorted k v.right in
      rw (ended, same f, reap)
        (record {
          right = counted.0;
          sorted = counted.1;
          known =
              All-map (λ w. has-count_down f w.1 p.functions) _
                (AllOf-erase (λ g. has g p.functions ≡ true) pid p.workers v.known);
        })
]

-- A round in which the freed node still holds its function, and `fork` gives fresh process ids.
pub record IsPlain (p : Main) (e : Event) : Type 0 where
  pub still_there : (f : ℕ) → e.freed f ≡ f
  pub fresh : IsFresh e.fork 0 (reap e.waited e.freed p).workers

pub round-Healthy :
    (p : Main) (signalled : Bool) (e : Event)
    → IsPlain p e
    → Healthy p
    → Healthy (round p signalled e).main
unfolding round
round-Healthy p signalled e h v = elim (Bool-cases e.exiting) [
  | inl ends ↦ rw ends (reap-Healthy e.waited e.freed p h.still_there v)
  | inr goes_on ↦
      rw goes_on (spawn-Healthy e.fork _ h.fresh (reap-Healthy e.waited e.freed p h.still_there v))
]
