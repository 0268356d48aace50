-- ===== src/MainProcess/Lifetime.antt =====
-- The states that the main process can reach, and how it replaces workers.
use fcgi_cpp_appserver.Common.{
  ℕ, zero, suc, ◌+◌, ◌-◌, ◌<◌, ◌≡◌, refl, ◌∙◌, sym, subst, Bool, true, false, Option, none, List,
  [], ◌∷◌, arith, inl, inr, Option-cases,
}
use fcgi_cpp_appserver.Common.Dict.{All, All-map}
use fcgi_cpp_appserver.MainProcess.{
  Workers, Entry, Main, create, insert, add_entry, add_function, fill, spawn_all, spawn, Event,
  reap, round,
}
use fcgi_cpp_appserver.MainProcess.Workers.{count, AllOf}
use fcgi_cpp_appserver.MainProcess.Spawn.{
  size_t, IsFresh, Right, After, IsSorted, has, Healthy, spawn-Healthy,
}
use fcgi_cpp_appserver.MainProcess.Rounds.{IsPlain, round-Healthy, reap-Healthy}

-- From the constructor on: functions are added before there are workers.
pub data Reached : Main → Type 0 where
  created : Reached create
  added :
      {p : Main} (f min_workers : ℕ)
      → Reached p
      → p.workers ≡ []
      → min_workers < size_t
      → Reached (add_function p f min_workers)
  spawned :
      {p : Main} (fork : ℕ → Option ℕ)
      → Reached p
      → IsFresh fork 0 p.workers
      → Reached (spawn fork p)
  ran :
      {p : Main} (signalled : Bool) (e : Event)
      → Reached p
      → IsPlain p e
      → Reached (round p signalled e).main

After-add_entry : (k f w : ℕ) (es : List Entry) → k < f → After k es → After k (add_entry f w es)
unfolding add_entry
After-add_entry k f w [] l a = (l, tt)
After-add_entry k f w (e ∷ es) l a = ground (arith, After-add_entry k f w es l a.1)

After-lt : (k j : ℕ) (es : List Entry) → k < j → After j es → After k es
After-lt k j es l a = All-map (λ e h. omega arith) es a

add_entry-Right :
    (f w : ℕ) (es : List Entry)
    → w < size_t
    → IsSorted es
    → All (Right []) es
    → All (Right []) (add_entry f w es) × IsSorted (add_entry f w es)
unfolding add_entry
add_entry-Right f w [] b s r = (((refl, omega arith, b), tt), (tt, tt))
add_entry-Right f w (e ∷ es) b s r = ground (
  arith,
  add_entry-Right f w es b s.1 r.1,
  After-add_entry e.function f w es,
  After-lt f e.function es,
)

add-Healthy :
    (f w : ℕ) (p : Main) → p.workers ≡ [] → w < size_t → Healthy p → Healthy (add_function p f w)
unfolding add_function
add-Healthy f w p none_yet b v =
    let r =
      add_entry-Right f w p.functions b v.sorted
        (subst (λ (ws : Workers). All (Right ws) p.functions) none_yet v.right) in
    record {
      right =
          subst (λ (ws : Workers). All (Right ws) (add_entry f w p.functions)) (sym none_yet) r.0;
      sorted = r.1;
      known =
          subst (λ (ws : Workers). AllOf (λ g. has g (add_entry f w p.functions) ≡ true) ws)
            (sym none_yet) tt;
    }

-- In every state that is reached, if the freed node of a worker still holds its function and `fork`
-- gives fresh process ids: each function's number is that of its workers, at most as many as are
-- wanted, and each worker has an entry.
pub Reached-Healthy : {p : Main} → Reached p → Healthy p
unfolding create
Reached-Healthy created = record { right = tt; sorted = tt; known = tt }
Reached-Healthy (added {p} f w r none_yet b) = add-Healthy f w p none_yet b (Reached-Healthy r)
Reached-Healthy (spawned {p} fork r fresh) = spawn-Healthy fork p fresh (Reached-Healthy r)
Reached-Healthy (ran {p} signalled e r h) = round-Healthy p signalled e h (Reached-Healthy r)

module _ (fork : ℕ → Option ℕ) (succeeds : (n : ℕ) → ¬ (fork n ≡ none)) where
  fill_succeeds :
      (missing f running : ℕ) (ws : Workers) (n : ℕ)
      → (fill fork missing f running ws n).failed ≡ false
  unfolding fill
  fill_succeeds zero f running ws n = refl
  fill_succeeds (suc missing) f running ws n = elim (Option-cases (fork n)) [
    | inl e ↦ absurd (succeeds n e)
    | inr (pid, e) ↦ rw (e, fill) (fill_succeeds missing f (running + 1) (insert pid f ws) (n + 1))
  ]

  fill_full :
      (missing f running : ℕ) (ws : Workers) (n : ℕ)
      → (fill fork missing f running ws n).running ≡ running + missing
  unfolding fill
  fill_full zero f running ws n = omega arith
  fill_full (suc missing) f running ws n = elim (Option-cases (fork n)) [
    | inl e ↦ absurd (succeeds n e)
    | inr (pid, e) ↦
        rw (e, fill) (omega (arith, fill_full missing f (running + 1) (insert pid f ws) (n + 1)))
  ]

  spawn_all_full :
      (es : List Entry) (ws ws' : Workers) (n : ℕ)
      → All (Right ws') es
      → All (λ e. e.running ≡ e.wanted) (spawn_all fork es ws n).functions
  unfolding spawn_all
  spawn_all_full [] ws ws' n r = tt
  spawn_all_full (e ∷ es) ws ws' n r =
      let filled = fill fork (e.wanted - e.running) e.function e.running ws n in
      let full = fill_full (e.wanted - e.running) e.function e.running ws n in
      rw (fill_succeeds (e.wanted - e.running) e.function e.running ws n)
        (omega (arith, full, r.0.1), spawn_all_full es filled.workers ws' filled.forks r.1)

counted_full :
    (ws : Workers) (es : List Entry)
    → All (Right ws) es
    → All (λ e. e.running ≡ e.wanted) es
    → All (λ e. count e.function ws ≡ e.wanted) es
counted_full ws [] r h = tt
counted_full ws (e ∷ es) r h = (sym r.0.0 ∙ h.0, counted_full ws es r.1 h.1)

round_full :
    (p : Main) (signalled : Bool) (e : Event)
    → e.exiting ≡ false
    → ((n : ℕ) → ¬ (e.fork n ≡ none))
    → Healthy (reap e.waited e.freed p)
    → All (λ x. x.running ≡ x.wanted) (round p signalled e).main.functions
unfolding round spawn
round_full p signalled e goes_on ok reaped =
    let q = reap e.waited e.freed p in
    rw goes_on (spawn_all_full e.fork ok q.functions q.workers q.workers 0 reaped.right)

-- A round that is not told to exit, in which no `fork` fails and each makes a process of a number that no
-- worker has, leaves as many workers of each function as are wanted, in a table that is reached by such
-- rounds, and if the entry of a worker that has been freed still holds its function as it is read.
pub round_respawns :
    (p : Main) (signalled : Bool) (e : Event)
    → Reached p
    → IsPlain p e
    → e.exiting ≡ false
    → ((n : ℕ) → ¬ (e.fork n ≡ none))
    → All
        (λ x. count x.function (round p signalled e).main.workers ≡ x.wanted)
        (round p signalled e).main.functions
round_respawns p signalled e r h goes_on ok =
    let v = Reached-Healthy r in
    let reaped = reap-Healthy e.waited e.freed p h.still_there v in
    counted_full _ _ (round-Healthy p signalled e h v).right
      (round_full p signalled e goes_on ok reaped)
