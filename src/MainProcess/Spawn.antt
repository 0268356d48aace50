-- ===== src/MainProcess/Spawn.antt =====
-- What `spawn` keeps: the numbers of running workers are right.
use fcgi_cpp_appserver.Common.{
  ℕ, zero, suc, ◌+◌, ◌-◌, ◌≤◌, ◌<◌, ◌≡◌, refl, sym, ◌∙◌, ap, Bool, true, false, Option, none, some,
  List, [], ◌∷◌, ◌==◌, ◌||◌, arith, inl, inr, Bool-cases, Option-cases,
}
use fcgi_cpp_appserver.Common.Dict.{All, All-map}
use fcgi_cpp_appserver.MainProcess.{
  Workers, Entry, Main, insert, find, Filled, Spawned, fill, spawn_all, spawn,
}
use fcgi_cpp_appserver.MainProcess.Workers.{count, count-insert, find-insert, AllOf, AllOf-insert}

-- A process id that `fork` gives is of no worker, and is given once.
pub record IsFresh (fork : ℕ → Option ℕ) (n : ℕ) (ws : Workers) : Type 0 where
  pub unused : (k pid : ℕ) → n ≤ k → fork k ≡ some pid → find pid ws ≡ none
  pub once : (j k pid : ℕ) → j < k → fork j ≡ some pid → ¬ (fork k ≡ some pid)

-- A `size_t` is below this.
abbrev pub size_t : ℕ
size_t = 18446744073709551616

-- An entry whose number is right, and that has not too many workers.
abbrev pub Right : Workers → Entry → Type 0
Right ws e = (e.running ≡ count e.function ws) × (e.running ≤ e.wanted) × (e.wanted < size_t)

-- The functions in their order.
abbrev pub After : ℕ → List Entry → Type 0
After f = All (λ e. f < e.function)

abbrev pub IsSorted : List Entry → Type 0
IsSorted [] = Unit
IsSorted (e ∷ es) = After e.function es × IsSorted es

module _ (fork : ℕ → Option ℕ) where
  IsFresh-insert :
      (n pid f : ℕ) (ws : Workers)
      → IsFresh fork n ws
      → fork n ≡ some pid
      → IsFresh fork (n + 1) (insert pid f ws)
  IsFresh-insert n pid f ws h e = record {
    unused = λ k other le g.
        find-insert pid f other ws (h.unused k other (omega arith) g)
          (λ same. h.once n k pid (omega arith) e (g ∙ ap some (sym same)));
    once = h.once;
  }

  -- What the loop over a function does to the workers.
  record Fills (missing f running : ℕ) (ws : Workers) (r : Filled) : Type 0 where
    counted : r.running + count f ws ≡ running + count f r.workers
    bounded : r.running ≤ running + missing
    others : (g : ℕ) → ¬ (f ≡ g) → count g r.workers ≡ count g ws
    fresh : IsFresh fork r.forks r.workers
    full : r.failed ≡ false → r.running ≡ running + missing

  fill-Fills :
      (missing f running : ℕ) (ws : Workers) (n : ℕ)
      → IsFresh fork n ws
      → Fills missing f running ws (fill fork missing f running ws n)
  unfolding fill
  fill-Fills zero f running ws n h = record {
    counted = refl;
    bounded = omega arith;
    others = λ g other. refl;
    fresh = h;
    full = λ e. omega arith;
  }
  fill-Fills (suc missing) f running ws n h = elim (Option-cases (fork n)) [
    | inl failed ↦
        rw (failed, fill)
          (record {
            counted = refl;
            bounded = omega arith;
            others = λ g other. refl;
            fresh = record { unused = λ k pid le. h.unused k pid (omega arith); once = h.once };
            full = λ e. absurd (cc);
          })
    | inr (pid, e) ↦
        let ih =
          fill-Fills missing f (running + 1) (insert pid f ws) (n + 1)
            (IsFresh-insert n pid f ws h e) in
        let new = count-insert pid f f ws (h.unused n pid (omega arith) e) in
        rw (e, fill)
          (record {
            counted = ground (arith, ih.counted, new);
            bounded = omega (arith, ih.bounded);
            others = λ g other. ground (
              arith,
              ih.others g other,
              count-insert pid f g ws (h.unused n pid (omega arith) e),
              other,
            );
            fresh = ih.fresh;
            full = λ k. omega (arith, ih.full k);
          })
  ]

  -- What `spawn_all` does.
  record Spawns (es : List Entry) (ws : Workers) (r : Spawned) : Type 0 where
    right : All (Right r.workers) r.functions
    others : (g : ℕ) → All (λ e. ¬ (e.function ≡ g)) es → count g r.workers ≡ count g ws
    sorted : (f : ℕ) → After f es → After f r.functions
    in_order : IsSorted r.functions

  Right-others :
      (f : ℕ) (ws ws' : Workers) (es : List Entry)
      → ((g : ℕ) → ¬ (f ≡ g) → count g ws' ≡ count g ws)
      → After f es
      → All (Right ws) es
      → All (Right ws') es
  Right-others f ws ws' [] o a h = tt
  Right-others f ws ws' (e ∷ es) o a h = (
    (h.0.0 ∙ sym (o e.function (λ same. absurd (omega arith))), h.0.1, h.0.2),
    Right-others f ws ws' es o a.1 h.1,
  )

  After-others : (f : ℕ) (es : List Entry) → After f es → All (λ e. ¬ (e.function ≡ f)) es
  After-others f [] a = tt
  After-others f (e ∷ es) a = (λ same. absurd (omega arith), After-others f es a.1)

  spawn_all-Spawns :
      (es : List Entry) (ws : Workers) (n : ℕ)
      → IsFresh fork n ws
      → IsSorted es
      → All (Right ws) es
      → Spawns es ws (spawn_all fork es ws n)
  unfolding spawn_all
  spawn_all-Spawns [] ws n h s rs = record {
    right = tt;
    others = λ g other. refl;
    sorted = λ f a. tt;
    in_order = tt;
  }
  spawn_all-Spawns (e ∷ es) ws n h s rs =
      let r = fill fork (e.wanted - e.running) e.function e.running ws n in
      let fills = fill-Fills (e.wanted - e.running) e.function e.running ws n h in
      let here : Right r.workers (record e { running = r.running }) =
        (omega (arith, fills.counted, rs.0.0), omega (arith, fills.bounded, rs.0.1), rs.0.2) in
      let kept = Right-others e.function ws r.workers es fills.others s.0 rs.1 in
      elim (Bool-cases r.failed) [
        | inl failed ↦ rw failed (record {
          right = (here, kept);
          others = λ g other. fills.others g other.0;
          sorted = λ f a. a;
          in_order = s;
        })
        | inr ok ↦ rw ok (
            let ih = spawn_all-Spawns es r.workers r.forks fills.fresh s.1 kept in
            let same = ih.others e.function (After-others e.function es s.0) in
            record {
              right = ((here.0 ∙ sym same, here.1, here.2), ih.right);
              others = λ g other. ih.others g other.1 ∙ fills.others g other.0;
              sorted = λ f a. (a.0, ih.sorted f a.1);
              in_order = (ih.sorted e.function s.0, ih.in_order);
            })
      ]

  fill-AllOf :
      (P : ℕ → Type 0) (missing f running : ℕ) (ws : Workers) (n : ℕ)
      → P f
      → AllOf P ws
      → AllOf P (fill fork missing f running ws n).workers
  unfolding fill
  fill-AllOf P zero f running ws n p h = h
  fill-AllOf P (suc missing) f running ws n p h = elim (Option-cases (fork n)) [
    | inl failed ↦ rw (failed, fill) h
    | inr (pid, e) ↦
        rw (e, fill)
          (fill-AllOf P missing f (running + 1) (insert pid f ws) (n + 1) p
            (AllOf-insert P pid f ws p h))
  ]

  spawn_all-AllOf :
      (P : ℕ → Type 0) (es : List Entry) (ws : Workers) (n : ℕ)
      → All (λ e. P e.function) es
      → AllOf P ws
      → AllOf P (spawn_all fork es ws n).workers
  unfolding spawn_all
  spawn_all-AllOf P [] ws n p h = h
  spawn_all-AllOf P (e ∷ es) ws n p h =
      let r = fill fork (e.wanted - e.running) e.function e.running ws n in
      let kept = fill-AllOf P (e.wanted - e.running) e.function e.running ws n p.0 h in
      elim (Bool-cases r.failed) [
        | inl failed ↦ rw failed kept
        | inr ok ↦ rw ok (spawn_all-AllOf P es r.workers r.forks p.1 kept)
      ]

-- Whether a function has an entry.
abbrev pub has : ℕ → List Entry → Bool
has f [] = false
has f (e ∷ es) = e.function == f || has f es

pub has_each : (es : List Entry) → All (λ e. has e.function es ≡ true) es
has_each [] = tt
has_each (e ∷ es) = (ground arith, All-map (λ x h. ground (arith, h)) es (has_each es))

spawn_all-has :
    (fork : ℕ → Option ℕ) (f : ℕ) (es : List Entry) (ws : Workers) (n : ℕ)
    → has f (spawn_all fork es ws n).functions ≡ has f es
unfolding spawn_all
spawn_all-has fork f [] ws n = refl
spawn_all-has fork f (e ∷ es) ws n =
    let r = fill fork (e.wanted - e.running) e.function e.running ws n in
    elim (Bool-cases r.failed) [
      | inl failed ↦ rw failed refl
      | inr ok ↦ rw ok (rw (spawn_all-has fork f es r.workers r.forks) refl)
    ]

-- The state of the main process: the number of each entry is right, and each worker has an entry.
pub record Healthy (p : Main) : Type 0 where
  pub right : All (Right p.workers) p.functions
  pub sorted : IsSorted p.functions
  pub known : AllOf (λ f. has f p.functions ≡ true) p.workers

pub spawn-Healthy :
    (fork : ℕ → Option ℕ) (p : Main) → IsFresh fork 0 p.workers → Healthy p → Healthy (spawn fork p)
unfolding spawn
spawn-Healthy fork p h v =
    let s = spawn_all-Spawns fork p.functions p.workers 0 h v.sorted v.right in
    record {
      right = s.right;
      sorted = s.in_order;
      known =
          All-map (λ w k. spawn_all-has fork w.1 p.functions p.workers 0 ∙ k) _
            (spawn_all-AllOf fork (λ f. has f p.functions ≡ true) p.functions p.workers 0
              (has_each p.functions) v.known);
    }
