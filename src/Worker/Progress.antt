-- ===== src/Worker/Progress.antt =====
-- Whether the threads of `fcgi_server::run`, of src/server/fcgi_server.cpp, can go on.
use fcgi_cpp_appserver.Common.{
  ◌≡◌, refl, ap, ◌∙◌, Bool, true, false, Option, none, some, List, [], ◌∷◌, ◌++◌, arith, inl, inr,
  Bool-cases, replicate, Among, Among-cons, is_some,
}
use fcgi_cpp_appserver.Common.Dict.{All}
use fcgi_cpp_appserver.Server.{Server}
use fcgi_cpp_appserver.Worker.{Env, Handle, Served, serve, finished, terminated}
use fcgi_cpp_appserver.Worker.Once.{Runs-IsServed}
use fcgi_cpp_appserver.Worker.Counts.{holds, holders, lock_count}
use fcgi_cpp_appserver.Worker.Threads.{
  Place, looping, waiting, accepting, failed, returned, holding, serving, hanging, Shared, move,
  Process, run, num_workers, moves, exits, Runs, starts, then_step,
}

-- Whether each thread has returned, or is in a handler that does not.
abbrev pub all_over : List Place → Bool
all_over [] = true
all_over (returned ∷ ps) = all_over ps
all_over (hanging r ∷ ps) = all_over ps
all_over (_ ∷ ps) = false

abbrev pub is_returned : Place → Bool
is_returned returned = true
is_returned _ = false

abbrev is_over : Place → Bool
is_over returned = true
is_over (hanging r) = true
is_over _ = false

holder : (ps : List Place) → holders ps ≡ 1 → Among ps (λ p. holds p ≡ 1)
holder [] h = absurd (omega (arith, h))
holder (looping ∷ ps) h = Among-cons looping ps _ (holder ps (omega (arith, h)))
holder (waiting ∷ ps) h = Among-cons waiting ps _ (holder ps (omega (arith, h)))
holder (hanging r ∷ ps) h = Among-cons (hanging r) ps _ (holder ps (omega (arith, h)))
holder (serving r ∷ ps) h = Among-cons (serving r) ps _ (holder ps (omega (arith, h)))
holder (returned ∷ ps) h = Among-cons returned ps _ (holder ps (omega (arith, h)))
holder (accepting ∷ ps) h = ([], accepting, ps, refl, refl)
holder (failed ∷ ps) h = ([], failed, ps, refl, refl)
holder (holding r ∷ ps) h = ([], holding r, ps, refl, refl)

left_over : (ps : List Place) → all_over ps ≡ false → Among ps (λ p. is_over p ≡ false)
left_over [] h = absurd (cc)
left_over (looping ∷ ps) h = ([], looping, ps, refl, refl)
left_over (waiting ∷ ps) h = ([], waiting, ps, refl, refl)
left_over (serving r ∷ ps) h = ([], serving r, ps, refl, refl)
left_over (returned ∷ ps) h = Among-cons returned ps _ (left_over ps h)
left_over (hanging r ∷ ps) h = Among-cons (hanging r) ps _ (left_over ps h)
left_over (accepting ∷ ps) h = ([], accepting, ps, refl, refl)
left_over (failed ∷ ps) h = ([], failed, ps, refl, refl)
left_over (holding r ∷ ps) h = ([], holding r, ps, refl, refl)

module _ (handle : Handle) (s : Server) where
  -- The thread can take its next step, where accepting does not fail and the
  -- handler returns.
  abbrev pub CanMove : Shared → Place → Type 0
  CanMove sh p = is_some (move handle s false sh p) ≡ true

  answers_on :
      (sh : Shared) (r : Env) (out : Served)
      → is_some {A = Shared × Place} (elim out as (λ _. Option (Shared × Place)) [
        | finished text ↦ some (record sh { answered = sh.answered ++ (r, text) ∷ [] }, looping)
        | terminated ↦ some (record sh { dead = true }, serving r)
      ])
        ≡ true
  answers_on sh r (finished text) = refl
  answers_on sh r terminated = refl

  -- What a thread that is not at its end needs.
  can_move :
      (sh : Shared) (p : Place) (r : Env) (rest : List Env)
      → sh.dead ≡ false
      → sh.queue ≡ r ∷ rest
      → is_over p ≡ false
      → (sh.locked ≡ true → holds p ≡ 1)
      → CanMove sh p
  unfolding move
  can_move sh looping r rest d q n l = rw d refl
  can_move sh waiting r rest d q n l = elim (Bool-cases sh.locked) [
    | inl locked ↦ absurd (omega (arith, l locked))
    | inr free ↦ rw (d, free) refl
  ]
  can_move sh accepting r rest d q n l = rw (d, q) refl
  can_move sh failed r rest d q n l = rw d refl
  can_move sh (holding t) r rest d q n l = rw d refl
  can_move sh (serving t) r rest d q n l = rw d (answers_on sh t (serve handle s t))
  can_move sh (hanging t) r rest d q n l = absurd (cc)
  can_move sh returned r rest d q n l = absurd (cc)

  not_at_end : (p : Place) → holds p ≡ 1 → is_over p ≡ false
  not_at_end returned h = absurd (omega (arith, h))
  not_at_end (hanging r) h = absurd (omega (arith, h))
  not_at_end looping h = refl
  not_at_end waiting h = refl
  not_at_end accepting h = refl
  not_at_end failed h = refl
  not_at_end (holding r) h = refl
  not_at_end (serving r) h = refl

  -- The loops of the threads never block each other: while a request waits to be accepted, no exception
  -- has ended the process, and some thread has not returned and is not in a handler that does not
  -- return, there is a thread that can take its next step, be it a handler's return.
  pub Runs-moves :
      {p : Process} (r : Env) (rest : List Env)
      → Runs handle s p
      → p.shared.dead ≡ false
      → p.shared.queue ≡ r ∷ rest
      → all_over p.threads ≡ false
      → Among p.threads (CanMove p.shared)
  Runs-moves {p} r rest runs d q left = elim (Bool-cases p.shared.locked) [
    | inl locked ↦
        let (xs, t, ys, e, h) =
          holder p.threads ((Runs-IsServed handle s runs).exclusive ∙ ap lock_count locked) in
        (xs, t, ys, e, can_move p.shared t r rest d q (not_at_end t h) (λ l. h))
    | inr free ↦
        let (xs, t, ys, e, h) = left_over p.threads left in
        (xs, t, ys, e, can_move p.shared t r rest d q h (λ l. absurd (cc)))
  ]

  abbrev pub sharing : Bool → Bool → Shared
  sharing locked exiting = record {
    locked = locked;
    exiting = exiting;
    dead = false;
    queue = [];
    arrived = [];
    accepted = [];
    answered = [];
  }

  abbrev stage : List Place → Bool → Bool → Process
  stage ps locked exiting = record { threads = ps; shared = sharing locked exiting }

  -- A thread goes from the head of its loop to the mutex.
  waits :
      (xs ys : List Place)
      → Runs handle s (stage (xs ++ looping ∷ ys) false false)
      → Runs handle s (stage (xs ++ waiting ∷ ys) false false)
  unfolding move
  waits xs ys r = then_step r (moves xs looping ys false refl)

  all_waiting : Runs handle s (stage (replicate num_workers waiting) false false)
  unfolding run
  all_waiting = waits (waiting ∷ waiting ∷ waiting ∷ waiting ∷ []) [] (
      waits (waiting ∷ waiting ∷ waiting ∷ []) (looping ∷ []) (
        waits (waiting ∷ waiting ∷ []) (looping ∷ looping ∷ []) (
          waits (waiting ∷ []) (looping ∷ looping ∷ looping ∷ [])
            (waits [] (looping ∷ looping ∷ looping ∷ looping ∷ []) starts))))

  -- The first thread in `FCGX_Accept_r`, the others in front of the mutex.
  abbrev pub asleep : List Place
  asleep = accepting ∷ waiting ∷ waiting ∷ waiting ∷ waiting ∷ []

  all_asleep : Runs handle s (stage asleep true true)
  unfolding move
  all_asleep =
      then_step
        (then_step all_waiting
          (moves [] waiting (waiting ∷ waiting ∷ waiting ∷ waiting ∷ []) false refl))
        exits

  -- `exit` is of no use to a server that waits for requests: a process is reached that has been told to
  -- exit, and in which no thread has returned, and none can take its next step, before another request
  -- arrives.
  pub exit_blocks :
      (p : Process) × Runs handle s p
      × (p.shared.exiting ≡ true)
      × All (λ t. is_returned t ≡ false) p.threads
      × All (λ t. move handle s false p.shared t ≡ none) p.threads
  unfolding move
  exit_blocks = (
    stage asleep true true,
    all_asleep,
    refl,
    (refl, (refl, (refl, (refl, (refl, tt))))),
    (refl, (refl, (refl, (refl, (refl, tt))))),
  )
