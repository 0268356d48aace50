-- ===== src/Worker/Once.antt =====
-- What the threads of `fcgi_server::run` keep, of src/server/fcgi_server.cpp.
use mathlib.Core.List.{perm_middle}
use mathlib.Core.List.Perm
use mathlib.Core.List.{Perm}
use fcgi_cpp_appserver.Common.{
  ◌+◌, ◌≡◌, refl, sym, subst, ap, ◌∙◌, Bool, true, false, Option, none, some, List, [], ◌∷◌, ◌++◌,
  map, if◌then◌else◌, append_assoc, append-nil, arith,
}
use fcgi_cpp_appserver.Common.Bytes.{Bytes}
use fcgi_cpp_appserver.Common.Dict.{All}
use fcgi_cpp_appserver.Server.{Server}
use fcgi_cpp_appserver.Worker.{Env, Handle, Served, serve, finished, terminated}
use fcgi_cpp_appserver.Worker.Threads.{
  Place, looping, waiting, accepting, failed, returned, holding, serving, hanging, Shared, move,
  Process, run, Step, moves, arrives, exits, Runs, starts, then_step,
}
use fcgi_cpp_appserver.Worker.Counts.{
  holds, holders, in_work, all_in_work, lock_count, IsAnswer, IsServed,
}

holders-append : (xs ys : List Place) → holders (xs ++ ys) ≡ holders xs + holders ys
holders-append [] ys = omega arith
holders-append (x ∷ xs) ys = omega (arith, holders-append xs ys)

all_in_work-append :
    (xs ys : List Place) → all_in_work (xs ++ ys) ≡ all_in_work xs ++ all_in_work ys
all_in_work-append [] ys = refl
all_in_work-append (x ∷ xs) ys =
    ap (λ l. in_work x ++ l) (all_in_work-append xs ys)
    ∙ sym (append_assoc (in_work x) (all_in_work xs) (all_in_work ys))

All-append {ℓ κ} :
    {A : Type ℓ} (P : A → Type κ) (xs : List A) (a : A) → All P xs → P a → All P (xs ++ a ∷ [])
All-append P [] a h k = (k, tt)
All-append P (x ∷ xs) a h k = (h.0, All-append P xs a h.1 k)

-- What a move of one thread leaves alone, with `as` and `bs` what the other threads have in work.
record Kept (handle : Handle) (s : Server) (sh : Shared) (p : Place) (sh' : Shared) (p' : Place)
    : Type 0 where
  mutex : holds p' + lock_count sh.locked ≡ holds p + lock_count sh'.locked
  same_arrived : sh'.arrived ≡ sh.arrived
  order : sh'.accepted ++ sh'.queue ≡ sh.accepted ++ sh.queue
  counted :
      (xs ys : List Env)
      → Perm sh.accepted ((xs ++ (in_work p ++ ys)) ++ map (λ (a : Env × Bytes). a.0) sh.answered)
      → Perm sh'.accepted
          ((xs ++ (in_work p' ++ ys)) ++ map (λ (a : Env × Bytes). a.0) sh'.answered)
  answers : All (IsAnswer handle s) sh.answered → All (IsAnswer handle s) sh'.answered

perm_last {ℓ} : {A : Type ℓ} (l : List A) (a : A) → Perm (l ++ a ∷ []) (a ∷ l)
perm_last l a = subst (λ x. Perm (l ++ a ∷ []) (a ∷ x)) (append-nil l) (perm_middle l [])

perm_inside {ℓ} :
    {A : Type ℓ} (xs ys zs : List A) (a : A) → Perm ((xs ++ a ∷ ys) ++ zs) (a ∷ ((xs ++ ys) ++ zs))
perm_inside xs ys zs a = Perm.append_right zs (perm_middle xs ys)

map_last {ℓ κ} :
    {A : Type ℓ} {B : Type κ} (f : A → B) (l : List A) (a : A)
    → map f (l ++ a ∷ []) ≡ map f l ++ f a ∷ []
map_last f [] a = refl
map_last f (b ∷ l) a = ap (λ x. f b ∷ x) (map_last f l a)

module _ (handle : Handle) (s : Server) where
  abbrev KeptBy : Shared → Place → Option (Shared × Place) → Type 0
  KeptBy sh p none = Unit
  KeptBy sh p (some (sh', p')) = Kept handle s sh p sh' p'

  -- A move that changes no more than the mutex and `dead`.
  by_mutex :
      (sh sh' : Shared) (p p' : Place)
      → holds p' + lock_count sh.locked ≡ holds p + lock_count sh'.locked
      → sh'.arrived ≡ sh.arrived
      → sh'.accepted ≡ sh.accepted
      → sh'.queue ≡ sh.queue
      → sh'.answered ≡ sh.answered
      → in_work p' ≡ in_work p
      → Kept handle s sh p sh' p'
  by_mutex sh sh' p p' m ea ec eq ed w = record {
    mutex = m;
    same_arrived = ea;
    order = rw (ec, eq) refl;
    counted = λ xs ys h. rw (ec, ed, w) h;
    answers = λ h. rw ed h;
  }

  accepts-Kept :
      (sh : Shared) (queue : List Env)
      → sh.queue ≡ queue
      → KeptBy sh accepting (elim queue [
        | [] ↦ none
        | ◌∷◌ r rest ↦
            some (record sh { queue = rest; accepted = sh.accepted ++ r ∷ [] }, holding r)
      ])
  accepts-Kept sh [] e = tt
  accepts-Kept sh (r ∷ rest) e = record {
    mutex = refl;
    same_arrived = refl;
    order = append_assoc sh.accepted (r ∷ []) rest ∙ ap (λ l. sh.accepted ++ l) (sym e);
    counted = λ xs ys h.
        Perm.trans (perm_last sh.accepted r)
          (Perm.trans (Perm.cons r h) (Perm.symm (perm_inside xs ys _ r)));
    answers = λ h. h;
  }

  serves-Kept :
      (sh : Shared) (r : Env) (out : Served)
      → serve handle s r ≡ out
      → KeptBy sh (serving r) (elim out [
        | finished text ↦ some (record sh { answered = sh.answered ++ (r, text) ∷ [] }, looping)
        | terminated ↦ some (record sh { dead = true }, serving r)
      ])
  serves-Kept sh r terminated e = by_mutex sh _ (serving r) _ refl refl refl refl refl refl
  serves-Kept sh r (finished text) e = record {
    mutex = refl;
    same_arrived = refl;
    order = refl;
    counted = λ xs ys h.
        let done = map (λ (a : Env × Bytes). a.0) sh.answered in
        subst (Perm sh.accepted)
          (append_assoc (xs ++ ys) done (r ∷ [])
            ∙ ap (λ l. (xs ++ ys) ++ l)
                (sym (map_last (λ (a : Env × Bytes). a.0) sh.answered (r, text))))
          (Perm.trans h
            (Perm.trans (perm_inside xs ys done r) (Perm.symm (perm_last ((xs ++ ys) ++ done) r))));
    answers = λ h. All-append (IsAnswer handle s) sh.answered (r, text) h e;
  }

  unless_dead :
      (dead : Bool) (sh : Shared) (p : Place) (o : Option (Shared × Place))
      → KeptBy sh p o
      → KeptBy sh p (if dead then none else o)
  unless_dead true sh p o h = tt
  unless_dead false sh p o h = h

  loops-Kept :
      (sh : Shared) (exiting : Bool)
      → KeptBy sh looping (some (sh, if exiting then returned else waiting))
  loops-Kept sh true = by_mutex sh sh looping returned refl refl refl refl refl refl
  loops-Kept sh false = by_mutex sh sh looping waiting refl refl refl refl refl refl

  locks-Kept :
      (sh : Shared) (locked : Bool)
      → sh.locked ≡ locked
      → KeptBy sh waiting (if locked then none else some (record sh { locked = true }, accepting))
  locks-Kept sh true e = tt
  locks-Kept sh false e = by_mutex sh _ waiting accepting (rw e refl) refl refl refl refl refl

  maybe_hangs :
      (fails : Bool) (sh : Shared) (r : Env) (o : Option (Shared × Place))
      → KeptBy sh (serving r) o
      → KeptBy sh (serving r) (if fails then some (sh, hanging r) else o)
  maybe_hangs true sh r o h = by_mutex sh sh (serving r) (hanging r) refl refl refl refl refl refl
  maybe_hangs false sh r o h = h

  maybe_fails :
      (fails : Bool) (sh : Shared) (o : Option (Shared × Place))
      → KeptBy sh accepting o
      → KeptBy sh accepting (if fails then some (sh, failed) else o)
  maybe_fails true sh o h = by_mutex sh sh accepting failed refl refl refl refl refl refl
  maybe_fails false sh o h = h

  -- The thread has the mutex, so that it is locked.
  unlocks-Kept :
      (sh : Shared) (p p' : Place)
      → sh.locked ≡ true
      → holds p ≡ 1
      → holds p' ≡ 0
      → in_work p' ≡ in_work p
      → Kept handle s sh p (record sh { locked = false }) p'
  unlocks-Kept sh p p' e h h' w = by_mutex sh _ p p' (rw (e, h, h') refl) refl refl refl refl w

  move-Kept :
      (fails : Bool) (sh : Shared) (p : Place)
      → (holds p ≡ 1 → sh.locked ≡ true)
      → KeptBy sh p (move handle s fails sh p)
  unfolding move
  move-Kept fails sh looping l = unless_dead sh.dead sh looping _ (loops-Kept sh sh.exiting)
  move-Kept fails sh waiting l = unless_dead sh.dead sh waiting _ (locks-Kept sh sh.locked refl)
  move-Kept fails sh accepting l =
      unless_dead sh.dead sh accepting _ (maybe_fails fails sh _ (accepts-Kept sh sh.queue refl))
  move-Kept fails sh failed l =
      unless_dead sh.dead sh failed _ (unlocks-Kept sh failed returned (l refl) refl refl refl)
  move-Kept fails sh (holding r) l =
      unless_dead sh.dead sh (holding r) _
        (unlocks-Kept sh (holding r) (serving r) (l refl) refl refl refl)
  move-Kept fails sh (serving r) l =
      unless_dead sh.dead sh (serving r) _
        (maybe_hangs fails sh r _ (serves-Kept sh r (serve handle s r) refl))
  move-Kept fails sh (hanging r) l = tt
  move-Kept fails sh returned l = tt

  has_lock :
      (xs ys : List Place) (p : Place) (locked : Bool)
      → holders (xs ++ p ∷ ys) ≡ lock_count locked
      → holds p ≡ 1
      → locked ≡ true
  has_lock xs ys p true e h = refl
  has_lock xs ys p false e h = absurd (omega (arith, e, h, holders-append xs (p ∷ ys)))

  Step-IsServed : {p q : Process} → Step handle s p q → IsServed handle s p → IsServed handle s q
  Step-IsServed (moves {sh} {sh'} {p'} xs p ys fails e) v =
      let kept : Kept handle s sh p sh' p' =
        subst (KeptBy sh p) e (move-Kept fails sh p (has_lock xs ys p sh.locked v.exclusive)) in
      record {
        exclusive = omega (
          arith,
          kept.mutex,
          v.exclusive,
          holders-append xs (p ∷ ys),
          holders-append xs (p' ∷ ys),
        );
        in_turn = kept.same_arrived ∙ v.in_turn ∙ sym kept.order;
        once =
            subst (λ l. Perm sh'.accepted (l ++ map (λ (a : Env × Bytes). a.0) sh'.answered))
              (sym (all_in_work-append xs (p' ∷ ys)))
              (kept.counted (all_in_work xs) (all_in_work ys) (
                subst (λ l. Perm sh.accepted (l ++ map (λ (a : Env × Bytes). a.0) sh.answered))
                  (all_in_work-append xs (p ∷ ys)) v.once));
        right = kept.answers v.right;
      }
  Step-IsServed (arrives {ps} {sh} r) v = record {
    exclusive = v.exclusive;
    in_turn = ap (λ l. l ++ r ∷ []) v.in_turn ∙ append_assoc sh.accepted sh.queue (r ∷ []);
    once = v.once;
    right = v.right;
  }
  Step-IsServed (exits {ps} {sh}) v = record {
    exclusive = v.exclusive;
    in_turn = v.in_turn;
    once = v.once;
    right = v.right;
  }

  -- However the server's threads take turns: at most one of them has the mutex, requests are accepted
  -- in the order in which they arrive, each that is accepted is in work at one thread or has been
  -- answered once, and each answer is what the worker thread's code makes of the request.
  pub Runs-IsServed : {p : Process} → Runs handle s p → IsServed handle s p
  unfolding run
  Runs-IsServed starts = record { exclusive = refl; in_turn = refl; once = Perm.nil; right = tt }
  Runs-IsServed (then_step r st) = Step-IsServed st (Runs-IsServed r)
