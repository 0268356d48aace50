-- ===== src/Pool/Started.antt =====
-- What the threads of `start_maintenance_thread` and `join_maintenance_thread`, of src/db/db_pool.cpp,
-- keep.
use mathlib.Core.List.Perm
use mathlib.Core.List.{Perm}
use fcgi_cpp_appserver.Common.{
  ℕ, ◌+◌, ◌≡◌, refl, sym, subst, ap, ◌∙◌, Bool, true, false, List, [], ◌∷◌, ◌++◌, append_assoc,
  arith, total, total-append,
}
use fcgi_cpp_appserver.Pool.Startup.{
  Place, to_start, to_join, Process, unstarted, Step, moves, Runs, begins, then_step, locks_change,
}
use fcgi_cpp_appserver.Pool.Counts.{
  in_startup, in_maintenance, maintains, asks, to_push, all_to_push, bit, are_calls, IsStarted,
}
use fcgi_cpp_appserver.Pool.Kept.{Kept, KeptBy, move-Kept}

all_to_push-append :
    (xs ys : List Place) → all_to_push (xs ++ ys) ≡ all_to_push xs ++ all_to_push ys
all_to_push-append [] ys = refl
all_to_push-append (x ∷ xs) ys =
    ap (λ l. to_push x ++ l) (all_to_push-append xs ys)
    ∙ sym (append_assoc (to_push x) (all_to_push xs) (all_to_push ys))

-- A thread of the list counts for no more than a bit does.
one_of :
    (f : Place → ℕ) (xs ys : List Place) (p : Place) (n : ℕ) (b : Bool)
    → total f (xs ++ p ∷ ys) + n ≡ bit b
    → f p ≡ 1
    → (b ≡ true) × (n ≡ 0)
one_of f xs ys p n true e h = (refl, omega (arith, e, h, total-append f xs (p ∷ ys)))
one_of f xs ys p n false e h = absurd (omega (arith, e, h, total-append f xs (p ∷ ys)))

bit_zero : (b : Bool) → bit b ≡ 0 → b ≡ false
bit_zero true e = absurd (omega (arith, e))
bit_zero false e = refl

total_moved :
    (f : Place → ℕ) (xs ys made : List Place) (p p' : Place)
    → total f ((xs ++ p' ∷ ys) ++ made) + f p ≡ total f (xs ++ p ∷ ys) + (f p' + total f made)
total_moved f xs ys made p p' = omega (
  arith,
  total-append f (xs ++ p' ∷ ys) made,
  total-append f xs (p' ∷ ys),
  total-append f xs (p ∷ ys),
)

pub Step-IsStarted :
    (callers : List Place) {p q : Process} → Step p q → IsStarted callers p → IsStarted callers q
Step-IsStarted callers (moves {sh} {sh'} {p'} {made} xs p ys e) v =
    let kept : Kept sh p sh' p' made = subst (KeptBy sh p) e (
      move-Kept sh p
        (λ h. (one_of in_startup xs ys p 0 sh.startup_locked (omega (arith, v.startup)) h).0)
        (λ h.
          (one_of in_maintenance xs ys p 0 sh.maintenance_locked (omega (arith, v.maintenance))
            h).0)
        (λ h.
          bit_zero sh.ended
            (one_of maintains xs ys p (bit sh.ended) sh.running v.one_thread h).1)) in
    record {
      startup = omega (arith, kept.startup, v.startup, total_moved in_startup xs ys made p p');
      maintenance =
          omega
            (arith, kept.maintenance, v.maintenance, total_moved in_maintenance xs ys made p p');
      one_thread =
          omega (arith, kept.one_thread, v.one_thread, total_moved maintains xs ys made p p');
      asked = omega (arith, kept.asked, v.asked, total_moved asks xs ys made p p');
      registered =
          Perm.trans
            (subst (λ l. Perm (sh'.pools ++ l) (sh.pools ++ all_to_push (xs ++ p ∷ ys)))
              (sym (
                all_to_push-append (xs ++ p' ∷ ys) made
                ∙ ap (λ l. l ++ all_to_push made) (all_to_push-append xs (p' ∷ ys))))
              (subst
                (λ l.
                  Perm
                    (sh'.pools
                      ++ ((all_to_push xs ++ (to_push p' ++ all_to_push ys)) ++ all_to_push made))
                    (sh.pools ++ l))
                (sym (all_to_push-append xs (p ∷ ys)))
                (kept.registered (all_to_push xs) (all_to_push ys))))
            v.registered;
    }

call_counts :
    (callers : List Place)
    → are_calls callers ≡ true
    → (total in_startup callers ≡ 0)
      × (total in_maintenance callers ≡ 0)
      × (total maintains callers ≡ 0)
call_counts [] h = (refl, refl, refl)
call_counts (to_start pool ∷ ps) h =
    let (a, b, c) = call_counts ps h in (omega (arith, a), omega (arith, b), omega (arith, c))
call_counts (to_join ∷ ps) h =
    let (a, b, c) = call_counts ps h in (omega (arith, a), omega (arith, b), omega (arith, c))
call_counts (_ ∷ ps) h = absurd (cc)

-- However calls that start and join the maintenance thread take turns: each of the two mutexes has at
-- most one owner, the thread is created at most once, each pool is put on the list exactly once, and no
-- more calls create the thread than ask whether it runs.
pub Runs-IsStarted :
    {callers : List Place} {p : Process}
    → are_calls callers ≡ true
    → Runs callers p
    → IsStarted callers p
unfolding unstarted
Runs-IsStarted {callers} h begins =
    let (a, b, c) = call_counts callers h in
    record {
      startup = a;
      maintenance = b;
      one_thread = omega (arith, c);
      asked = omega arith;
      registered = Perm.refl _;
    }
Runs-IsStarted {callers} h (then_step r s) = Step-IsStarted callers s (Runs-IsStarted h r)
Runs-IsStarted {callers} h (locks_change locked r) =
    let v = Runs-IsStarted h r in
    record {
      startup = v.startup;
      maintenance = v.maintenance;
      one_thread = v.one_thread;
      asked = v.asked;
      registered = v.registered;
    }
