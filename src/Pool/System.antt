-- ===== src/Pool/System.antt =====
-- The threads that share a `DBPool`, as steps.
use mathlib.Core.List.Perm
use mathlib.Core.List.Pairwise
use fcgi_cpp_appserver.Common.{ℕ, ◌≡◌, refl, ◌+◌, subst, Option, some, List, [], ◌∷◌, ◌++◌, arith}
use fcgi_cpp_appserver.Pool.{Pool, got, waits, throws, create, get, get_woken, put, maintain}
use fcgi_cpp_appserver.Pool.Owners.{
  Owns, OwnsGot, get-OwnsGot, get_woken-OwnsGot, IsFresh, put-OwnsNext, OwnsNext,
}
use fcgi_cpp_appserver.Pool.Maintenance.{MaintainedWell, kept, maintain-MaintainedWell}

-- The pool, the connections that callers have, and how many threads wait on `m_not_empty`.
pub record System : Type 0 where
  pub pool : Pool
  pub lent : List ℕ
  pub waiting : ℕ

pub data Step : System → System → Type 0 where
  gets :
      {p q : Pool} {lent : List ℕ} {n c : ℕ} (connected : Option ℕ) (now : ℕ)
      → IsFresh connected p.live
      → get p connected now ≡ got c q
      → Step
          (record { pool = p; lent = lent; waiting = n })
          (record { pool = q; lent = c ∷ lent; waiting = n })
  sleeps :
      {p q : Pool} {lent : List ℕ} {n : ℕ} (connected : Option ℕ) (now : ℕ)
      → IsFresh connected p.live
      → get p connected now ≡ waits q
      → Step
          (record { pool = p; lent = lent; waiting = n })
          (record { pool = q; lent = lent; waiting = n + 1 })
  fails :
      {p q : Pool} {lent : List ℕ} {n : ℕ} (connected : Option ℕ) (now : ℕ)
      → IsFresh connected p.live
      → get p connected now ≡ throws q
      → Step
          (record { pool = p; lent = lent; waiting = n })
          (record { pool = q; lent = lent; waiting = n })
  wakes :
      {p q : Pool} {lent : List ℕ} {n c : ℕ} (now : ℕ)
      → get_woken p now ≡ got c q
      → Step
          (record { pool = p; lent = lent; waiting = n + 1 })
          (record { pool = q; lent = c ∷ lent; waiting = n })
  puts :
      {p q : Pool} {n : ℕ} (c : ℕ) (xs ys : List ℕ) (now : ℕ)
      → put p c now ≡ some q
      → Step
          (record { pool = p; lent = xs ++ c ∷ ys; waiting = n })
          (record { pool = q; lent = xs ++ ys; waiting = n })
  maintains :
      {p q : Pool} {lent : List ℕ} {n : ℕ} (now : ℕ)
      → maintain p now ≡ some q
      → Step
          (record { pool = p; lent = lent; waiting = n })
          (record { pool = q; lent = lent; waiting = n })

-- What the steps can make of a new pool.
pub data Runs (min max : ℕ) : System → Type 0 where
  starts : Runs min max (record { pool = create min max; lent = []; waiting = 0 })
  then_step : {s t : System} → Runs min max s → Step s t → Runs min max t

pub create-Owns : (min max : ℕ) → Owns (create min max) []
unfolding create
create-Owns min max = record {
  available_counted = refl;
  counted = refl;
  bounded = ground arith;
  owned = Perm.nil;
  distinct = Pairwise.nil;
}

maintained : {p q : Pool} {lent : List ℕ} → MaintainedWell p lent (some q) → Owns q lent
maintained (kept q o) = o

Step-Owns : {s t : System} → Step s t → Owns s.pool s.lent → Owns t.pool t.lent
Step-Owns (gets {p} {q} {lent} connected now fresh e) o =
    subst (OwnsGot lent) e (get-OwnsGot p lent o connected now fresh)
Step-Owns (sleeps {p} {q} {lent} connected now fresh e) o =
    subst (OwnsGot lent) e (get-OwnsGot p lent o connected now fresh)
Step-Owns (fails {p} {q} {lent} connected now fresh e) o =
    subst (OwnsGot lent) e (get-OwnsGot p lent o connected now fresh)
Step-Owns (wakes {p} {q} {lent} now e) o = subst (OwnsGot lent) e (get_woken-OwnsGot p lent o now)
Step-Owns (puts {p} {q} c xs ys now e) o =
    subst (OwnsNext (xs ++ ys)) e (put-OwnsNext p xs ys c now o)
Step-Owns (maintains {p} {q} {lent} now e) o =
    maintained (subst (MaintainedWell p lent) e (maintain-MaintainedWell p lent o now))

-- In every state that the threads can reach, if a new connection is none that is alive, every
-- connection that is alive is available or lent to one caller, and never both; `m_num_available`
-- counts the available ones, `m_num_connections` all of them, and there are at most
-- `m_max_connections`.
pub Runs-Owns : {min max : ℕ} {s : System} → Runs min max s → Owns s.pool s.lent
Runs-Owns {min} {max} starts = create-Owns min max
Runs-Owns (then_step runs step) = Step-Owns step (Runs-Owns runs)
