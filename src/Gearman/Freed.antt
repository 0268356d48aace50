-- ===== src/Gearman/Freed.antt =====
-- What src/server/gearman_client.h and src/server/gearman_worker.h free.
use fcgi_cpp_appserver.Common.{
  ℕ, ◌+◌, ◌≡◌, refl, Bool, true, false, not, ◌&&◌, Option, none, some, List, [], ◌∷◌, ◌++◌,
  if◌then◌else◌, arith, total, total-append,
}
use fcgi_cpp_appserver.Common.Bytes.{Bytes}
use fcgi_cpp_appserver.Gearman.{
  Library, Act, creates, frees, Outcome, gives, throws, client, worker, block,
}

abbrev pub acts_of {ℓ} : {A : Type ℓ} → Outcome A → List Act
acts_of (gives acts a) = acts
acts_of (throws acts e) = acts

abbrev pub is_create : Act → ℕ
is_create creates = 1
is_create _ = 0

abbrev pub is_free : Act → ℕ
is_free frees = 1
is_free _ = 0

-- A block's body neither creates nor frees.
abbrev pub IsBody {ℓ} : {A : Type ℓ} → Outcome A → Type 0
IsBody body = (total is_create (acts_of body) ≡ 0) × (total is_free (acts_of body) ≡ 0)

-- What is created is freed, but for what a constructor has created that throws then.
abbrev pub left_over : Library → Bytes → ℕ → ℕ
left_over lib host port = if lib.create && not (lib.add_server host port) then 1 else 0

abbrev succeeds {ℓ} : {A : Type ℓ} → Outcome A → ℕ
succeeds (gives acts a) = 1
succeeds (throws acts e) = 0

-- What a constructor does on its own: it frees nothing.
abbrev Starts : ℕ → Outcome (Unit {0}) → Type 0
Starts n start =
    (total is_create (acts_of start) ≡ succeeds start + n) × (total is_free (acts_of start) ≡ 0)

abbrev Balanced {ℓ} : {A : Type ℓ} → ℕ → Outcome A → Type 0
Balanced n run = total is_create (acts_of run) ≡ total is_free (acts_of run) + n

block-Balanced {ℓ} :
    {A : Type ℓ} (n : ℕ) (start : Outcome (Unit {0})) (body : Outcome A)
    → Starts n start
    → IsBody body
    → Balanced n (block start body)
unfolding block
block-Balanced n (throws acts e) body s h = omega (arith, s)
block-Balanced n (gives acts a) (gives more b) s h = omega (
  arith,
  s,
  h,
  total-append is_create acts (more ++ frees ∷ []),
  total-append is_free acts (more ++ frees ∷ []),
  total-append is_create more (frees ∷ []),
  total-append is_free more (frees ∷ []),
)
block-Balanced n (gives acts a) (throws more e) s h = omega (
  arith,
  s,
  h,
  total-append is_create acts (more ++ frees ∷ []),
  total-append is_free acts (more ++ frees ∷ []),
  total-append is_create more (frees ∷ []),
  total-append is_free more (frees ∷ []),
)

client-Starts :
    (lib : Library) (host : Bytes) (port : ℕ) (timeout : Option ℕ) (made added : Bool)
    → lib.create ≡ made
    → lib.add_server host port ≡ added
    → Starts (left_over lib host port) (client lib host port timeout)
unfolding client
client-Starts lib host port timeout false added c a = rw c (refl, refl)
client-Starts lib host port timeout true false c a = rw (c, a) (refl, refl)
client-Starts lib host port none true true c a = rw (c, a) (refl, refl)
client-Starts lib host port (some t) true true c a = rw (c, a) (refl, refl)

worker-Starts :
    (lib : Library) (host : Bytes) (port : ℕ) (made added : Bool)
    → lib.create ≡ made
    → lib.add_server host port ≡ added
    → Starts (left_over lib host port) (worker lib host port)
unfolding worker
worker-Starts lib host port false added c a = rw c (refl, refl)
worker-Starts lib host port true false c a = rw (c, a) (refl, refl)
worker-Starts lib host port true true c a = rw (c, a) (refl, refl)

-- A block with a client, or with a worker, frees what it has created, however it is left; but what has
-- been created where no server can be added is never freed.
pub block-left_over {ℓ} :
    {A : Type ℓ} (lib : Library) (host : Bytes) (port : ℕ) (timeout : Option ℕ) (body : Outcome A)
    → IsBody body
    → (total is_create (acts_of (block (client lib host port timeout) body))
        ≡ total is_free (acts_of (block (client lib host port timeout) body))
          + left_over lib host port)
      × (total is_create (acts_of (block (worker lib host port) body))
          ≡ total is_free (acts_of (block (worker lib host port) body)) + left_over lib host port)
block-left_over lib host port timeout body h = (
  block-Balanced _ (client lib host port timeout) body
      (client-Starts lib host port timeout lib.create (lib.add_server host port) refl refl) h,
  block-Balanced _ (worker lib host port) body
      (worker-Starts lib host port lib.create (lib.add_server host port) refl refl) h,
)
