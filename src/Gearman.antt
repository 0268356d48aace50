-- ===== src/Gearman.antt =====
-- `GearmanClient`, `GearmanWorker` and `gearman_exception` of src/server/gearman_client.h,
-- src/server/gearman_worker.h and src/server/gearman.h. What libgearman gives is an argument; no text
-- holds a NUL.
pub mod Freed
use fcgi_cpp_appserver.Common.{
  ℕ, Bool, true, false, Option, none, some, List, [], ◌∷◌, ◌++◌, if◌then◌else◌,
}
use fcgi_cpp_appserver.Common.Bytes.{Bytes, codes}

-- Whether a client can be created and be given a server; what a job's handle is, with what its high
-- priority, function and workload are; whether a worker takes a function, and can work; and the text of
-- the last error.
pub record Library : Type 0 where
  pub create : Bool
  pub add_server : Bytes → ℕ → Bool
  pub do_background : Bool → Bytes → Bytes → Option Bytes
  pub add_function : Bytes → Bool
  pub work : Bool
  pub error : Bytes

-- What is done to a `gearman_client_st` or a `gearman_worker_st`.
pub data Act : Type 0 where
  creates adds_server sets_timeout frees works : Act
  runs adds_function : Bytes → Act

-- A call's end: what it has done, and the value or the message of a `gearman_exception`.
pub data Outcome {ℓ} (A : Type ℓ) : Type ℓ where
  gives : List Act → A → Outcome A
  throws : List Act → Bytes → Outcome A

-- What follows a call that has not thrown.
infixl 5 ◌>>=◌
abbrev pub ◌>>=◌ {ℓ κ} : {A : Type ℓ} {B : Type κ} → Outcome A → (A → Outcome B) → Outcome B
gives acts a >>= f = elim (f a) [
  | gives more b ↦ gives (acts ++ more) b
  | throws more e ↦ throws (acts ++ more) e
]
throws acts e >>= f = throws acts e

-- The client's constructor; a timeout below 0 is `none`.
unfoldable pub client : Library → Bytes → ℕ → Option ℕ → Outcome (Unit {0})
client lib host port timeout =
    if lib.create
    then (if lib.add_server host port
        then elim timeout [
          | none ↦ gives (creates ∷ adds_server ∷ []) tt
          | some t ↦ gives (creates ∷ adds_server ∷ sets_timeout ∷ []) tt
        ]
        else throws (creates ∷ adds_server ∷ []) lib.error)
    else throws [] (codes "Memory allocation failure on client creation")

-- `run_bg`, and `run_bg_high` where `high`.
unfoldable pub run_bg : Library → Bool → Bytes → Bytes → Outcome Bytes
run_bg lib high function workload = elim (lib.do_background high function workload) [
  | none ↦ throws (runs function ∷ []) lib.error
  | some job_handle ↦ gives (runs function ∷ []) job_handle
]

unfoldable pub worker : Library → Bytes → ℕ → Outcome (Unit {0})
worker lib host port =
    if lib.create
    then (if lib.add_server host port
        then gives (creates ∷ adds_server ∷ []) tt
        else throws (creates ∷ adds_server ∷ []) lib.error)
    else throws [] (codes "Memory allocation failure on worker creation")

unfoldable pub add_function : Library → Bytes → Outcome (Unit {0})
add_function lib name =
    if lib.add_function name
    then gives (adds_function name ∷ []) tt
    else throws (adds_function name ∷ []) lib.error

unfoldable pub work : Library → Outcome (Unit {0})
work lib =
    if lib.work
    then gives (works ∷ []) tt
    else throws (works ∷ []) (codes "Memory allocation failure on worker creation")

-- A block with an object whose constructor is given: the destructor frees where the block is left, if
-- the constructor has come to its end.
unfoldable pub block {ℓ} : {A : Type ℓ} → Outcome (Unit {0}) → Outcome A → Outcome A
block (throws acts e) body = throws acts e
block (gives acts a) (gives more b) = gives (acts ++ (more ++ frees ∷ [])) b
block (gives acts a) (throws more e) = throws (acts ++ (more ++ frees ∷ [])) e
