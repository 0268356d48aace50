-- ===== src/Server/Lifetime.antt =====
-- `init`, `shutdown` and the destructor of `fcgi_server` in src/server/fcgi_server.cpp, as what they do
-- in turn. A handler's `init` and `shutdown` may throw: which do is an argument.
use fcgi_cpp_appserver.Common.{
  ℕ, ◌+◌, ◌≡◌, refl, ap, ◌∙◌, Bool, true, false, Option, none, some, List, [], ◌∷◌, ◌++◌, ◌==◌,
  if◌then◌else◌, arith, ◌↔◌, ◌≤◌, Bool-cases, ==_iff, inl, inr, occurrences,
}
use fcgi_cpp_appserver.Common.Bytes.{Bytes, codes}
use fcgi_cpp_appserver.Server.{Server}

pub data Act : Type 0 where
  opens_socket closes_socket : Act
  inits shuts_down : ℕ → Act

-- `fcgi_server_exception` has its message; `other_exception` is one that a handler throws.
pub data Outcome : Type 0 where
  done other_exception : Outcome
  server_exception : Bytes → Outcome

-- A loop that calls one method of each handler.
unfoldable pub call_all : (ℕ → Act) → (ℕ → Bool) → List ℕ → List Act × Outcome
call_all act throws [] = ([], done)
call_all act throws (h ∷ hs) =
    let rest = call_all act throws hs in
    if throws h then (act h ∷ [], other_exception) else (act h ∷ rest.0, rest.1)

-- `opened` is whether `FCGX_OpenSocket` gives a socket.
unfoldable pub init : (ℕ → Bool) → Bool → Server → List Act × Outcome
unfolding call_all
init throws opened s =
    if opened
    then (opens_socket ∷ (call_all inits throws s.handlers).0, (call_all inits throws s.handlers).1)
    else (opens_socket ∷ [], server_exception (codes "cannot create listening socket"))

abbrev pub is_done : Outcome → Bool
is_done done = true
is_done other_exception = false
is_done (server_exception message) = false

unfoldable pub shutdown : (ℕ → Bool) → Server → List Act × Outcome
unfolding call_all
shutdown throws s =
    let (acts, out) = call_all shuts_down throws s.handlers in
    (if is_done out then acts ++ closes_socket ∷ [] else acts, out)

-- The destructor, on the handlers that are made and not deleted; `none` deletes one that is not there.
unfoldable pub erase_one : ℕ → List ℕ → Option (List ℕ)
erase_one h [] = none
erase_one h (g ∷ gs) =
    let rest = erase_one h gs in
    if g == h then some gs else elim rest [ none ↦ none | some rs ↦ some (g ∷ rs) ]

unfoldable pub destroy_all : List ℕ → List ℕ → Option (List ℕ)
unfolding erase_one
destroy_all [] alive = some alive
destroy_all (h ∷ hs) alive = elim (erase_one h alive) [
  | none ↦ none
  | some left ↦ destroy_all hs left
]

unfoldable pub destroy : Server → List ℕ → Option (List ℕ)
unfolding destroy_all
destroy s alive = destroy_all s.handlers alive

abbrev Erased : ℕ → List ℕ → Option (List ℕ) → Type 0
Erased h alive none = occurrences h alive ≡ 0
Erased h alive (some left) = (k : ℕ) → occurrences k alive ≡ occurrences k (h ∷ left)

cons_Erased :
    (h g : ℕ) (alive : List ℕ) (o : Option (List ℕ))
    → (g == h) ≡ false
    → Erased h alive o
    → Erased h (g ∷ alive) (elim o [ none ↦ none | some rs ↦ some (g ∷ rs) ])
cons_Erased h g alive none e k = ground (arith, e, k)
cons_Erased h g alive (some left) e k = λ i. ground (arith, e, k i)

erase_one-Erased : (h : ℕ) (alive : List ℕ) → Erased h alive (erase_one h alive)
unfolding erase_one
erase_one-Erased h [] = refl
erase_one-Erased h (g ∷ gs) = elim (Bool-cases (g == h)) [
  | inl e ↦ rw e (λ k. ap (λ x. occurrences k (x ∷ gs)) ((==_iff g h).0 e))
  | inr e ↦ rw e (cons_Erased h g gs (erase_one h gs) e (erase_one-Erased h gs))
]

-- Deleted are the handlers of the list, each as often as it is there.
abbrev pub Destroyed : List ℕ → List ℕ → Type 0
Destroyed hs alive =
    ((left : List ℕ) × (destroy_all hs alive ≡ some left)
      × ((k : ℕ) → occurrences k alive ≡ occurrences k hs + occurrences k left))

destroys_next :
    (h : ℕ) (hs alive : List ℕ) (o : Option (List ℕ))
    → erase_one h alive ≡ o
    → Erased h alive o
    → ((k : ℕ) → occurrences k (h ∷ hs) ≤ occurrences k alive)
    → ((mid : List ℕ) → ((k : ℕ) → occurrences k hs ≤ occurrences k mid) → Destroyed hs mid)
    → Destroyed (h ∷ hs) alive
unfolding destroy_all
destroys_next h hs alive none e k le ih = absurd (ground (arith, le h, k))
destroys_next h hs alive (some mid) e k le ih =
    let (left, run, same) = ih mid (λ i. ground (arith, le i, k i)) in
    (
      left,
      ap (λ o. elim o as (λ _. Option (List ℕ)) [ none ↦ none | some m ↦ destroy_all hs m ]) e
          ∙ run,
      λ i. ground (arith, k i, same i),
    )

destroys :
    (hs alive : List ℕ) → ((k : ℕ) → occurrences k hs ≤ occurrences k alive) → Destroyed hs alive
unfolding destroy_all
destroys [] alive le = (alive, refl, λ k. omega arith)
destroys (h ∷ hs) alive le =
    destroys_next h hs alive (erase_one h alive) refl (erase_one-Erased h alive) le
      (λ mid. destroys hs mid)

-- The destructor is defined just where each handler of the list is alive as often as the list has it,
-- so where none has been added twice; and then it deletes these, and leaves the others.
pub destroy-occurrences :
    (s : Server) (alive : List ℕ)
    → ((k : ℕ) → occurrences k s.handlers ≤ occurrences k alive) ↔ (
        (left : List ℕ) × (destroy s alive ≡ some left)
        × ((k : ℕ) → occurrences k alive ≡ occurrences k s.handlers + occurrences k left))
unfolding destroy
destroy-occurrences s alive =
    (destroys s.handlers alive, λ (left, run, same) k. omega (arith, same k))
