-- ===== src/Pool/Holder.antt =====
-- `DBConnHolder` of src/db/db_pool.h: a handler takes a connection where it makes one, and gives it back
-- where it leaves its block, by a `return` or by an exception.
use fcgi_cpp_appserver.Common.{
  ℕ, suc, ◌+◌, ◌≤◌, ◌≡◌, refl, ap, ◌∙◌, true, false, ◌&&◌, Option, none, some, List, [], ◌∷◌, ◌++◌,
  map, subst, get_or, length-append, ltb, ◌==◌, arith, ◌-◌, length,
}
use fcgi_cpp_appserver.Pool.{
  Pool, create, Got, got, waits, throws, blocked, undefined_behaviour, touch, grow, take_from,
  get_locked, get, put,
}
use fcgi_cpp_appserver.Pool.System.{create-Owns}
use fcgi_cpp_appserver.Pool.Owners.{Owns, IsFresh, OwnsGot, OwnsNext, get-OwnsGot, put-OwnsNext}

-- What comes of a block: what its body gives or throws, and the pool behind it; an exception of `get`;
-- or the thread stays in `get` or `put`, or does what is not defined.
pub data Held {ℓ} (A : Type ℓ) : Type ℓ where
  held : A → Pool → Held A
  refused : Pool → Held A
  stuck : Held A

unfoldable pub give_back {ℓ} : {A : Type ℓ} → A → Option Pool → Held A
give_back a none = stuck
give_back a (some p) = held a p

-- Behind `get`, with the time at the block's end.
unfoldable pub after_get {ℓ} : {A : Type ℓ} → ℕ → (ℕ → A) → Got → Held A
unfolding give_back
after_get later body (got c q) = give_back (body c) (put q c later)
after_get later body (throws q) = refused q
after_get later body (waits q) = stuck
after_get later body blocked = stuck
after_get later body undefined_behaviour = stuck

-- A block with a holder, of a thread that is alone.
unfoldable pub hold {ℓ} : {A : Type ℓ} → Pool → Option ℕ → ℕ → ℕ → (ℕ → A) → Held A
unfolding after_get
hold p connected now later body = after_get later body (get p connected now)

-- A request: the times, and what is done with the connection.
pub record Block {ℓ} (A : Type ℓ) : Type ℓ where
  pub now : ℕ
  pub later : ℕ
  pub body : ℕ → A

abbrev and_then {ℓ} :
    {A : Type ℓ} → Option A → Option (List (Option A) × Pool) → Option (List (Option A) × Pool)
and_then a none = none
and_then a (some (outs, p)) = some (a ∷ outs, p)

abbrev then_all {ℓ} :
    {A : Type ℓ}
    → (Pool → Option (List (Option A) × Pool))
    → Held A
    → Option (List (Option A) × Pool)
then_all rest stuck = none
then_all rest (refused p) = and_then none (rest p)
then_all rest (held a p) = and_then (some a) (rest p)

-- Blocks one after the other. `connect` is the connection that is made with the pool as it is. `none`
-- is a thread that stays in one of them.
unfoldable pub hold_all {ℓ} :
    {A : Type ℓ} → (Pool → Option ℕ) → Pool → List (Block A) → Option (List (Option A) × Pool)
unfolding hold
hold_all connect p [] = some ([], p)
hold_all connect p (b ∷ bs) =
    then_all (λ q. hold_all connect q bs) (hold p (connect p) b.now b.later b.body)

-- What holds between the blocks.
record Solo (p : Pool) : Type 0 where
  books : Owns p []
  unlocked : p.locked ≡ false
  few : p.num_connections ≤ 1
  room : 1 ≤ p.max_connections

-- A connection that is given, with the pool not locked. It is the only one of `xs`, if there is one.
abbrev Given : List ℕ → Got → Type 0
Given xs o =
    ((c : ℕ) × (q : Pool) × ((x : ℕ) → xs ≡ x ∷ [] → c ≡ x)
      × (o ≡ got c q)
      × (q.locked ≡ false)
      × (q.num_connections ≤ 1)
      × (1 ≤ q.max_connections))

gives_new :
    (p : Pool) (c now : ℕ)
    → p.locked ≡ false
    → (p.num_available == 0 && ltb p.num_connections p.max_connections) ≡ true
    → p.num_connections ≡ 0
    → 1 ≤ p.max_connections
    → Given [] (get p (some c) now)
unfolding get get_locked grow
gives_new p c now l t z m = (
  c,
  touch c now (record p {
    all_connections = p.all_connections ++ c ∷ [];
    num_connections = p.num_connections + 1;
    live = c ∷ p.live;
  }),
  λ x e. absurd (cc),
  rw (l, t) refl,
  l,
  omega (arith, z),
  m,
)

gives_old :
    (p : Pool) (d : ℕ) (rest : List ℕ) (made : Option ℕ) (now : ℕ)
    → p.locked ≡ false
    → (p.num_available == 0 && ltb p.num_connections p.max_connections) ≡ false
    → p.available_connections ≡ d ∷ rest
    → p.num_connections ≤ 1
    → 1 ≤ p.max_connections
    → Given (d ∷ rest) (get p made now)
unfolding get get_locked take_from
gives_old p d rest made now l t e few m = (
  d,
  touch d now (record p { available_connections = rest; num_available = p.num_available - 1 }),
  λ x k. ap (λ l. get_or l 0 d) k,
  rw (l, t, e) refl,
  l,
  few,
  m,
)

gives :
    (p : Pool) (xs : List ℕ) (c now : ℕ)
    → Solo p
    → p.available_connections ≡ xs
    → Given xs (get p (some c) now)
gives p [] c now s e =
    let none_left : p.num_available ≡ 0 = s.books.available_counted ∙ ap length e in
    let none_made : p.num_connections ≡ 0 = omega (arith, s.books.counted, ap length e) in
    gives_new p c now s.unlocked (ground (arith, none_left, none_made, s.room)) none_made s.room
gives p (d ∷ rest) c now s e =
    let some_left : p.num_available ≡ suc (length rest) = s.books.available_counted ∙ ap length e in
    gives_old p d rest (some c) now s.unlocked (ground (arith, some_left)) e s.few s.room

only_last : (xs : List ℕ) (c : ℕ) → length (xs ++ c ∷ []) ≤ 1 → xs ++ c ∷ [] ≡ c ∷ []
only_last [] c h = refl
only_last (x ∷ xs) c h = absurd (omega (arith, h, length-append xs (c ∷ [])))

puts :
    (q : Pool) (c later : ℕ)
    → q.locked ≡ false
    → Owns q (c ∷ [])
    → q.num_connections ≤ 1
    → 1 ≤ q.max_connections
    → (r : Pool) × (put q c later ≡ some r) × Solo r × (r.available_connections ≡ c ∷ [])
unfolding put
puts q c later l o few m =
    let r = touch c later (record q {
      available_connections = q.available_connections ++ c ∷ [];
      num_available = q.num_available + 1;
    }) in
    let e : put q c later ≡ some r = rw l refl in
    let books : Owns r [] = subst (OwnsNext []) e (put-OwnsNext q [] [] c later o) in
    (
      r,
      e,
      record { books = books; unlocked = l; few = few; room = m },
      only_last q.available_connections c (omega (arith, books.counted, few)),
    )

-- What a block leaves.
abbrev Kept {ℓ} : {A : Type ℓ} → List ℕ → (ℕ → A) → Held A → Type ℓ
Kept xs body out =
    ((c : ℕ) × (q : Pool) × ((x : ℕ) → xs ≡ x ∷ [] → c ≡ x)
      × (out ≡ held (body c) q)
      × Solo q
      × (q.available_connections ≡ c ∷ []))

hold-Kept {ℓ} :
    {A : Type ℓ} (p : Pool) (c now later : ℕ) (body : ℕ → A)
    → IsFresh (some c) p.live
    → Solo p
    → Kept p.available_connections body (hold p (some c) now later body)
unfolding hold after_get give_back
hold-Kept p c now later body fresh s =
    let (d, q, same, e, l, few, m) = gives p p.available_connections c now s refl in
    let o : Owns q (d ∷ []) = subst (OwnsGot []) e (get-OwnsGot p [] s.books (some c) now fresh) in
    let (r, f, solo, one) = puts q d later l o few m in
    (d, r, same, ap (after_get later body) e ∙ ap (give_back (body d)) f, solo, one)

-- What a thread that is alone makes of its blocks.
abbrev pub HeldAll {ℓ} : {A : Type ℓ} → List (Block A) → Option (List (Option A) × Pool) → Type ℓ
HeldAll bs out =
    ((c : ℕ) × (q : Pool) × (out ≡ some (map (λ b. some (b.body c)) bs, q))
      × Owns q []
      × (q.num_connections ≤ 1))

module _ {ℓ} {A : Type ℓ} (connect : Pool → ℕ)
    (fresh : (p : Pool) → IsFresh (some (connect p)) p.live) where
  hold_from :
      (bs : List (Block A)) (p : Pool)
      → Solo p
      → (c : ℕ) × (q : Pool) × ((x : ℕ) → p.available_connections ≡ x ∷ [] → c ≡ x)
        × (hold_all (λ p. some (connect p)) p bs ≡ some (map (λ b. some (b.body c)) bs, q))
        × Solo q
  unfolding hold_all
  hold_from [] p s =
      (get_or p.available_connections 0 0, p, λ x e. ap (λ l. get_or l 0 0) e, refl, s)
  hold_from (b ∷ bs) p s =
      let (d, q, same, run, solo, one) = hold-Kept p (connect p) b.now b.later b.body (fresh p) s in
      let (c, r, same', all, solo') = hold_from bs q solo in
      (
        d,
        r,
        same,
        ap (then_all (λ q. hold_all (λ p. some (connect p)) q bs)) run
            ∙ ap (and_then (some (b.body d))) all
            ∙ ap (λ x. some (some (b.body d) ∷ map (λ b. some (b.body x)) bs, r)) (same' d one),
        solo',
      )

  -- A thread that is alone, and takes a connection for each of its requests, is never held up where
  -- connections can be made, whatever the requests' bodies give or throw: each is done, all with the
  -- same connection, and behind them no connection is lent and the pool has made one at most.
  pub hold_all-HeldAll :
      (min_connections max_connections : ℕ) (bs : List (Block A))
      → 1 ≤ max_connections
      → HeldAll bs (hold_all (λ p. some (connect p)) (create min_connections max_connections) bs)
  unfolding create
  hold_all-HeldAll min_connections max_connections bs room =
      let p = create min_connections max_connections in
      let (c, q, same, run, solo) = hold_from bs p (record {
        books = create-Owns min_connections max_connections;
        unlocked = refl;
        few = omega arith;
        room = room;
      }) in
      (c, q, run, solo.books, solo.few)
