-- ===== src/Json/Owned.antt =====
-- What is deleted of what `JSONObject` and `JSONArray`, of src/server/json.cpp, allocate.
use fcgi_cpp_appserver.Common.{
  ℕ, zero, suc, ◌+◌, ◌≤◌, ◌≡◌, refl, ap, ◌∙◌, Bool, true, false, Option, none, some, List, [], ◌∷◌,
  ◌++◌, ◌&&◌, leb, ltb, ◌==◌, if◌then◌else◌, arith, occurrences, occurrences-append,
}
use fcgi_cpp_appserver.Common.Bytes.{Bytes}
use fcgi_cpp_appserver.Json.Memory.{
  Node, Members, Nodes, object, array, text, plain, no_members, member, no_nodes, node, deleted,
  deleted_members, deleted_nodes, insert_member, push_node, inserts, Place, at_key, at_end,
  on_object, on_array, put_in, puts_in, add, add_members, add_nodes, adds, adds_members, adds_nodes,
  Store, Kind, new_object, new_array, new_text, allocate, add_new, add_plain, Built, an_object,
  an_array, adds_new, adds_plain, add_built, adds_built,
}

abbrev times : ℕ → ℕ → ℕ
times zero c = 0
times (suc k) c = c + times k c

times-add : (k j c : ℕ) → times (k + j) c ≡ times k c + times j c
times-add zero j c = let e : zero + j ≡ j = omega arith in ap (λ x. times x c) e ∙ omega arith
times-add (suc k) j c =
    let e : suc k + j ≡ suc (k + j) = omega arith in
    ap (λ x. times x c) e ∙ omega (arith, times-add k j c)

module _ (i : ℕ) (value : Node) where
  abbrev amount : ℕ
  amount = occurrences i (deleted value)

  insert_member-amount :
      (key : Bytes) (m : Members)
      → occurrences i (deleted_members (insert_member key value m))
        ≡ occurrences i (deleted_members m) + times (inserts key m) amount
  unfolding insert_member inserts deleted_members
  insert_member-amount key no_members = omega (arith, occurrences-append i (deleted value) [])
  insert_member-amount key (member k v m) = ground (
    arith,
    insert_member-amount key m,
    occurrences-append i (deleted value) (deleted v ++ deleted_members m),
    occurrences-append i (deleted v) (deleted_members m),
    occurrences-append i (deleted v) (deleted_members (insert_member key value m)),
  )

  push_node-amount :
      (vs : Nodes)
      → occurrences i (deleted_nodes (push_node value vs))
        ≡ occurrences i (deleted_nodes vs) + amount
  unfolding push_node deleted_nodes
  push_node-amount no_nodes = omega (arith, occurrences-append i (deleted value) [])
  push_node-amount (node v vs) = omega (
    arith,
    push_node-amount vs,
    occurrences-append i (deleted v) (deleted_nodes vs),
    occurrences-append i (deleted v) (deleted_nodes (push_node value vs)),
  )

  on_object-amount :
      (o : Option Bytes) (m below : Members) (n : ℕ)
      → occurrences i (deleted_members below) ≡ occurrences i (deleted_members m) + times n amount
      → occurrences i (deleted_members (put_in o value m below))
        ≡ occurrences i (deleted_members m) + times (puts_in o m n) amount
  on_object-amount none m below n h = h
  on_object-amount (some key) m below n h = insert_member-amount key m

  on_array-amount :
      (b : Bool) (vs below : Nodes) (n : ℕ)
      → occurrences i (deleted_nodes below) ≡ occurrences i (deleted_nodes vs) + times n amount
      → occurrences i (deleted_nodes (if b then push_node value vs else below))
        ≡ occurrences i (deleted_nodes vs) + times (if b then 1 else n) amount
  on_array-amount true vs below n h = omega (arith, push_node-amount vs)
  on_array-amount false vs below n h = h

  -- What a call adds to what is deleted.
  add-amount :
      (p : Place) (t : Node)
      → occurrences i (deleted (add p value t))
        ≡ occurrences i (deleted t) + times (adds p t) amount
  unfolding add adds deleted
  add-amount p t =
      elim t
        as (λ t.
          occurrences i (deleted (add p value t))
          ≡ occurrences i (deleted t) + times (adds p t) amount) (λ m.
            occurrences i (deleted_members (add_members p value m))
            ≡ occurrences i (deleted_members m) + times (adds_members p m) amount) (λ vs.
              occurrences i (deleted_nodes (add_nodes p value vs))
              ≡ occurrences i (deleted_nodes vs) + times (adds_nodes p vs) amount) [
                | object id (m → ih) ↦ omega (
                  arith,
                  on_object-amount (on_object p id) m (add_members p value m) (adds_members p m) ih,
                  occurrences-append i (deleted_members m) (id ∷ []),
                  occurrences-append i
                      (deleted_members (put_in (on_object p id) value m (add_members p value m)))
                      (id ∷ []),
                )
                | array id (vs → ih) ↦ omega (
                  arith,
                  on_array-amount (on_array p id) vs (add_nodes p value vs) (adds_nodes p vs) ih,
                  occurrences-append i (deleted_nodes vs) (id ∷ []),
                  occurrences-append i
                      (deleted_nodes
                        (if on_array p id then push_node value vs else add_nodes p value vs))
                      (id ∷ []),
                )
                | text id ↦ omega arith
                | plain ↦ refl
                | no_members ↦ refl
                | member k (v → ih) (m → ihs) ↦ omega (
                  arith,
                  ih,
                  ihs,
                  times-add (adds p v) (adds_members p m) amount,
                  occurrences-append i (deleted v) (deleted_members m),
                  occurrences-append i (deleted (add p value v))
                      (deleted_members (add_members p value m)),
                )
                | no_nodes ↦ refl
                | node (v → ih) (vs → ihs) ↦ omega (
                  arith,
                  ih,
                  ihs,
                  times-add (adds p v) (adds_nodes p vs) amount,
                  occurrences-append i (deleted v) (deleted_nodes vs),
                  occurrences-append i (deleted (add p value v))
                      (deleted_nodes (add_nodes p value vs)),
                )
              ]

-- The number of what the pointer points to.
abbrev target : Place → ℕ
target (at_key a key) = a
target (at_end a) = a

inserts_le : (key : Bytes) (m : Members) → inserts key m ≤ 1
unfolding inserts
inserts_le key no_members = omega arith
inserts_le key (member k v m) = ground (arith, inserts_le key m)

object_le :
    (p : Place) (id : ℕ) (m : Members) (n k : ℕ)
    → n ≤ k
    → puts_in (on_object p id) m n ≤ k + (if id == target p then 1 else 0)
object_le (at_key a key) id m n k h = ground (arith, h, inserts_le key m)
object_le (at_end a) id m n k h = omega (arith, h)

array_le :
    (p : Place) (id n k : ℕ)
    → n ≤ k
    → (if on_array p id then 1 else n) ≤ k + (if id == target p then 1 else 0)
array_le (at_key a key) id n k h = omega (arith, h)
array_le (at_end a) id n k h = ground (arith, h)

-- A value is put nowhere but where the pointer points to.
adds_le : (p : Place) (t : Node) → adds p t ≤ occurrences (target p) (deleted t)
unfolding adds deleted
adds_le p t =
    elim t
      as (λ t. adds p t ≤ occurrences (target p) (deleted t)) (λ m.
        adds_members p m ≤ occurrences (target p) (deleted_members m)) (λ vs.
          adds_nodes p vs ≤ occurrences (target p) (deleted_nodes vs)) [
            | object id (m → ih) ↦ omega (
              arith,
              object_le p id m (adds_members p m) (occurrences (target p) (deleted_members m)) ih,
              occurrences-append (target p) (deleted_members m) (id ∷ []),
            )
            | array id (vs → ih) ↦ omega (
              arith,
              array_le p id (adds_nodes p vs) (occurrences (target p) (deleted_nodes vs)) ih,
              occurrences-append (target p) (deleted_nodes vs) (id ∷ []),
            )
            | text id ↦ omega arith
            | plain ↦ omega arith
            | no_members ↦ omega arith
            | member k (v → ih) (m → ihs) ↦
                omega
                  (arith, ih, ihs, occurrences-append (target p) (deleted v) (deleted_members m))
            | no_nodes ↦ omega arith
            | node (v → ih) (vs → ihs) ↦
                omega (arith, ih, ihs, occurrences-append (target p) (deleted v) (deleted_nodes vs))
          ]

allocate-amount :
    (i : ℕ) (kind : Kind) (n : ℕ)
    → occurrences i (deleted (allocate kind n)) ≡ (if n == i then 1 else 0)
unfolding deleted
allocate-amount i new_object n = refl
allocate-amount i new_array n = refl
allocate-amount i new_text n = refl

abbrev within : ℕ → ℕ → ℕ → ℕ
within first next i = if leb first i && ltb i next then 1 else 0

-- Every allocation is either deleted with the root, once, or lost.
abbrev pub IsOwned : ℕ → Store → Type 0
IsOwned first s =
    (i : ℕ) → occurrences i (deleted s.root) + occurrences i s.lost ≡ within first s.next i

one_more :
    (i b n d a : ℕ) (rest : List ℕ)
    → b ≤ n
    → d + occurrences i rest ≡ within b n i
    → a ≤ 1
    → (d + times a (if n == i then 1 else 0)) + occurrences i (if a == 0 then n ∷ rest else rest)
      ≡ within b (n + 1) i
one_more i b n d zero rest k h le = ground (arith, h, k)
one_more i b n d (suc zero) rest k h le = ground (arith, h, k)
one_more i b n d (suc (suc a)) rest k h le = absurd (omega (arith, le))

bit_le : (i b n d o : ℕ) → d + o ≡ within b n i → d ≤ 1
bit_le i b n d o h = ground (arith, h)

-- A value is put into what is owned at most once.
adds_once : (first : ℕ) (s : Store) (p : Place) → IsOwned first s → adds p s.root ≤ 1
adds_once first s p h = omega (
  arith,
  adds_le p s.root,
  bit_le (target p) first s.next (occurrences (target p) (deleted s.root)) _ (h (target p)),
)

add_new-IsOwned :
    (first : ℕ) (s : Store) (kind : Kind) (p : Place)
    → first ≤ s.next
    → IsOwned first s
    → IsOwned first (add_new kind p s)
unfolding add_new
add_new-IsOwned first s kind p k h i =
    let a = adds p s.root in
    let d = occurrences i (deleted s.root) in
    let e : occurrences i (deleted (add p (allocate kind s.next) s.root))
        ≡ d + times a (if s.next == i then 1 else 0) =
      add-amount i (allocate kind s.next) p s.root
      ∙ ap (λ x. d + times a x) (allocate-amount i kind s.next) in
    ap (λ x. x + occurrences i (if a == 0 then s.next ∷ s.lost else s.lost)) e
    ∙ one_more i first s.next d a s.lost k (h i) (adds_once first s p h)

times_zero : (a : ℕ) → times a 0 ≡ 0
times_zero zero = refl
times_zero (suc a) = omega (arith, times_zero a)

add_plain-IsOwned :
    (first : ℕ) (s : Store) (p : Place) → IsOwned first s → IsOwned first (add_plain p s)
unfolding add_plain deleted
add_plain-IsOwned first s p h i =
    omega (arith, h i, add-amount i plain p s.root, times_zero (adds p s.root))

within-within : (b m n i : ℕ) → b ≤ m → m ≤ n → within b m i + within m n i ≡ within b n i
within-within b m n i h k = ground (arith, h, k)

-- What is added is deleted with the root, or lost.
both_amounts :
    (i a d : ℕ) (xs lost rest : List ℕ)
    → a ≤ 1
    → (d + times a (occurrences i xs))
        + occurrences i (if a == 0 then xs ++ (lost ++ rest) else lost ++ rest)
      ≡ (d + occurrences i rest) + (occurrences i xs + occurrences i lost)
both_amounts i zero d xs lost rest h =
    omega (arith, occurrences-append i xs (lost ++ rest), occurrences-append i lost rest)
both_amounts i (suc zero) d xs lost rest h = omega (arith, occurrences-append i lost rest)
both_amounts i (suc (suc a)) d xs lost rest h = absurd (omega (arith, h))

add_built-IsOwned :
    (first : ℕ) (p : Place) (t s : Store)
    → first ≤ s.next
    → s.next ≤ t.next
    → IsOwned first s
    → IsOwned s.next t
    → IsOwned first (add_built p t s)
unfolding add_built
add_built-IsOwned first p t s h k hs ht i =
    let a = adds p s.root in
    let d = occurrences i (deleted s.root) in
    ap
      (λ x.
        x
        + occurrences i (if a == 0 then deleted t.root ++ (t.lost ++ s.lost) else t.lost ++ s.lost))
      (add-amount i t.root p s.root)
    ∙ both_amounts i a d (deleted t.root) t.lost s.lost (adds_once first s p hs)
    ∙ ap (λ x. x + (occurrences i (deleted t.root) + occurrences i t.lost)) (hs i)
    ∙ ap (λ x. within first s.next i + x) (ht i)
    ∙ within-within first s.next t.next i h k

Built-next : {first : ℕ} {s : Store} → Built first s → first ≤ s.next
unfolding add_new add_plain add_built
Built-next (an_object b) = omega arith
Built-next (an_array b) = omega arith
Built-next (adds_new kind p r) = omega (arith, Built-next r)
Built-next (adds_plain p r) = Built-next r
Built-next (adds_built p r q) = omega (arith, Built-next r, Built-next q)

-- Whatever strings, numbers, objects and arrays, new ones and ones that were made by themselves, are added
-- to an object, to an array or to what has been added, if nothing that was made by itself is added twice or
-- into itself: when the object or array is deleted, each of the things that have been allocated is freed
-- exactly once, but for those that were lost as they were added, under a key that was there, or to what was
-- lost; and those are never freed.
pub Built-IsOwned : {first : ℕ} {s : Store} → Built first s → IsOwned first s
unfolding deleted
Built-IsOwned (an_object b) = λ i. ground arith
Built-IsOwned (an_array b) = λ i. ground arith
Built-IsOwned (adds_new {first} {s} kind p r) =
    add_new-IsOwned first s kind p (Built-next r) (Built-IsOwned r)
Built-IsOwned (adds_plain {first} {s} p r) = add_plain-IsOwned first s p (Built-IsOwned r)
Built-IsOwned (adds_built {first} {s} {t} p r q) =
    add_built-IsOwned first p t s (Built-next r) (Built-next q) (Built-IsOwned r) (Built-IsOwned q)
