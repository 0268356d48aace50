-- ===== src/Common/Dict.antt =====
-- `std::map<std::string, V>`: the entries in the order of their keys. `insert` keeps an entry that is
-- already there, as the standard says.
use fcgi_cpp_appserver.Common.{
  ◌≡◌, refl, inl, inr, true, false, Option, none, some, List, [], ◌∷◌, arith, if◌then◌else◌,
  Bool-cases,
}
use fcgi_cpp_appserver.Common.Bytes.{Bytes, equal, equal_iff, less}

pub less_irrefl : (a : Bytes) → less a a ≡ false
unfolding less
less_irrefl [] = refl
less_irrefl (x ∷ a) = ground (arith, less_irrefl a)

pub less_trans : (a b c : Bytes) → less a b ≡ true → less b c ≡ true → less a c ≡ true
unfolding less
less_trans a [] c h k = cc
less_trans a (y ∷ b) [] h k = cc
less_trans [] (y ∷ b) (z ∷ c) h k = refl
less_trans (x ∷ a) (y ∷ b) (z ∷ c) h k = ground (arith, less_trans a b c)

abbrev pub All {ℓ κ} : {A : Type ℓ} → (A → Type κ) → List A → Type κ
All P [] = Unit
All P (x ∷ xs) = P x × All P xs

pub All-map {ℓ κ ι} :
    {A : Type ℓ} {P : A → Type κ} {Q : A → Type ι} (f : (a : A) → P a → Q a) (xs : List A)
    → All P xs
    → All Q xs
All-map f [] h = tt
All-map f (x ∷ xs) h = (f x h.0, All-map f xs h.1)

less_of_not : (k j : Bytes) → less k j ≡ false → equal j k ≡ false → less j k ≡ true
unfolding less equal
less_of_not [] [] h e = cc
less_of_not [] (y ∷ j) h e = cc
less_of_not (x ∷ k) [] h e = refl
less_of_not (x ∷ k) (y ∷ j) h e = ground (arith, less_of_not k j)

abbrev pub Dict {ℓ} : Type ℓ → Type ℓ
Dict V = List (Bytes × V)

module _ {ℓ} {V : Type ℓ} where
  abbrev pub or_else : Option V → Option V → Option V
  or_else none d = d
  or_else (some w) d = some w

  -- `m.find(key)`, read.
  unfoldable pub lookup : Bytes → Dict V → Option V
  lookup k [] = none
  lookup k ((j, v) ∷ m) = if equal j k then some v else lookup k m

  -- `m.insert(std::make_pair(key, value))`.
  unfoldable pub insert : Bytes → V → Dict V → Dict V
  insert k v [] = (k, v) ∷ []
  insert k v ((j, w) ∷ m) =
      if less k j
      then (k, v) ∷ (j, w) ∷ m
      else if equal j k
      then (j, w) ∷ m
      else (j, w) ∷ insert k v m

  -- Every key of the list comes after `k`.
  abbrev pub Follow : Bytes → Dict V → Type 0
  Follow k = All (λ e. less k e.0 ≡ true)

  abbrev pub IsSorted : Dict V → Type 0
  IsSorted [] = Unit
  IsSorted ((k, v) ∷ m) = Follow k m × IsSorted m

  Follow-insert :
      (a k : Bytes) (v : V) (m : Dict V) → less a k ≡ true → Follow a m → Follow a (insert k v m)
  unfolding insert
  Follow-insert a k v [] h f = (h, tt)
  Follow-insert a k v ((j, w) ∷ m) h f = ground (arith, Follow-insert a k v m h f.1)

  Follow-trans : (a b : Bytes) (m : Dict V) → less a b ≡ true → Follow b m → Follow a m
  Follow-trans a b m h = All-map (λ e. less_trans a b e.0 h) m

  pub insert-IsSorted : (k : Bytes) (v : V) (m : Dict V) → IsSorted m → IsSorted (insert k v m)
  unfolding insert
  insert-IsSorted k v [] h = (tt, tt)
  insert-IsSorted k v ((j, w) ∷ m) h = elim (Bool-cases (less k j)) [
    | inl lo ↦ rw (lo, insert) ((lo, Follow-trans k j m lo h.0), h)
    | inr hi ↦
        rw (hi, insert)
          (elim (Bool-cases (equal j k)) [
            | inl same ↦ rw (same, insert) h
            | inr other ↦
                rw (other, insert)
                  (Follow-insert j k v m (less_of_not k j hi other) h.0, insert-IsSorted k v m h.1)
          ])
  ]

  lookup-Follow : (k : Bytes) (m : Dict V) → Follow k m → lookup k m ≡ none
  unfolding lookup
  lookup-Follow k [] f = refl
  lookup-Follow k ((j, w) ∷ m) f =
      ground (arith, equal_iff j k, less_irrefl k, lookup-Follow k m f.1)

  -- An entry of an older insertion with the same key stays.
  pub lookup-insert :
      (k j : Bytes) (v : V) (m : Dict V)
      → IsSorted m
      → lookup j (insert k v m) ≡ or_else (lookup j m) (if equal k j then some v else none)
  unfolding lookup insert
  lookup-insert k j v [] h = refl
  lookup-insert k j v ((i, w) ∷ m) h = ground (
    arith,
    equal_iff k j,
    equal_iff i k,
    equal_iff i j,
    less_irrefl k,
    lookup-Follow k m,
    Follow-trans k i m,
    lookup-insert k j v m,
  )
