-- ===== src/Common/Sums.antt =====
-- One entry of a list between the others, and sums over a list.
use Prim.Native.Nat.{ℕ, zero, suc, ◌+◌, ◌≤◌}
use mathlib.Core.Path.{◌≡◌, refl, ap}
use mathlib.Core.Logic.{◌⊎◌, inl, inr}
use mathlib.Core.Bool.{Bool, true, false}
use mathlib.Core.List.{List, [], ◌∷◌, ◌++◌}
use mathlib.Core.Option.{Option, none, some}
use native.Mathlib.Omega.{arith}
use fcgi_cpp_appserver.Common.Tests.{◌==◌, if◌then◌else◌}

pub zero_or_not : (n : ℕ) → (n ≡ 0) ⊎ (1 ≤ n)
zero_or_not zero = inl refl
zero_or_not (suc n) = inr (omega arith)

module _ {ℓ} {A : Type ℓ} where
  abbrev pub Among {κ} : List A → (A → Type κ) → Type (ℓ ⊔ κ)
  Among ps P = ((xs : List A) × (p : A) × (ys : List A) × (ps ≡ xs ++ p ∷ ys) × P p)

  pub Among-cons {κ} : (q : A) (ps : List A) (P : A → Type κ) → Among ps P → Among (q ∷ ps) P
  Among-cons q ps P (xs, p, ys, e, h) = (q ∷ xs, p, ys, ap (λ l. q ∷ l) e, h)

  abbrev pub is_some : Option A → Bool
  is_some none = false
  is_some (some a) = true

  pub some_of : (o : Option A) → is_some o ≡ true → (a : A) × (o ≡ some a)
  some_of none h = absurd (cc)
  some_of (some a) h = (a, refl)

  abbrev pub total : (A → ℕ) → List A → ℕ
  total f [] = 0
  total f (p ∷ ps) = f p + total f ps

  pub total-append : (f : A → ℕ) (xs ys : List A) → total f (xs ++ ys) ≡ total f xs + total f ys
  total-append f [] ys = omega arith
  total-append f (x ∷ xs) ys = omega (arith, total-append f xs ys)

  -- A sum that is not 0 has a summand that is not.
  pub total-Among : (f : A → ℕ) (ps : List A) → 1 ≤ total f ps → Among ps (λ p. 1 ≤ f p)
  total-Among f [] h = absurd (omega (arith, h))
  total-Among f (p ∷ ps) h = elim (zero_or_not (f p)) [
    | inl e ↦ Among-cons p ps _ (total-Among f ps (omega (arith, h, e)))
    | inr le ↦ ([], p, ps, refl, le)
  ]

-- How often a number is in a list.
abbrev pub occurrences : ℕ → List ℕ → ℕ
occurrences h [] = 0
occurrences h (g ∷ gs) = if g == h then suc (occurrences h gs) else occurrences h gs

pub occurrences-append :
    (h : ℕ) (xs ys : List ℕ) → occurrences h (xs ++ ys) ≡ occurrences h xs + occurrences h ys
occurrences-append h [] ys = omega arith
occurrences-append h (x ∷ xs) ys = ground (arith, occurrences-append h xs ys)
