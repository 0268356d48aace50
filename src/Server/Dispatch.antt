-- ===== src/Server/Dispatch.antt =====
-- Which handler `invoke_handler` fires.
use fcgi_cpp_appserver.Common.{
  ℕ, ◌<◌, ◌≡◌, refl, ap, subst, ◌≢◌, ◌↔◌, ◌⊎◌, inl, inr, Bool, true, false, not, ◌&&◌, none, some,
  [], ◌∷◌, arith, ltb, if◌then◌else◌, length, Bool-cases, Option-cases,
}
use fcgi_cpp_appserver.Common.Bytes.{Bytes, less, is_prefix, find_zero}
use fcgi_cpp_appserver.Common.Dict.{All, All-map}
use fcgi_cpp_appserver.Server.{Handler, LocationMap, at_front, prefix_loop, is_null}
use fcgi_cpp_appserver.Server.Order.{IsOrdered, prefix_length}

-- The entry can serve the text: its key is not empty and stands at the front, its handler is not null.
abbrev pub Serves : Bytes → Bytes × Handler → Type 0
Serves uri e = (is_prefix e.0 uri ≡ true) × (0 < length e.0) × (e.1 ≢ none)

abbrev pub Stands : Bytes × Handler → LocationMap → Type 0
Stands e [] = ⊥
Stands e (x ∷ m) = (x ≡ e) ⊎ Stands e m

-- No entry that serves the text has a longer key than `k`.
abbrev pub IsLongest : Bytes → Bytes → LocationMap → Type 0
IsLongest uri k = All (λ e. ¬ (Serves uri e × (length k < length e.0)))

-- What a choice among the entries of `m` may be.
pub data Picks (uri : Bytes) (m : LocationMap) (before : Handler) (result : Handler) : Type 0 where
  nothing : All (λ e. ¬ (Serves uri e)) m → result ≡ before → Picks uri m before result
  found :
      (k : Bytes) (h : ℕ)
      → Stands (k, some h) m
      → Serves uri (k, some h)
      → IsLongest uri k m
      → result ≡ some h
      → Picks uri m before result

at_front-is_prefix : (uri k : Bytes) → (at_front uri k ≡ true) ↔ (is_prefix k uri ≡ true)
unfolding at_front
at_front-is_prefix uri k =
    (λ h. (find_zero uri k).0 (ground arith), λ h. ground (arith, (find_zero uri k).1 h))

Stands-above :
    (k j : Bytes) (h : Handler) (m : LocationMap)
    → All (λ e. less e.0 k ≡ false) m
    → Stands (j, h) m
    → less j k ≡ false
Stands-above k j h [] a s = absurd s
Stands-above k j h (x ∷ m) a (inl e) = subst (λ (y : Bytes × Handler). less y.0 k ≡ false) e a.0
Stands-above k j h (x ∷ m) a (inr s) = Stands-above k j h m a.1 s

abbrev prefix_test : Bytes → Bytes → Handler → Bool
prefix_test uri k h = at_front uri k && not (is_null h) && ltb 0 (length k)

prefix_test-Serves : (uri k : Bytes) (h : Handler) → prefix_test uri k h ≡ true → Serves uri (k, h)
prefix_test-Serves uri k none e = absurd (ground arith)
prefix_test-Serves uri k (some h) e =
    ((at_front-is_prefix uri k).0 (ground arith), ground arith, λ x. cc)

Serves-prefix_test : (uri k : Bytes) (h : Handler) → Serves uri (k, h) → prefix_test uri k h ≡ true
Serves-prefix_test uri k none (p, l, n) = absurd (n refl)
Serves-prefix_test uri k (some h) (p, l, n) = ground (arith, (at_front-is_prefix uri k).1 p)

-- One entry more in front.
Picks-cons :
    (uri k : Bytes) (h : Handler) (m : LocationMap) (before result : Handler)
    → All (λ e. less e.0 k ≡ false) m
    → Picks uri m (if prefix_test uri k h then h else before) result
    → Picks uri ((k, h) ∷ m) before result
Picks-cons uri k h m before result above (found j g s srv long e) =
    found j g (inr s) srv
      (
        (λ first.
            omega
              (arith, prefix_length k j uri first.0.0 srv.0 (Stands-above k j (some g) m above s))),
        long,
      )
      e
Picks-cons uri k h m before result above (nothing none_m e) =
    elim (Bool-cases (prefix_test uri k h)) [
      | inl yes_k ↦ elim (Option-cases h) [
        | inl null ↦ absurd ((prefix_test-Serves uri k h yes_k).2 null)
        | inr (g, is_g) ↦
            found k g (inl (ap (λ (x : Handler). (k, x)) is_g))
              (rw is_g at (prefix_test-Serves uri k h yes_k))
              ((λ first. omega arith), All-map (λ x not_x longer. not_x longer.0) m none_m)
              (ground arith)
      ]
      | inr no_k ↦ nothing ((λ srv. cc (Serves-prefix_test uri k h srv)), none_m) (ground arith)
    ]

-- The loop over the prefixes takes the last entry that serves the text; in the order of the map that is
-- one with the longest key, though the length of the match so far is never kept.
pub prefix_loop-Picks :
    (uri : Bytes) (m : LocationMap) (before : Handler)
    → IsOrdered m
    → Picks uri m before (prefix_loop uri before m)
unfolding prefix_loop
prefix_loop-Picks uri [] before o = nothing tt refl
prefix_loop-Picks uri ((k, h) ∷ m) before o =
    Picks-cons uri k h m before _ o.0
      (prefix_loop-Picks uri m (if prefix_test uri k h then h else before) o.1)
