-- ===== src/Server/Order.antt =====
-- The order of a location map, and what it says of prefixes.
use fcgi_cpp_appserver.Common.{
  ◌≤◌, ◌≡◌, refl, inl, inr, true, false, [], ◌∷◌, arith, length, Bool-cases,
}
use fcgi_cpp_appserver.Common.Bytes.{Bytes, less, is_prefix}
use fcgi_cpp_appserver.Common.Dict.{All, All-map, less_trans}
use fcgi_cpp_appserver.Server.{Handler, LocationMap, insert}

-- No key stands behind a greater one.
abbrev pub IsOrdered : LocationMap → Type 0
IsOrdered [] = Unit
IsOrdered ((k, h) ∷ m) = All (λ e. less e.0 k ≡ false) m × IsOrdered m

NotBelow-insert :
    (a k : Bytes) (h : Handler) (m : LocationMap)
    → less k a ≡ false
    → All (λ e. less e.0 a ≡ false) m
    → All (λ e. less e.0 a ≡ false) (insert k h m)
unfolding insert
NotBelow-insert a k h [] f all = (f, tt)
NotBelow-insert a k h ((j, g) ∷ m) f all = ground (arith, NotBelow-insert a k h m f all.1)

not_less_trans : (e j k : Bytes) → less k j ≡ true → less e j ≡ false → less e k ≡ false
not_less_trans e j k h f = ground (arith, less_trans e k j)

less_asymm : (k j : Bytes) → less k j ≡ true → less j k ≡ false
unfolding less
less_asymm k [] h = cc
less_asymm [] (y ∷ j) h = refl
less_asymm (x ∷ k) (y ∷ j) h = ground (arith, less_asymm k j)

pub insert-IsOrdered :
    (k : Bytes) (h : Handler) (m : LocationMap) → IsOrdered m → IsOrdered (insert k h m)
unfolding insert
insert-IsOrdered k h [] o = (tt, tt)
insert-IsOrdered k h ((j, g) ∷ m) o = elim (Bool-cases (less k j)) [
  | inl below ↦
      rw (below, insert)
        ((less_asymm k j below, All-map (λ e f. not_less_trans e.0 j k below f) m o.0), o)
  | inr above ↦ rw (above, insert) (NotBelow-insert j k h m above o.0, insert-IsOrdered k h m o.1)
]

-- Of two prefixes of one text the later is not the shorter.
pub prefix_length :
    (k j uri : Bytes)
    → is_prefix k uri ≡ true
    → is_prefix j uri ≡ true
    → less j k ≡ false
    → length k ≤ length j
unfolding is_prefix less
prefix_length [] j uri p q h = omega arith
prefix_length (x ∷ k) [] uri p q h = absurd (cc)
prefix_length (x ∷ k) (y ∷ j) [] p q h = absurd (cc)
prefix_length (x ∷ k) (y ∷ j) (z ∷ uri) p q h = ground (arith, prefix_length k j uri)
