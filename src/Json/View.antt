-- ===== src/Json/View.antt =====
-- The tree that a value of src/server/json.h stands for, and the texts of numbers. A `double` is a finite
-- one.
use fcgi_cpp_appserver.Common.{
  ℕ, zero, suc, ◌+◌, ◌≤◌, ◌<◌, ◌/◌, ◌%◌, inl, inr, ap, ◌∙◌, ◌≡◌, refl, Bool, true, false, not, ◌&&◌,
  some, [], ◌∷◌, ◌++◌, if◌then◌else◌, arith,
}
use Prim.Native.Nat.{max}
use fcgi_cpp_appserver.Common.Bytes.{Bytes}
use fcgi_cpp_appserver.Common.Decimal.{show, show_loop}
use fcgi_cpp_appserver.Database.Numbers.{
  are_digits, is_some_text, le-or-lt, show_loop-small, show_loop-big, show_loop-digits,
  show_loop-text,
}
use fcgi_cpp_appserver.Json
use fcgi_cpp_appserver.Json.{
  comma, Value, Items, Elements, integer, float, no_items, item, no_elements, element, serialize,
  serialize_items, serialize_elements, serialize_string, escape_all,
}
use fcgi_cpp_appserver.Json.Strings.{are_plain}
use fcgi_cpp_appserver.Json.Reader.{
  Tree, Members, Trees, object, array, string, number, no_members, member, no_trees, tree,
  is_numeric, read_digits, read_value, Part, start, minus, whole, advance, advances, is_complete,
  is_number,
}

abbrev pub are_numeric : Bytes → Bool
are_numeric [] = true
are_numeric (c ∷ s) = is_numeric c && are_numeric s

-- A number by RFC 8259.
abbrev pub IsNumeric : Bytes → Type 0
IsNumeric s = (are_numeric s ≡ true) × (is_some_text s ≡ true) × (is_number s ≡ true)

are_numeric-digits : (s : Bytes) → are_digits s ≡ true → are_numeric s ≡ true
are_numeric-digits [] h = refl
are_numeric-digits (c ∷ s) h = ground (arith, are_numeric-digits s)

advances-append : (p : Part) (s t : Bytes) → advances p (s ++ t) ≡ advances (advances p s) t
advances-append p [] t = refl
advances-append p (c ∷ s) t = advances-append (advance p c) s t

-- Before a number's first digit.
data Opens : Part → Type 0 where
  at_start : Opens start
  behind_minus : Opens minus

advance-digit : {p : Part} → Opens p → (n : ℕ) → 1 ≤ n → n < 10 → advance p (b'0' + n) ≡ whole
advance-digit at_start n h k = ground arith
advance-digit behind_minus n h k = ground arith

advance-whole : (n : ℕ) → n < 10 → advance whole (b'0' + n) ≡ whole
advance-whole n h = ground arith

-- A number above 0 has no leading zero.
advances-show_loop :
    {p : Part} → Opens p → (fuel n : ℕ) → 1 ≤ n → n ≤ fuel → advances p (show_loop fuel n) ≡ whole
advances-show_loop o zero n h k = absurd (omega (arith, h, k))
advances-show_loop {p} o (suc fuel) n h k = elim (le-or-lt 10 n) [
  | inr small ↦ rw (show_loop-small fuel n small) (advance-digit o n h small)
  | inl big ↦ rw (show_loop-big fuel n big) (
      advances-append p (show_loop fuel (n / 10)) ((b'0' + n % 10) ∷ [])
      ∙ ap (λ r. advance r (b'0' + n % 10))
          (advances-show_loop o fuel (n / 10) (omega arith) (omega arith))
      ∙ advance-whole (n % 10) (omega arith))
]

is_complete-show : {p : Part} → Opens p → (n : ℕ) → is_complete (advances p (show n)) ≡ true
unfolding show show_loop
is_complete-show at_start zero = refl
is_complete-show behind_minus zero = refl
is_complete-show o (suc n) =
    ap is_complete (advances-show_loop o (suc n) (suc n) (omega arith) (omega arith))

abbrev pub show_int : Bool → ℕ → Bytes
show_int negative n = if negative then b'-' ∷ show n else show n

show-numeric : (n : ℕ) → are_numeric (show n) ≡ true
unfolding show
show-numeric n = are_numeric-digits (show n) (show_loop-digits n n (omega arith))

show-text : (n : ℕ) → is_some_text (show n) ≡ true
unfolding show
show-text n = show_loop-text n n

pub show_int-IsNumeric : (negative : Bool) (n : ℕ) → IsNumeric (show_int negative n)
show_int-IsNumeric true n = (show-numeric n, refl, is_complete-show behind_minus n)
show_int-IsNumeric false n = (show-numeric n, show-text n, is_complete-show at_start n)

-- What may stand behind a number.
abbrev pub stops : Bytes → Bool
stops [] = true
stops (c ∷ s) = not (is_numeric c)

read_digits-append :
    (s rest : Bytes)
    → are_numeric s ≡ true
    → stops rest ≡ true
    → read_digits (s ++ rest) ≡ (s, rest)
unfolding read_digits
read_digits-append [] [] h k = refl
read_digits-append [] (c ∷ rest) h k = ground arith
read_digits-append (c ∷ s) rest h k = ground (arith, read_digits-append s rest)

pub read_numeric :
    (f : ℕ) (s rest : Bytes)
    → IsNumeric s
    → stops rest ≡ true
    → read_value (suc f) (s ++ rest) ≡ some (number s, rest)
unfolding read_value
read_numeric f [] rest h k = absurd (cc)
read_numeric f (c ∷ s) rest h k = ground (arith, read_digits-append (c ∷ s) rest)

module _ {Double : Type 0} (show_double : Double → Bytes) where
  -- The tree that a value stands for.
  unfoldable mutual
    pub view : Value Double → Tree
    view (Json.object m) = object (view_items m)
    view (Json.array vs) = array (view_elements vs)
    view (Json.string s) = string s
    view (integer negative n) = number (show_int negative n)
    view (float d) = number (show_double d)

    pub view_items : Items Double → Members
    view_items no_items = no_members
    view_items (item k v m) = member k (view v) (view_items m)

    pub view_elements : Elements Double → Trees
    view_elements no_elements = no_trees
    view_elements (element v vs) = tree (view v) (view_elements vs)

-- Whether its strings, and its keys, have no control characters but those that have a short escape.
unfoldable mutual
  pub is_printable : {Double : Type 0} → Value Double → Bool
  is_printable (Json.object m) = are_printable_items m
  is_printable (Json.array vs) = are_printable_elements vs
  is_printable (Json.string s) = are_plain s
  is_printable (integer negative n) = true
  is_printable (float d) = true

  pub are_printable_items : {Double : Type 0} → Items Double → Bool
  are_printable_items no_items = true
  are_printable_items (item k v m) = are_plain k && (is_printable v && are_printable_items m)

  pub are_printable_elements : {Double : Type 0} → Elements Double → Bool
  are_printable_elements no_elements = true
  are_printable_elements (element v vs) = is_printable v && are_printable_elements vs

-- The fuel that a value takes.
unfoldable mutual
  pub need : {Double : Type 0} → Value Double → ℕ
  need (Json.object m) = suc (need_items m)
  need (Json.array vs) = suc (need_elements vs)
  need (Json.string s) = 1
  need (integer negative n) = 1
  need (float d) = 1

  pub need_items : {Double : Type 0} → Items Double → ℕ
  need_items no_items = 1
  need_items (item k v m) = suc (max (need v) (need_items m))

  pub need_elements : {Double : Type 0} → Elements Double → ℕ
  need_elements no_elements = 1
  need_elements (element v vs) = suc (max (need v) (need_elements vs))
