-- ===== src/Json/Text.antt =====
-- The text that src/server/json.cpp writes, read back by a reader of JSON. A `double` is a finite one.
use fcgi_cpp_appserver.Common.{
  ℕ, zero, suc, ◌+◌, ◌≤◌, ◌≡◌, refl, sym, ap, ◌∙◌, Bool, true, false, some, [], ◌∷◌, ◌++◌, ◌&&◌,
  length, length-append, append-nil, arith,
}
use fcgi_cpp_appserver.Common.Bytes.{Bytes}
use fcgi_cpp_appserver.Database.Numbers.{is_some_text}
use fcgi_cpp_appserver.Json
use fcgi_cpp_appserver.Json.{
  comma, Value, Items, Elements, integer, float, no_items, item, no_elements, element, serialize,
  serialize_items, serialize_elements, serialize_string, escape_all,
}
use fcgi_cpp_appserver.Json.Reader.{read_value, read_members, read_trees, read_json}
use fcgi_cpp_appserver.Json.Strings.{are_plain, and_left, and_right}
use fcgi_cpp_appserver.Json.View.{
  is_printable, are_printable_items, are_printable_elements, IsNumeric, show_int,
  show_int-IsNumeric, stops, view, view_items, view_elements, need, need_items, need_elements,
}
use fcgi_cpp_appserver.Json.Steps.{
  read_object, read_array, read_literal, read_member, read_element, read_no_items, read_no_elements,
  serialize_integer, serialize_float, read_scalar, stops-items, stops-elements,
}

length-text : (s : Bytes) → is_some_text s ≡ true → 1 ≤ length s
length-text [] h = absurd (cc)
length-text (c ∷ s) h = omega arith

module _ {Double : Type 0} (show_double : Double → Bytes)
    (numeric : (d : Double) → IsNumeric (show_double d)) where
  abbrev ValueAt : Value Double → Bytes → ℕ → Type 0
  ValueAt v rest f =
      read_value f (serialize show_double v ++ rest) ≡ some (view show_double v, rest)

  abbrev ItemsAt : Items Double → Bool → Bytes → ℕ → Type 0
  ItemsAt m first rest f =
      read_members f first (serialize_items show_double first m ++ b'}' ∷ rest)
      ≡ some (view_items show_double m, rest)

  abbrev ElementsAt : Elements Double → Bool → Bytes → ℕ → Type 0
  ElementsAt vs first rest f =
      read_trees f first (serialize_elements show_double first vs ++ b']' ∷ rest)
      ≡ some (view_elements show_double vs, rest)

  abbrev ReadsValue : Value Double → Type 0
  ReadsValue v =
      is_printable v ≡ true
      → (f : ℕ) (rest : Bytes) → need v ≤ f
      → stops rest ≡ true
      → ValueAt v rest f

  abbrev ReadsItems : Items Double → Type 0
  ReadsItems m =
      are_printable_items m ≡ true
      → (f : ℕ) (first : Bool) (rest : Bytes) → need_items m ≤ f
      → ItemsAt m first rest f

  abbrev ReadsElements : Elements Double → Type 0
  ReadsElements vs =
      are_printable_elements vs ≡ true
      → (f : ℕ) (first : Bool) (rest : Bytes) → need_elements vs ≤ f
      → ElementsAt vs first rest f

  -- Fuel above 0 is a successor.
  spend {ℓ} :
      {n : ℕ} (P : ℕ → Type ℓ) → ((f : ℕ) → suc n ≤ suc f → P (suc f)) → (f : ℕ) → suc n ≤ f → P f
  spend P k zero h = absurd (omega arith)
  spend P k (suc f) h = k f h

  rest_printable :
      (k : Bytes) (v : Value Double) (m : Items Double)
      → (are_plain k && (is_printable v && are_printable_items m)) ≡ true
      → (is_printable v && are_printable_items m) ≡ true
  rest_printable k v m = and_right (are_plain k) (is_printable v && are_printable_items m)

  reads : (v : Value Double) → ReadsValue v
  unfolding need view is_printable
  reads v = elim v as ReadsValue ReadsItems ReadsElements [
    | Json.object (m → ih) ↦ λ o f rest h k.
        spend (ValueAt (Json.object m) rest)
          (λ g le.
            read_object show_double numeric g m (view_items show_double m) rest
              (ih o g true rest (omega arith)))
          f h
    | Json.array (vs → ih) ↦ λ o f rest h k.
        spend (ValueAt (Json.array vs) rest)
          (λ g le.
            read_array show_double numeric g vs (view_elements show_double vs) rest
              (ih o g true rest (omega arith)))
          f h
    | Json.string s ↦ λ o f rest h k.
        spend (ValueAt (Json.string s) rest) (λ g le. read_literal show_double numeric g s rest o) f
          h
    | integer negative n ↦ λ o f rest h k.
        spend (ValueAt (integer negative n) rest)
          (λ g le.
            read_scalar show_double numeric g (integer negative n) (show_int negative n) rest
              (serialize_integer show_double numeric negative n) (show_int-IsNumeric negative n) k)
          f h
    | float d ↦ λ o f rest h k.
        spend (ValueAt (float d) rest)
          (λ g le.
            read_scalar show_double numeric g (float d) (show_double d) rest
              (serialize_float show_double numeric d) (numeric d) k)
          f h
    | no_items ↦ λ o f first rest h.
        spend (ItemsAt no_items first rest) (λ g le. read_no_items show_double numeric g first rest)
          f h
    | item k (v → ih) (m → ihs) ↦ λ o f first rest h.
        spend (ItemsAt (item k v m) first rest)
          (λ g le.
            read_member show_double numeric g first k v m (view show_double v)
              (view_items show_double m) rest
              (and_left (are_plain k) (is_printable v && are_printable_items m) o)
              (ih (and_left (is_printable v) (are_printable_items m) (rest_printable k v m o)) g
                (serialize_items show_double false m ++ b'}' ∷ rest) (omega arith)
                (stops-items show_double numeric m rest))
              (ihs (and_right (is_printable v) (are_printable_items m) (rest_printable k v m o)) g
                false rest (omega arith)))
          f h
    | no_elements ↦ λ o f first rest h.
        spend (ElementsAt no_elements first rest)
          (λ g le. read_no_elements show_double numeric g first rest) f h
    | element (v → ih) (vs → ihs) ↦ λ o f first rest h.
        spend (ElementsAt (element v vs) first rest)
          (λ g le.
            read_element show_double numeric g first v vs (view show_double v)
              (view_elements show_double vs) rest
              (ih (and_left (is_printable v) (are_printable_elements vs) o) g
                (serialize_elements show_double false vs ++ b']' ∷ rest) (omega arith)
                (stops-elements show_double numeric vs rest))
              (ihs (and_right (is_printable v) (are_printable_elements vs) o) g false rest
                (omega arith)))
          f h
  ]

  element_length :
      (first : Bool) (v : Value Double) (vs : Elements Double)
      → length (serialize show_double v) + length (serialize_elements show_double false vs)
        ≤ length (serialize_elements show_double first (element v vs))
  unfolding serialize_elements
  element_length true v vs =
      omega
        (arith, length-append (serialize show_double v) (serialize_elements show_double false vs))
  element_length false v vs =
      omega
        (arith, length-append (serialize show_double v) (serialize_elements show_double false vs))

  item_length :
      (first : Bool) (k : Bytes) (v : Value Double) (m : Items Double)
      → length (serialize show_double v) + length (serialize_items show_double false m)
        ≤ length (serialize_items show_double first (item k v m))
  unfolding serialize_items
  item_length first k v m =
      let body = serialize show_double v ++ serialize_items show_double false m in
      omega (
        arith,
        length-append (comma first) (serialize_string k ++ b':' ∷ body),
        length-append (serialize_string k) (b':' ∷ body),
        length-append (serialize show_double v) (serialize_items show_double false m),
      )

  need_pos : (v : Value Double) → 1 ≤ need v
  unfolding need
  need_pos (Json.object m) = omega arith
  need_pos (Json.array vs) = omega arith
  need_pos (Json.string s) = omega arith
  need_pos (integer negative n) = omega arith
  need_pos (float d) = omega arith

  -- A value takes no more fuel than its text has characters.
  need_le : (v : Value Double) → need v ≤ length (serialize show_double v)
  unfolding need serialize serialize_items serialize_elements serialize_string
  need_le v =
      elim v
        as (λ v. need v ≤ length (serialize show_double v)) (λ m.
          (first : Bool) → need_items m ≤ suc (length (serialize_items show_double first m))) (λ vs.
            (first : Bool)
            → need_elements vs ≤ suc (length (serialize_elements show_double first vs))) [
              | Json.object (m → ih) ↦
                  omega
                    (arith, ih true, length-append (serialize_items show_double true m) (b'}' ∷ []))
              | Json.array (vs → ih) ↦ omega (
                arith,
                ih true,
                length-append (serialize_elements show_double true vs) (b']' ∷ []),
              )
              | Json.string s ↦ omega arith
              | integer negative n ↦
                  length-text (show_int negative n) (show_int-IsNumeric negative n).1
              | float d ↦ length-text (show_double d) (numeric d).1
              | no_items ↦ λ first. omega arith
              | item k (v → ih) (m → ihs) ↦
                  λ first. omega (arith, ih, need_pos v, ihs false, item_length first k v m)
              | no_elements ↦ λ first. omega arith
              | element (v → ih) (vs → ihs) ↦
                  λ first. omega (arith, ih, need_pos v, ihs false, element_length first v vs)
            ]

  -- What is written for a value, if the text of each of its doubles is a number by RFC 8259 and its
  -- strings and keys have no control characters but \b, \f, \n, \r and \t, is text that a strict reader of
  -- JSON, which does not look at how characters are encoded, takes whole, as the tree that the value stands
  -- for: its members and elements in their order, its strings byte for byte, its numbers as they are
  -- written.
  pub read_json-serialize :
      (v : Value Double)
      → is_printable v ≡ true
      → read_json (serialize show_double v) ≡ some (view show_double v)
  unfolding read_json
  read_json-serialize v h =
      let text = serialize show_double v in
      let read : read_value (length text + 1) text ≡ some (view show_double v, []) =
        ap (read_value (length text + 1)) (sym (append-nil text))
        ∙ reads v h (length text + 1) [] (omega (arith, need_le v)) refl in
      rw read refl
