-- ===== src/Json/Reader.antt =====
-- A reader of JSON's text for what src/server/json.cpp writes. What it takes, RFC 8259 takes too, but for how
-- characters are encoded, which it does not look at; it takes no blanks, no `true`, `false` or `null`, and
-- no escape by a number. A number stays the text that it is, since a stream writes 3.0 as it writes 3.
use fcgi_cpp_appserver.Common.{
  ℕ, zero, suc, ◌+◌, Bool, true, false, ◌||◌, ◌&&◌, Option, none, some, [], ◌∷◌, ◌==◌, leb,
  if◌then◌else◌, length,
}
use fcgi_cpp_appserver.Common.Bytes.{Bytes}
use fcgi_cpp_appserver.Json.Strings.{read_string}

mutual
  pub data Tree : Type 0 where
    object : Members → Tree
    array : Trees → Tree
    string number : Bytes → Tree

  pub data Members : Type 0 where
    no_members : Members
    member : Bytes → Tree → Members → Members

  pub data Trees : Type 0 where
    no_trees : Trees
    tree : Tree → Trees → Trees

-- The characters of numbers.
abbrev pub is_numeric : ℕ → Bool
is_numeric c =
    leb b'0' c && leb c b'9' || c == b'-' || c == b'+' || c == b'.' || c == b'e' || c == b'E'

infixl 5 ◌>>=◌
abbrev pub ◌>>=◌ {ℓ κ} : {A : Type ℓ} {B : Type κ} → Option A → (A → Option B) → Option B
none >>= f = none
some a >>= f = f a

unfoldable pub read_digits : Bytes → Bytes × Bytes
read_digits [] = ([], [])
read_digits (c ∷ s) =
    let rest = read_digits s in if is_numeric c then (c ∷ rest.0, rest.1) else ([], c ∷ s)

-- A character that must stand there.
abbrev pub expect : ℕ → Bytes → Option Bytes
expect d [] = none
expect d (c ∷ s) = if c == d then some s else none

abbrev pub separated : Bool → Bytes → Option Bytes
separated true s = some s
separated false s = expect b',' s

-- How far the text of a number has been read.
pub data Part : Type 0 where
  start minus lone_zero whole dot fraction exponent_mark exponent_sign exponent wrong : Part

abbrev is_digit : ℕ → Bool
is_digit c = leb b'0' c && leb c b'9'

-- Behind the digits before the point; behind them and those after it.
abbrev after_whole : ℕ → Part
after_whole c = if c == b'.' then dot else if c == b'e' || c == b'E' then exponent_mark else wrong

abbrev first_digit : ℕ → Part
first_digit c = if c == b'0' then lone_zero else if is_digit c then whole else wrong

abbrev pub advance : Part → ℕ → Part
advance start c = if c == b'-' then minus else first_digit c
advance minus c = first_digit c
advance lone_zero c = after_whole c
advance whole c = if is_digit c then whole else after_whole c
advance dot c = if is_digit c then fraction else wrong
advance fraction c =
    if is_digit c then fraction else if c == b'e' || c == b'E' then exponent_mark else wrong
advance exponent_mark c =
    if is_digit c then exponent else if c == b'-' || c == b'+' then exponent_sign else wrong
advance exponent_sign c = if is_digit c then exponent else wrong
advance exponent c = if is_digit c then exponent else wrong
advance wrong c = wrong

abbrev pub advances : Part → Bytes → Part
advances p [] = p
advances p (c ∷ s) = advances (advance p c) s

abbrev pub is_complete : Part → Bool
is_complete lone_zero = true
is_complete whole = true
is_complete fraction = true
is_complete exponent = true
is_complete _ = false

-- The grammar of numbers.
abbrev pub is_number : Bytes → Bool
is_number s = is_complete (advances start s)

-- As many characters of numbers as there are; they must be a number.
abbrev pub read_number : Bytes → Option (Tree × Bytes)
read_number [] = none
read_number (c ∷ s) =
    if is_number (read_digits (c ∷ s)).0
    then some (number (read_digits (c ∷ s)).0, (read_digits (c ∷ s)).1)
    else none

abbrev pub closes : ℕ → Bytes → Bool
closes d [] = false
closes d (c ∷ s) = c == d

-- On fuel: a call for a value, or for what is left of a list, takes one.
unfoldable mutual
  pub read_value : ℕ → Bytes → Option (Tree × Bytes)
  read_value zero s = none
  read_value (suc f) [] = none
  read_value (suc f) (c ∷ s) =
      let members = read_members f true s >>= λ (ms, rest). some (object ms, rest) in
      let trees = read_trees f true s >>= λ (ts, rest). some (array ts, rest) in
      if c == b'{'
      then members
      else if c == b'['
      then trees
      else if c == b'"'
      then read_string (c ∷ s) >>= (λ (t, rest). some (string t, rest))
      else read_number (c ∷ s)

  pub read_members : ℕ → Bool → Bytes → Option (Members × Bytes)
  read_members zero first s = none
  read_members (suc f) first s =
      let more = separated first s >>= λ s1. read_string s1 >>= λ (k, s2). expect b':' s2 >>= λ s3.
      read_value f s3 >>= λ (v, s4).
      read_members f false s4 >>= λ (ms, s5). some (member k v ms, s5) in
      if closes b'}' s then (expect b'}' s >>= λ rest. some (no_members, rest)) else more

  pub read_trees : ℕ → Bool → Bytes → Option (Trees × Bytes)
  read_trees zero first s = none
  read_trees (suc f) first s =
      let more = separated first s >>= λ s1.
      read_value f s1 >>= λ (v, s2). read_trees f false s2 >>= λ (ts, s3). some (tree v ts, s3) in
      if closes b']' s then (expect b']' s >>= λ rest. some (no_trees, rest)) else more

-- A whole text.
unfoldable pub read_json : Bytes → Option Tree
unfolding read_value
read_json s =
    read_value (length s + 1) s >>= λ (t, rest). elim rest [ [] ↦ some t | ◌∷◌ c r ↦ none ]
