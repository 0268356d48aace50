-- ===== src/Json/Strings.antt =====
-- A string that is written is read back.
use fcgi_cpp_appserver.Common.{
  ℕ, ◌≡◌, refl, Bool, true, false, Option, none, some, [], ◌∷◌, ◌++◌, ◌==◌, ◌||◌, ◌&&◌, leb,
  if◌then◌else◌, arith, append_assoc,
}
use fcgi_cpp_appserver.Common.Bytes.{Bytes}
use fcgi_cpp_appserver.Json.{escape, escape_all, serialize_string}

-- The character that stands behind a backslash, by RFC 8259; but for `u`, which is not taken.
abbrev unescape : ℕ → Option ℕ
unescape c =
    if c == b'"' || c == b'\\' || c == b'/'
    then some c
    else if c == b'b'
    then some 8
    else if c == b'f'
    then some 12
    else if c == b'n'
    then some b'\n'
    else if c == b'r'
    then some b'\r'
    else if c == b't'
    then some b'\t'
    else none

-- A character that a literal can hold: no control character but the five that have a short escape.
abbrev pub is_plain : ℕ → Bool
is_plain c = leb 32 c || c == 8 || c == 12 || c == b'\n' || c == b'\r' || c == b'\t'

abbrev pub are_plain : Bytes → Bool
are_plain [] = true
are_plain (c ∷ s) = is_plain c && are_plain s

abbrev push : ℕ → Option (Bytes × Bytes) → Option (Bytes × Bytes)
push c none = none
push c (some (s, rest)) = some (c ∷ s, rest)

-- The characters up to the closing quote, and what is behind it; whether a backslash was read last. A
-- control character ends it, since it must be escaped. How characters are encoded is not looked at.
unfoldable read_chars : Bool → Bytes → Option (Bytes × Bytes)
read_chars escaped [] = none
read_chars true (c ∷ s) =
    let rest = read_chars false s in elim (unescape c) [ none ↦ none | some d ↦ push d rest ]
read_chars false (c ∷ s) =
    let plain = read_chars false s in
    let behind = read_chars true s in
    if c == b'"'
    then some ([], s)
    else if c == b'\\'
    then behind
    else if leb 32 c
    then push c plain
    else none

-- A string literal and what is behind it.
unfoldable pub read_string : Bytes → Option (Bytes × Bytes)
unfolding read_chars
read_string [] = none
read_string (c ∷ s) = if c == b'"' then read_chars false s else none

read_escape :
    (c : ℕ) (t : Bytes)
    → is_plain c ≡ true
    → read_chars false (escape c ++ t) ≡ push c (read_chars false t)
unfolding read_chars escape
read_escape c t h = ground (arith, h)

pub and_left : (a b : Bool) → (a && b) ≡ true → a ≡ true
and_left true b h = refl
and_left false b h = h

pub and_right : (a b : Bool) → (a && b) ≡ true → b ≡ true
and_right true b h = h
and_right false b h = absurd (cc)

read_chars-escape_all :
    (s t : Bytes) → are_plain s ≡ true → read_chars false (escape_all s ++ b'"' ∷ t) ≡ some (s, t)
unfolding read_chars escape_all
read_chars-escape_all [] t h = refl
read_chars-escape_all (c ∷ s) t h =
    rw
      (
        append_assoc (escape c) (escape_all s) (b'"' ∷ t),
        read_escape c (escape_all s ++ b'"' ∷ t) (and_left (is_plain c) (are_plain s) h),
        read_chars-escape_all s t (and_right (is_plain c) (are_plain s) h),
      )
      refl

-- The literal that is written for a string with no control characters but those that have a short escape
-- is read back, up to its own closing quote.
pub read_string-serialize_string :
    (s rest : Bytes)
    → are_plain s ≡ true
    → read_string (serialize_string s ++ rest) ≡ some (s, rest)
unfolding read_string serialize_string
read_string-serialize_string s rest h =
    rw (append_assoc (escape_all s) (b'"' ∷ []) rest) (read_chars-escape_all s rest h)
