-- ===== src/Common/Bytes.antt =====
-- Byte strings (`std::string` and C strings) and the operations of the standard library that the
-- program applies to them.
use Prim.Native.Char.{code}
use Prim.Native.String.{String}
use fcgi_cpp_appserver.Common.{
  ℕ, ◌+◌, ◌≤◌, ◌≡◌, refl, ◌↔◌, Bool, true, false, ◌&&◌, ◌||◌, Option, none, some, List, [], ◌∷◌,
  ◌++◌, arith, ltb, leb, ◌==◌, if◌then◌else◌, length, take, drop,
}

abbrev pub Bytes : Type 0
Bytes = List ℕ

-- The code points of a text: its bytes, if it is ASCII.
abbrev pub codes : String → Bytes
codes String.[] = []
codes (String.◌∷◌ c s) = code c ∷ codes s

-- `std::string::npos`, of a 64-bit `size_t`.
abbrev pub npos : ℕ
npos = 18446744073709551615

-- `a == b` on strings.
unfoldable pub equal : Bytes → Bytes → Bool
equal [] [] = true
equal [] (y ∷ ys) = false
equal (x ∷ xs) [] = false
equal (x ∷ xs) (y ∷ ys) = x == y && equal xs ys

pub equal_iff : (a b : Bytes) → (equal a b ≡ true) ↔ (a ≡ b)
unfolding equal
equal_iff [] [] = ground arith
equal_iff [] (y ∷ ys) = ground arith
equal_iff (x ∷ xs) [] = ground arith
equal_iff (x ∷ xs) (y ∷ ys) = ground (arith, equal_iff xs ys)

pub equal_refl : (a : Bytes) → equal a a ≡ true
equal_refl a = (equal_iff a a).1 refl

-- `a < b` on strings: lexicographic on unsigned bytes.
unfoldable pub less : Bytes → Bytes → Bool
less a [] = false
less [] (y ∷ ys) = true
less (x ∷ xs) (y ∷ ys) = ltb x y || x == y && less xs ys

-- `memcmp(a, b, size of a) == 0`, where `b` has as many bytes.
unfoldable pub is_prefix : Bytes → Bytes → Bool
is_prefix [] s = true
is_prefix (x ∷ xs) [] = false
is_prefix (x ∷ xs) (y ∷ ys) = x == y && is_prefix xs ys

-- The first position at or after `i` where `needle` occurs, `s` being the text from `i` on.
unfoldable pub find_at : ℕ → Bytes → Bytes → Option ℕ
unfolding is_prefix
find_at i needle [] = if is_prefix needle [] then some i else none
find_at i needle (c ∷ s) = if is_prefix needle (c ∷ s) then some i else find_at (i + 1) needle s

-- `s.find(needle)`; `none` is `npos`.
unfoldable pub find : Bytes → Bytes → Option ℕ
unfolding find_at
find s needle = find_at 0 needle s

-- The position of the first `d` in `s`, which starts at `i`.
unfoldable pub index_at : ℕ → ℕ → Bytes → Option ℕ
index_at i d [] = none
index_at i d (c ∷ s) = if c == d then some i else index_at (i + 1) d s

-- `s.find_first_of(d, pos)`.
unfoldable pub find_first_of : Bytes → ℕ → ℕ → ℕ
unfolding index_at
find_first_of s d pos = elim (index_at pos d (drop pos s)) [ none ↦ npos | some i ↦ i ]

-- `s.substr(pos, n)` and `std::string(s, pos, n)`; `none` is `std::out_of_range`.
unfoldable pub substr : Bytes → ℕ → ℕ → Option Bytes
substr s pos n = if ltb (length s) pos then none else some (take n (drop pos s))

-- The characters of a C string that starts at the head of `s`.
unfoldable pub c_str : Bytes → Bytes
c_str [] = []
c_str (c ∷ s) = if c == 0 then [] else c ∷ c_str s

-- `tolower` in the "C" locale.
unfoldable pub to_lower : ℕ → ℕ
to_lower c = if leb b'A' c && leb c b'Z' then c + 32 else c

-- `strncasecmp(literal, s, strlen(literal)) == 0`; the literals of the program hold no NUL.
unfoldable pub starts_nocase : Bytes → Bytes → Bool
unfolding to_lower
starts_nocase [] s = true
starts_nocase (x ∷ xs) [] = false
starts_nocase (x ∷ xs) (y ∷ ys) = to_lower x == to_lower y && starts_nocase xs ys

-- `s + strspn(s, " ")`.
unfoldable pub skip_spaces : Bytes → Bytes
skip_spaces [] = []
skip_spaces (c ∷ s) = if c == b' ' then skip_spaces s else c ∷ s

abbrev pub member : ℕ → Bytes → Bool
member c [] = false
member c (x ∷ xs) = c == x || member c xs

-- The first `strcspn(s, stops)` characters of a C string.
unfoldable pub span_none : Bytes → Bytes → Bytes
span_none stops [] = []
span_none stops (c ∷ s) = if member c stops then [] else c ∷ span_none stops s

-- `strstr(s, needle)`: the text from the first occurrence on.
unfoldable pub strstr : Bytes → Bytes → Option Bytes
unfolding is_prefix
strstr needle [] = if is_prefix needle [] then some [] else none
strstr needle (c ∷ s) = if is_prefix needle (c ∷ s) then some (c ∷ s) else strstr needle s

pub is_prefix-append : (a s : Bytes) → is_prefix a (a ++ s) ≡ true
unfolding is_prefix
is_prefix-append [] s = refl
is_prefix-append (x ∷ a) s = ground (arith, is_prefix-append a s)

find_at-ge : (i : ℕ) (w s : Bytes) (j : ℕ) → find_at i w s ≡ some j → i ≤ j
unfolding find_at
find_at-ge i w [] j h = ground arith
find_at-ge i w (c ∷ s) j h = ground (arith, find_at-ge (i + 1) w s j)

-- `s.find(w) == 0` holds exactly when `w` is a prefix of `s`.
pub find_zero : (s w : Bytes) → (find s w ≡ some 0) ↔ (is_prefix w s ≡ true)
unfolding find
find_zero [] w = (λ h. ground arith, λ h. ground arith)
find_zero (c ∷ s) w = (λ h. ground (arith, find_at-ge (0 + 1) w s 0), λ h. ground arith)

-- `w` stands somewhere in `s`.
abbrev pub contains : Bytes → Bytes → Bool
contains w [] = is_prefix w []
contains w (c ∷ s) = is_prefix w (c ∷ s) || contains w s

pub contains-append : (w a s : Bytes) → contains w (a ++ s) ≡ false → contains w s ≡ false
contains-append w [] s h = h
contains-append w (x ∷ a) s h = contains-append w a s (ground arith)

pub contains-prefix : (w s : Bytes) → contains w (w ++ s) ≡ true
unfolding is_prefix
contains-prefix [] [] = refl
contains-prefix [] (c ∷ s) = refl
contains-prefix (x ∷ w) s = ground (arith, is_prefix-append w s)
