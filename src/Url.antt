-- ===== src/Url.antt =====
-- `URL` of src/server/url.h: the constructor, as one function for each of its parts. The iterators `p`
-- and `q` are the text that is still to be read.
pub mod Parts
pub mod Joined
use fcgi_cpp_appserver.Common.{
  ℕ, ◌+◌, ◌≡◌, Bool, true, false, not, ◌&&◌, ◌||◌, Option, none, some, List, [], ◌∷◌, ◌++◌, leb,
  ◌==◌, if◌then◌else◌, length, take, drop,
}
use fcgi_cpp_appserver.Common.Bytes.{Bytes, codes, is_prefix}
use fcgi_cpp_appserver.Exception.{Exception, runtime_error}

pub record Url : Type 0 where
  pub source : Bytes
  pub schema : Bytes
  pub host : Bytes
  pub port : Bytes
  pub path : Bytes
  pub query : Bytes

-- The constructor's end.
pub data Made : Type 0 where
  made : Url → Made
  throws : Exception → Made

-- How many characters the schema has. A text of seven characters is followed by a NUL.
unfoldable pub schema_length : Bytes → ℕ
schema_length source =
    if leb 7 (length source) && is_prefix (codes "http") source
    then (if is_prefix (codes "s://") (drop 4 source)
        then 8
        else if is_prefix (codes "://") (drop 4 source)
        then 7
        else 0)
    else 0

-- A loop that stops at the first character of a kind, or at the end: what it went over, and the rest.
unfoldable pub break_at : (ℕ → Bool) → Bytes → Bytes × Bytes
break_at stops [] = ([], [])
break_at stops (c ∷ s) =
    let rest = break_at stops s in if stops c then ([], c ∷ s) else (c ∷ rest.0, rest.1)

abbrev pub ends_host : ℕ → Bool
ends_host c = c == b':' || c == b'/' || c == b'?'

abbrev pub ends_port : ℕ → Bool
ends_port c = not (leb b'0' c && leb c b'9')

abbrev pub ends_path : ℕ → Bool
ends_path c = c == b'?'

-- The path and what is behind it.
unfoldable pub take_path : Bytes → Bytes × Bytes
unfolding break_at
take_path [] = ([], [])
take_path (c ∷ s) = if c == b'/' then break_at ends_path (c ∷ s) else ([], c ∷ s)

unfoldable pub take_query : Bytes → Bytes
take_query [] = []
take_query (c ∷ s) = if c == b'?' then c ∷ s else []

-- The path and the query, behind the port.
unfoldable pub take_rest : Bytes → Bytes → Bytes → Bytes → Bytes → Url
unfolding take_path take_query
take_rest source schema host port p =
    let rest = take_path p in
    record {
      source = source;
      schema = schema;
      host = host;
      port = port;
      path = rest.0;
      query = take_query rest.1;
    }

unfoldable pub take_port : Bytes → Bytes → Bytes → Bytes → Made
unfolding take_rest break_at
take_port source schema host [] = made (take_rest source schema host [] [])
take_port source schema host (c ∷ s) =
    if c == b':'
    then (let rest = break_at ends_port s in
        if length rest.0 == 0
        then throws (runtime_error (codes "bad url"))
        else made (take_rest source schema host rest.0 rest.1))
    else made (take_rest source schema host [] (c ∷ s))

unfoldable pub create : Bytes → Made
unfolding schema_length break_at take_port
create source =
    let n = schema_length source in
    let rest = break_at ends_host (drop n source) in take_port source (take n source) rest.0 rest.1
