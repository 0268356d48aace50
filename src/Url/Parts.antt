-- ===== src/Url/Parts.antt =====
-- A URL that is put together is taken apart into its parts.
use fcgi_cpp_appserver.Common.{
  ℕ, ◌≡◌, refl, sym, subst, ap, ◌∙◌, Bool, true, false, not, [], ◌∷◌, ◌++◌, ◌==◌, arith,
}
use fcgi_cpp_appserver.Common.Bytes.{Bytes, codes, is_prefix}
use fcgi_cpp_appserver.Common.Dict.{All}
use fcgi_cpp_appserver.Url.{
  made, schema_length, break_at, ends_host, ends_port, ends_path, take_path, take_query, take_rest,
  take_port, create,
}

-- What stops a loop: a character of the kind, or the end.
abbrev pub Stopped : (ℕ → Bool) → Bytes → Type 0
Stopped stops [] = Unit
Stopped stops (c ∷ s) = stops c ≡ true

break_at-append :
    (stops : ℕ → Bool) (a s : Bytes)
    → All (λ c. stops c ≡ false) a
    → Stopped stops s
    → break_at stops (a ++ s) ≡ (a, s)
unfolding break_at
break_at-append stops [] [] h e = refl
break_at-append stops [] (c ∷ s) h e = ground (arith, e)
break_at-append stops (c ∷ a) s h e = ground (arith, h.0, break_at-append stops a s h.1 e)

-- A port, a path and a query as they stand in a URL.
abbrev pub show_port : Bytes → Bytes
show_port [] = []
show_port (c ∷ s) = b':' ∷ c ∷ s

abbrev pub IsPath : Bytes → Type 0
IsPath [] = Unit
IsPath (c ∷ s) = (c ≡ b'/') × All (λ d. ends_path d ≡ false) s

abbrev pub IsQuery : Bytes → Type 0
IsQuery [] = Unit
IsQuery (c ∷ s) = c ≡ b'?'

pub take_query_lem : (query : Bytes) → IsQuery query → take_query query ≡ query
unfolding take_query
take_query_lem [] h = refl
take_query_lem (c ∷ s) h = ground (arith, h)

IsQuery-Stopped : (query : Bytes) → IsQuery query → Stopped ends_path query
IsQuery-Stopped [] h = tt
IsQuery-Stopped (c ∷ s) h = ground (arith, h)

take_path-append :
    (path query : Bytes) → IsPath path → IsQuery query → take_path (path ++ query) ≡ (path, query)
unfolding take_path
take_path-append [] [] h k = refl
take_path-append [] (c ∷ s) h k = ground (arith, k)
take_path-append (c ∷ path) query h k = ground (
  arith,
  h.0,
  break_at-append ends_path (c ∷ path) query (ground (arith, h.0), h.1) (IsQuery-Stopped query k),
)

take_rest_lem :
    (source schema host port path query : Bytes)
    → IsPath path
    → IsQuery query
    → take_rest source schema host port (path ++ query) ≡ record {
      source = source;
      schema = schema;
      host = host;
      port = port;
      path = path;
      query = query;
    }
unfolding take_rest
take_rest_lem source schema host port path query h k =
    rw (take_path-append path query h k, take_query_lem query k) refl

-- What is behind the host or the port: a path, a query or the end.
rest-Stopped :
    (stops : ℕ → Bool) (path query : Bytes)
    → stops b'/' ≡ true
    → stops b'?' ≡ true
    → IsPath path
    → IsQuery query
    → Stopped stops (path ++ query)
rest-Stopped stops [] [] a b h k = tt
rest-Stopped stops [] (c ∷ query) a b h k = subst (λ d. stops d ≡ true) (sym k) b
rest-Stopped stops (c ∷ path) query a b h k = subst (λ d. stops d ≡ true) (sym h.0) a

abbrev pub no_colon : ℕ → Bool
no_colon c = not (c == b':')

take_port_none :
    (source schema host rest : Bytes)
    → Stopped no_colon rest
    → take_port source schema host rest ≡ made (take_rest source schema host [] rest)
unfolding take_port
take_port_none source schema host [] h = refl
take_port_none source schema host (c ∷ rest) h = ground (arith, h)

take_port-append :
    (source schema host port path query : Bytes)
    → All (λ c. ends_port c ≡ false) port
    → IsPath path
    → IsQuery query
    → take_port source schema host (show_port port ++ (path ++ query))
      ≡ made (take_rest source schema host port (path ++ query))
unfolding take_port
take_port-append source schema host [] path query d h k =
    take_port_none source schema host (path ++ query)
      (rest-Stopped no_colon path query refl refl h k)
take_port-append source schema host (c ∷ port) path query d h k =
    let e =
      break_at-append ends_port (c ∷ port) (path ++ query) d
        (rest-Stopped ends_port path query refl refl h k) in
    ground (arith, e)

host-Stopped :
    (port path query : Bytes)
    → IsPath path
    → IsQuery query
    → Stopped ends_host (show_port port ++ (path ++ query))
host-Stopped [] path query h k = rest-Stopped ends_host path query refl refl h k
host-Stopped (c ∷ port) path query h k = refl

abbrev pub scheme : Bool → Bytes
scheme true = codes "https://"
scheme false = codes "http://"

-- The text of a URL with a schema.
abbrev pub show_url : Bool → Bytes → Bytes → Bytes → Bytes → Bytes
show_url secure host port path query =
    scheme secure ++ (host ++ (show_port port ++ (path ++ query)))

http_length : (rest : Bytes) → schema_length (codes "http://" ++ rest) ≡ 7
unfolding schema_length is_prefix
http_length rest = ground arith

https_length : (rest : Bytes) → schema_length (codes "https://" ++ rest) ≡ 8
unfolding schema_length is_prefix
https_length rest = ground arith

create_rest :
    (secure : Bool) (rest : Bytes)
    → create (scheme secure ++ rest)
      ≡ take_port
          (scheme secure ++ rest)
          (scheme secure)
          (break_at ends_host rest).0
          (break_at ends_host rest).1
unfolding create
create_rest true rest = rw (https_length rest) refl
create_rest false rest = rw (http_length rest) refl

-- A URL that is put together of a schema, a host without ':', '/' and '?', a port of digits or none, a
-- path that is empty or begins with '/' and has no '?', and a query that is empty or begins with '?',
-- is taken apart into these parts.
pub create-show_url :
    (secure : Bool) (host port path query : Bytes)
    → All (λ c. ends_host c ≡ false) host
    → All (λ c. ends_port c ≡ false) port
    → IsPath path
    → IsQuery query
    → create (show_url secure host port path query)
      ≡ made (record {
        source = show_url secure host port path query;
        schema = scheme secure;
        host = host;
        port = port;
        path = path;
        query = query;
      })
create-show_url secure host port path query n d h k =
    let text = show_url secure host port path query in
    create_rest secure (host ++ (show_port port ++ (path ++ query)))
    ∙ rw
        (break_at-append ends_host host (show_port port ++ (path ++ query)) n
          (host-Stopped port path query h k))
        (take_port-append text (scheme secure) host port path query d h k
          ∙ ap made (take_rest_lem text (scheme secure) host port path query h k))
