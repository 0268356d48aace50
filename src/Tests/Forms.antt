-- ===== src/Tests/Forms.antt =====
-- Forms and multipart bodies at concrete inputs.
use fcgi_cpp_appserver.Common.{◌<◌, ◌≡◌, ◌≢◌, refl, none, List, [], ◌∷◌, ◌++◌, arith}
use fcgi_cpp_appserver.Common.Bytes.{is_prefix, Bytes, codes}
use fcgi_cpp_appserver.Common.Dict.{All}
use fcgi_cpp_appserver.Multipart.{Parser, done, finish, stuck, process_buf}
use fcgi_cpp_appserver.Multipart.Setup.{create}
use fcgi_cpp_appserver.Multipart.Head.{IsName}
use fcgi_cpp_appserver.Multipart.RoundTrip.{
  Field, IsField, IsBoundary, body, content_type, stored, ready, process_buf-body, create-ready,
}
use fcgi_cpp_appserver.Multipart.Safety.{IsSafe, AllOutcome, create-IsSafe, process_buf-IsSafe}
use fcgi_cpp_appserver.Multipart.Feeds.{process_buf-append, ◌>>=◌}
use fcgi_cpp_appserver.Form.Reads.{
  first_named, text_or_empty, is_there, parse_form_data-first_named,
}
use fcgi_cpp_appserver.Common.Dict.{Dict}
use fcgi_cpp_appserver.Form.{
  has_formdata_param, get_formdata_param, strtol, parse_form_data, returns, read_loop,
}
use fcgi_cpp_appserver.Form.Fields.{parse_form_data-body, read_loop_any}

abbrev boundary : Bytes
boundary = codes "AaB03x"

abbrev field : Field
field = (codes "name", codes "a\r\nb")

abbrev fields : List Field
fields = field ∷ (codes "x", []) ∷ (codes "name", codes "c") ∷ []

boundary-IsBoundary : IsBoundary boundary
boundary-IsBoundary = record {
  not_empty = omega arith;
  no_space = refl;
  no_semicolon = refl;
  no_lf = refl;
  no_cr = refl;
  ascii = refl;
}

bob-IsName : IsName (codes "name")
bob-IsName = record { no_quote = refl; no_cr = refl; no_lf = refl; no_nul = refl }

short-IsName : IsName (codes "x")
short-IsName = record { no_quote = refl; no_cr = refl; no_lf = refl; no_nul = refl }

fields-IsField : All (IsField boundary 512) fields
unfolding is_prefix
fields-IsField = (
  record { name_ok = bob-IsName; line_fits = omega arith; value_ok = refl },
  (
    record { name_ok = short-IsName; line_fits = omega arith; value_ok = refl },
    (record { name_ok = bob-IsName; line_fits = omega arith; value_ok = refl }, tt),
  ),
)

length_positive : 0 < strtol (codes "200")
unfolding strtol
length_positive = ground arith

parse_form_data-body_example :
    parse_form_data (content_type boundary) (codes "200") (body boundary fields) []
    ≡ returns (stored 131072 [] fields)
parse_form_data-body_example =
    parse_form_data-body boundary (codes "200") [] fields boundary-IsBoundary length_positive
      fields-IsField

parse_form_data-first_named_example :
    (params : Dict Bytes) × (parse_form_data
        (content_type boundary)
        (codes "200")
        (body boundary fields)
        []
      ≡ returns params)
    × (get_formdata_param params (codes "name")
        ≡ text_or_empty (first_named 131072 (codes "name") fields))
    × (has_formdata_param params (codes "name")
        ≡ is_there (first_named 131072 (codes "name") fields))
parse_form_data-first_named_example =
    parse_form_data-first_named boundary (codes "200") (codes "name") fields boundary-IsBoundary
      length_positive fields-IsField

process_buf-body_example :
    (p q : Parser) × (create (content_type boundary) 512 2 [] ≡ done p)
    × (process_buf p (body boundary fields) ≡ done q)
    × (q.state ≡ finish)
    × (q.params ≡ stored 2 [] fields)
process_buf-body_example =
    process_buf-body boundary 2 512 (omega arith) boundary-IsBoundary [] fields (omega arith)
      fields-IsField

-- A parser with room for few bytes.
abbrev small : Parser
small = ready boundary 4 40 []

small-IsSafe : IsSafe small
small-IsSafe =
    create-IsSafe (content_type boundary) 40 4 [] (omega arith) (omega arith)
      (create-ready boundary 4 40 (omega arith) boundary-IsBoundary [])

process_buf-append_example :
    (process_buf small (b'-' ∷ ([] ++ b'-' ∷ codes "AaB03x--"))
      ≡ (process_buf small (b'-' ∷ []) >>= λ q. process_buf q (b'-' ∷ codes "AaB03x--")))
    × (process_buf small (b'-' ∷ ([] ++ b'-' ∷ codes "AaB03x--")) ≢ stuck)
process_buf-append_example = process_buf-append small b'-' [] b'-' (codes "AaB03x--") small-IsSafe

process_buf-IsSafe_example : AllOutcome IsSafe (process_buf small (codes "--AaB03x\r\nname\r\n"))
process_buf-IsSafe_example = process_buf-IsSafe small (codes "--AaB03x\r\nname\r\n") small-IsSafe

read_loop_any_example :
    (read_loop 300 4 (body boundary fields) small
      ≡ read_loop 200 32768 (body boundary fields) small)
    × (read_loop 300 4 (body boundary fields) small ≢ none)
read_loop_any_example =
    read_loop_any 300 4 200 32768 (body boundary fields) small small-IsSafe (omega arith)
      (omega arith) (ground arith) (ground arith)
