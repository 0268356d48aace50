-- ===== src/Form/Fields.antt =====
-- What a handler finds in the map after `parse_form_data`.
use fcgi_cpp_appserver.Common.{
  ℕ, ◌+◌, ◌<◌, ◌≡◌, refl, sym, ap, ◌∙◌, ◌≢◌, none, some, List, [], ◌∷◌, ◌++◌, arith, ltb,
  if◌then◌else◌, length,
}
use fcgi_cpp_appserver.Common.Bytes.{Bytes, codes, find_at, span_none, starts_nocase}
use fcgi_cpp_appserver.Common.Dict.{Dict, All}
use fcgi_cpp_appserver.Multipart.{Parser, done}
use fcgi_cpp_appserver.Multipart.Setup.{create, parse_content_type}
use fcgi_cpp_appserver.Multipart.Safety.{IsSafe, create-IsSafe}
use fcgi_cpp_appserver.Multipart.Feeds.{process_buf-feeds}
use fcgi_cpp_appserver.Multipart.RoundTrip.{
  Field, IsField, IsBoundary, body, parts, content_type, stored, ready, process_buf-body,
}
use fcgi_cpp_appserver.Form.{strtol, read_loop, parse_form_data, returns, stdin_max}
use fcgi_cpp_appserver.Form.Whole.{after, read_loop-after}

-- From a safe parser the size of the chunks in which the body is read, if it is above 0, makes no
-- difference, also where a chunk throws and the exception is swallowed; and fuel above the body's
-- length suffices.
pub read_loop_any :
    (fuel clen fuel' clen' : ℕ) (input : Bytes) (p : Parser)
    → IsSafe p
    → 0 < clen
    → 0 < clen'
    → length input < fuel
    → length input < fuel'
    → (read_loop fuel clen input p ≡ read_loop fuel' clen' input p)
      × (read_loop fuel clen input p ≢ none)
read_loop_any fuel clen fuel' clen' input p s h h' l l' =
    let e = read_loop-after fuel clen input p s h l in
    (e ∙ sym (read_loop-after fuel' clen' input p s h' l'), λ x. cc)

strtol_pos : (s : Bytes) → 0 < strtol s → 0 < length s
unfolding strtol
strtol_pos [] h = absurd (omega arith)
strtol_pos (c ∷ s) h = omega arith

-- Where the parser can be made the call returns, with the map of one parser that reads the whole body.
parse_form_data-after :
    (type length_text input : Bytes) (m : Dict Bytes) (p : Parser)
    → 0 < length type
    → 0 < strtol length_text
    → create type 512 131072 m ≡ done p
    → parse_form_data type length_text input m ≡ returns (after p input).params
unfolding parse_form_data
parse_form_data-after type length_text input m p t l made =
    let safe = create-IsSafe type 512 131072 m (omega arith) (omega arith) made in
    let n = if ltb stdin_max (strtol length_text) then stdin_max else strtol length_text in
    let positive : 0 < n = ground arith in
    let loop = read_loop-after (length input + 1) n input p safe positive (omega arith) in
    ground (arith, strtol_pos length_text l, made, loop)

-- For a boundary's name of ASCII characters that the parser reads and fields that can be sent: the call on
-- the form's body returns, whatever number above 0 the Content-Length is, and the map then holds each
-- field, of two with one name the first, and of each value at most the first 128 KB.
pub parse_form_data-body :
    (b length_text : Bytes) (m : Dict Bytes) (fs : List Field)
    → IsBoundary b
    → 0 < strtol length_text
    → All (IsField b 512) fs
    → parse_form_data (content_type b) length_text (body b fs) m ≡ returns (stored 131072 m fs)
parse_form_data-body b length_text m fs ok l h =
    let (p, q, made, read, fin, kept) =
      process_buf-body b 131072 512 (omega arith) ok m fs (omega arith) h in
    let safe = create-IsSafe (content_type b) 512 131072 m (omega arith) (omega arith) made in
    let whole : after p (body b fs) ≡ q =
      ground (arith, process_buf-feeds p b'-' (b'-' ∷ (b ++ parts b fs)) safe, read) in
    parse_form_data-after (content_type b) length_text (body b fs) m p (omega arith) l made
    ∙ ap returns (ap (λ (r : Parser). r.params) whole ∙ kept)

semicolon_at :
    (s : Bytes) → find_at 0 (b';' ∷ []) (codes "multipart/form-data" ++ b';' ∷ s) ≡ some 19
unfolding find_at
semicolon_at s = refl

-- A Content-Type "multipart/form-data;" with no "boundary=" behind is not refused: the boundary is
-- then a piece of the type's own name.
pub create_no_boundary :
    (s : Bytes) (max size : ℕ) (m : Dict Bytes)
    → find_at 19 (codes "boundary=") (b';' ∷ s) ≡ none
    → create (codes "multipart/form-data" ++ b';' ∷ s) max size m
      ≡ done (ready (codes "t/form-data") size max m)
unfolding create parse_content_type starts_nocase span_none
create_no_boundary s max size m h = ground (arith, semicolon_at s, h)
