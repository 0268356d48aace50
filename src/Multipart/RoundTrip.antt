-- ===== src/Multipart/RoundTrip.antt =====
-- A body that a browser writes is read back, field by field.
use fcgi_cpp_appserver.Common.{
  ℕ, ◌+◌, ◌<◌, ◌≡◌, refl, ◌∙◌, ◌≢◌, true, false, List, [], ◌∷◌, ◌++◌, arith, length, take, drop,
  get_or, zero, suc, Bool, ◌&&◌, ltb, drop-cons,
}
use fcgi_cpp_appserver.Common.Bytes.{
  Bytes, codes, member, contains, span_none, starts_nocase, find_at,
}
use fcgi_cpp_appserver.Common.Dict.{Dict, insert, All}
use fcgi_cpp_appserver.Multipart.{
  boundary_seek, after_boundary, finish, Parser, done, next, pass_boundary, seek_boundary, step,
  step_in, process_buf,
}
use fcgi_cpp_appserver.Multipart.Setup.{create, parse_content_type}
use fcgi_cpp_appserver.Multipart.Safety.{create-IsSafe}
use fcgi_cpp_appserver.Multipart.Feeds.{feed, feeds, process_buf-feeds}
use fcgi_cpp_appserver.Multipart.Values.{bare, full, AtBoundary}
use fcgi_cpp_appserver.Multipart.Scan.{scan_value}
use fcgi_cpp_appserver.Multipart.Head.{IsName, head_line, part_head, enter_part}

-- A name and a value.
abbrev pub Field : Type 0
Field = Bytes × Bytes

-- The parts behind the first boundary, each with the boundary behind it, and the closing "--".
abbrev pub parts : Bytes → List Field → Bytes
parts b [] = codes "--\r\n"
parts b ((n, v) ∷ fs) = part_head n ++ (v ++ full b ++ parts b fs)

-- A multipart/form-data body with the boundary `b`.
abbrev pub body : Bytes → List Field → Bytes
body b fs = b'-' ∷ b'-' ∷ (b ++ parts b fs)

-- The header of the request that goes with it.
abbrev pub content_type : Bytes → Bytes
content_type b = codes "multipart/form-data; boundary=" ++ b

-- What the map should hold: of two fields with one name the first stays, and a value is cut to `size`.
abbrev pub stored : ℕ → Dict Bytes → List Field → Dict Bytes
stored size m [] = m
stored size m ((n, v) ∷ fs) = stored size (insert n (take size v) m) fs

-- A field that can be sent: its header line fits, and its value does not hold the boundary, also not
-- behind a bare LF.
pub record IsField (b : Bytes) (max : ℕ) (f : Field) : Type 0 where
  pub name_ok : IsName f.0
  pub line_fits : length (head_line f.0) < max
  pub value_ok : contains (bare b) f.1 ≡ false

-- Bytes that a `char` holds as they are.
abbrev pub are_ascii : Bytes → Bool
are_ascii [] = true
are_ascii (c ∷ s) = ltb c 128 && are_ascii s

get_or-are_ascii : (s : Bytes) (k : ℕ) → are_ascii s ≡ true → get_or s k 0 < 128
get_or-are_ascii [] k h = omega arith
get_or-are_ascii (c ∷ s) zero h = ground arith
get_or-are_ascii (c ∷ s) (suc k) h = get_or-are_ascii s k (ground arith)

-- A boundary's name as `upload_parse_content_type` reads it, of ASCII characters, as RFC 2046 has them.
pub record IsBoundary (b : Bytes) : Type 0 where
  pub not_empty : 0 < length b
  pub no_space : member b' ' b ≡ false
  pub no_semicolon : member b';' b ≡ false
  pub no_lf : member b'\n' b ≡ false
  pub no_cr : member b'\r' b ≡ false
  pub ascii : are_ascii b ≡ true

span_none_all :
    (b : Bytes)
    → member b' ' b ≡ false
    → member b';' b ≡ false
    → member b'\n' b ≡ false
    → member b'\r' b ≡ false
    → span_none (codes " ;\n\r") b ≡ b
unfolding span_none
span_none_all [] h i j k = refl
span_none_all (c ∷ b) h i j k = ground (arith, span_none_all b)

-- The parser that the constructor makes for `content_type b`.
abbrev pub ready : Bytes → ℕ → ℕ → Dict Bytes → Parser
ready b size max m = record {
  params = m;
  boundary = full b;
  field_name = [];
  field_value = [];
  content_type = [];
  state = boundary_seek;
  boundary_start = 2;
  boundary_pos = 2;
  header = [];
  max_header_len = max;
  output = [];
  buffer_size = size;
  discard_data = false;
  first_part = true;
}

module _ (b : Bytes) (size max : ℕ) (size_pos : 0 < size) (ok : IsBoundary b) where
  low : (k : ℕ) → get_or (full b) k 0 < 128
  low k = get_or-are_ascii (full b) k ok.ascii

  read_finish : (t : Bytes) (p : Parser) → p.state ≡ finish → feeds p t ≡ done p
  unfolding step step_in
  read_finish [] p m = refl
  read_finish (c ∷ t) p m = ground (arith, read_finish t p m)

  read_closing :
      (m : Dict Bytes) (p : Parser)
      → AtBoundary b m size max p
      → feeds p (codes "--\r\n") ≡ done (record p { state = finish })
  unfolding step step_in pass_boundary
  read_closing m p a =
      ground (arith, read_finish (codes "-\r\n") (record p { state = finish }) refl)

  read_parts :
      (fs : List Field) (m : Dict Bytes) (p : Parser)
      → AtBoundary b m size max p
      → All (IsField b max) fs
      → (q : Parser) × (feeds p (parts b fs) ≡ done q)
        × (q.state ≡ finish)
        × (q.params ≡ stored size m fs)
  read_parts [] m p a h = (record p { state = finish }, read_closing m p a, refl, a.params_are)
  read_parts ((n, v) ∷ fs) m p a (f, h) =
      let (p1, e1, r) = enter_part b m size max n p a f.name_ok f.line_fits size_pos in
      let (p2, e2, a2) = scan_value b n m size max ok.no_cr low v (parts b fs) p1 r f.value_ok in
      let (q, e3, fin, kept) = read_parts fs (insert n (take size v) m) p2 a2 h in
      (q, e1 _ ∙ e2 ∙ e3, fin, kept)

  -- Before the first boundary.
  record Seeking (m : Dict Bytes) (k : ℕ) (p : Parser) : Type 0 where
    seeks : p.state ≡ boundary_seek
    boundary_is : p.boundary ≡ full b
    pos_is : p.boundary_pos ≡ k
    no_name : p.field_name ≡ []
    no_value : p.field_value ≡ []
    params_are : p.params ≡ m
    size_is : p.buffer_size ≡ size
    max_is : p.max_header_len ≡ max
    kept : p.discard_data ≡ false

  seek_all :
      (t : Bytes) (m : Dict Bytes) (k : ℕ) (p : Parser)
      → Seeking m k p
      → drop k (full b) ≡ t
      → t ≢ []
      → (q : Parser) × ((s : Bytes) → feeds p (t ++ s) ≡ feeds q s) × AtBoundary b m size max q
  unfolding step step_in seek_boundary
  seek_all [] m k p z e ne = absurd (ne refl)
  seek_all (c ∷ []) m k p z e ne =
      let (g, d, l) = drop-cons k (full b) c [] 0 e in
      let lo : c < 128 = omega (arith, low k, g) in
      (
        record p { state = after_boundary; boundary_start = 0; boundary_pos = 0 },
        λ s. ground arith,
        ground arith,
      )
  seek_all (c ∷ x ∷ t) m k p z e ne =
      let (g, d, l) = drop-cons k (full b) c (x ∷ t) 0 e in
      let lo : c < 128 = omega (arith, low k, g) in
      let p' = record p { boundary_pos = k + 1 } in
      let f : feed p c ≡ next p' = ground arith in
      let (q, r, a) = seek_all (x ∷ t) m (k + 1) p' (ground arith) d (λ h. cc) in
      (q, λ s. rw (f, feeds) (r s), a)

  pub create-ready :
      (m : Dict Bytes) → create (content_type b) max size m ≡ done (ready b size max m)
  unfolding create parse_content_type starts_nocase find_at
  create-ready m =
      ground (arith, span_none_all b ok.no_space ok.no_semicolon ok.no_lf ok.no_cr, ok.not_empty)

  -- For a boundary's name of ASCII characters that the parser reads, fields that can be sent and room in
  -- both buffers: the body of a form, given whole to a parser that is made for its Content-Type, is read
  -- to the end without an exception, and the map then holds the fields, of two with one name the first,
  -- and each value cut to the size of the output buffer.
  pub process_buf-body :
      (m : Dict Bytes) (fs : List Field)
      → 0 < max
      → All (IsField b max) fs
      → (p q : Parser) × (create (content_type b) max size m ≡ done p)
        × (process_buf p (body b fs) ≡ done q)
        × (q.state ≡ finish)
        × (q.params ≡ stored size m fs)
  process_buf-body m fs room h =
      let made = create-ready m in
      let safe = create-IsSafe (content_type b) max size m room size_pos made in
      let (p, e, a) =
        seek_all (b'-' ∷ b'-' ∷ b) m 2 (ready b size max m) (ground arith) refl (λ x. cc) in
      let (q, f, fin, kept) = read_parts fs m p a h in
      (
        ready b size max m,
        q,
        made,
        process_buf-feeds (ready b size max m) b'-' (b'-' ∷ (b ++ parts b fs)) safe
            ∙ e (parts b fs)
            ∙ f,
        fin,
        kept,
      )
