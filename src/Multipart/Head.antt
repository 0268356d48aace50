-- ===== src/Multipart/Head.antt =====
-- The header of a part, from the boundary in front of it to its data.
use fcgi_cpp_appserver.Common.{
  ℕ, ◌+◌, ◌<◌, ◌≡◌, refl, ap, ◌∙◌, false, [], ◌∷◌, ◌++◌, append_assoc, append-nil, arith, ◌==◌,
  length, length-append, get_or,
}
use mathlib.Core.Path.{◌≡⟨◌⟩◌, ◌∎}
use fcgi_cpp_appserver.Common.Bytes.{
  Bytes, codes, member, c_str, strstr, span_none, starts_nocase, skip_spaces,
}
use fcgi_cpp_appserver.Common.Dict.{Dict}
use fcgi_cpp_appserver.Multipart.{
  after_boundary, part_data, headers, Parser, done, next, parse_part_header, parse_disposition,
  parse_fieldname, end_header, collect_header, pass_boundary, step, step_in,
}
use fcgi_cpp_appserver.Multipart.Feeds.{feed, feeds}
use fcgi_cpp_appserver.Multipart.Values.{Reading, AtBoundary}

-- A field's name as a browser writes it: no quote, no line end and no NUL.
pub record IsName (n : Bytes) : Type 0 where
  pub no_quote : member b'"' n ≡ false
  pub no_cr : member b'\r' n ≡ false
  pub no_lf : member b'\n' n ≡ false
  pub no_nul : member 0 n ≡ false

-- The header line of a field.
abbrev pub head_line : Bytes → Bytes
head_line n = codes "Content-Disposition: form-data; name=\"" ++ (n ++ b'"' ∷ [])

c_str-append : (n s : Bytes) → member 0 n ≡ false → c_str (n ++ s) ≡ n ++ c_str s
unfolding c_str
c_str-append [] s h = refl
c_str-append (c ∷ n) s h = ground (arith, c_str-append n s)

span_none-quote : (n : Bytes) → member b'"' n ≡ false → span_none (b'"' ∷ []) (n ++ b'"' ∷ []) ≡ n
unfolding span_none
span_none-quote [] h = refl
span_none-quote (c ∷ n) h = ground (arith, span_none-quote n)

get_or-length : (n : Bytes) (c d : ℕ) → get_or (n ++ c ∷ []) (length n) d ≡ c
get_or-length [] c d = refl
get_or-length (x ∷ n) c d = get_or-length n c d

fieldname_read :
    (p : Parser) (n : Bytes)
    → member b'"' n ≡ false
    → parse_fieldname p (n ++ b'"' ∷ []) ≡ done (record p { field_name = n })
unfolding parse_fieldname
fieldname_read p n h = ground (arith, span_none-quote n h, get_or-length n b'"' 0)

-- The header line names the field.
pub head_line_read :
    (p : Parser) (n : Bytes)
    → IsName n
    → parse_part_header p (head_line n) ≡ done (record p { field_name = n })
unfolding parse_part_header parse_disposition starts_nocase skip_spaces c_str strstr
head_line_read p n h = rw (c_str-append n (b'"' ∷ []) h.no_nul) (fieldname_read p n h.no_quote)

collect_line :
    (cs rest : Bytes) (p : Parser)
    → p.state ≡ headers
    → member b'\r' cs ≡ false
    → member b'\n' cs ≡ false
    → length p.header + length cs < p.max_header_len
    → feeds p (cs ++ rest) ≡ feeds (record p { header = p.header ++ cs }) rest
unfolding step step_in collect_header
collect_line [] rest p m h k l = rw append-nil
collect_line (c ∷ cs) rest p m h k l =
    let q = record p { header = p.header ++ c ∷ [] } in
    let ih =
      collect_line cs rest q m (ground arith) (ground arith)
        (omega (arith, length-append p.header (c ∷ []))) in
    let e : feed p c ≡ next q = ground arith in
    rw (e, feeds) (ih ∙ rw (append_assoc p.header (c ∷ []) cs))

-- What stands between a boundary and the value of the field `n`.
abbrev pub part_head : Bytes → Bytes
part_head n = b'\r' ∷ b'\n' ∷ (head_line n ++ codes "\r\n\r\n")

member-quote :
    (d : ℕ) (n : Bytes)
    → (d == b'"') ≡ false
    → member d n ≡ false
    → member d (n ++ b'"' ∷ []) ≡ false
member-quote d [] q h = ground arith
member-quote d (c ∷ n) q h = ground (arith, member-quote d n q)

module _ (p : Parser) (s : Bytes) where
  open_header :
      p.state ≡ after_boundary
      → feeds p (b'\r' ∷ b'\n' ∷ s) ≡ feeds (record p { state = headers; header = [] }) s
  unfolding step step_in pass_boundary
  open_header m = ground arith

  close_line :
      (n : Bytes)
      → IsName n
      → p.state ≡ headers
      → p.header ≡ head_line n
      → feeds p (b'\r' ∷ b'\n' ∷ s) ≡ feeds (record p { field_name = n; header = [] }) s
  unfolding step step_in collect_header end_header
  close_line n h m e = ground (arith, head_line_read p n h)

  open_data :
      p.state ≡ headers
      → p.header ≡ []
      → feeds p (b'\r' ∷ b'\n' ∷ s) ≡ feeds (record p { state = part_data; output = [] }) s
  unfolding step step_in collect_header end_header
  open_data m e = ground arith

module _ (b : Bytes) (m : Dict Bytes) (size max : ℕ) where
  -- A header with a name leads into the data of the part.
  pub enter_part :
      (n : Bytes) (p : Parser)
      → AtBoundary b m size max p
      → IsName n
      → length (head_line n) < max
      → 0 < size
      → (q : Parser) × ((s : Bytes) → feeds p (part_head n ++ s) ≡ feeds q s)
        × Reading b n m size max [] 0 0 q
  enter_part n p a h l z = (
    record p { field_name = n; header = []; state = part_data; output = [] },
    reads,
    ground arith,
  )
    where
      p1 : Parser
      p1 = record p { state = headers; header = [] }

      p2 : Parser
      p2 = record p { state = headers; header = head_line n }

      p3 : Parser
      p3 = record p { state = headers; field_name = n; header = [] }

      reads :
          (s : Bytes)
          → feeds p (part_head n ++ s)
            ≡ feeds (record p { field_name = n; header = []; state = part_data; output = [] }) s
      reads s =
          feeds p (part_head n ++ s)
          ≡⟨ open_header p ((head_line n ++ codes "\r\n\r\n") ++ s) a.after ⟩
            feeds p1 ((head_line n ++ codes "\r\n\r\n") ++ s)
          ≡⟨ ap (feeds p1) (append_assoc (head_line n) (codes "\r\n\r\n") s) ⟩
            feeds p1 (head_line n ++ (codes "\r\n\r\n" ++ s))
          ≡⟨ collect_line (head_line n) (codes "\r\n\r\n" ++ s) p1 refl
              (member-quote b'\r' n refl h.no_cr) (member-quote b'\n' n refl h.no_lf)
              (ground arith) ⟩
            feeds p2 (codes "\r\n\r\n" ++ s)
          ≡⟨ close_line p2 (b'\r' ∷ b'\n' ∷ s) n h refl refl ⟩ feeds p3 (b'\r' ∷ b'\n' ∷ s)
          ≡⟨ open_data p3 s refl refl ⟩
            feeds (record p { field_name = n; header = []; state = part_data; output = [] }) s ∎
