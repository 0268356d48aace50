-- ===== src/Multipart.antt =====
-- `formdata_parser` of src/server/fcgi_handler.cpp: a machine that reads a multipart/form-data body
-- byte by byte. A pointer into `boundary` is its index; the accumulated header and the output buffer
-- are lists, which end where the source's write positions stand.
pub mod Setup
pub mod Safety
pub mod Feeds
pub mod Values
pub mod Scan
pub mod Head
pub mod RoundTrip
use fcgi_cpp_appserver.Common.{
  ℕ, zero, suc, ◌+◌, ◌-◌, ◌*◌, Bool, true, false, not, ◌&&◌, Option, none, some, List, [], ◌∷◌,
  ◌++◌, foldl, ltb, ◌==◌, if◌then◌else◌, length, take, drop, get_or,
}
use fcgi_cpp_appserver.Common.Bytes.{
  Bytes, codes, npos, c_str, starts_nocase, skip_spaces, span_none, strstr, find_at,
}
use fcgi_cpp_appserver.Common.Dict.{Dict, insert}
use fcgi_cpp_appserver.Exception.{
  Exception, fcgi_exception, http_bad_request, http_unsupported_media_type,
}

pub data State : Type 0 where
  boundary_seek after_boundary headers part_data finish : State

pub record Parser : Type 0 where
  pub params : Dict Bytes
  pub boundary : Bytes
  pub field_name : Bytes
  pub field_value : Bytes
  pub content_type : Bytes
  pub state : State
  pub boundary_start : ℕ
  pub boundary_pos : ℕ
  pub header : Bytes
  pub max_header_len : ℕ
  pub output : Bytes
  pub buffer_size : ℕ
  pub discard_data : Bool
  pub first_part : Bool

-- A call's end: it returns, or it throws and leaves the parser as it is then.
pub data Outcome : Type 0 where
  done : Parser → Outcome
  thrown : Parser → Exception → Outcome
  stuck : Outcome

abbrev pub bad_request : Bytes → Exception
bad_request what = fcgi_exception what http_bad_request

-- The field's name up to its closing quote.
unfoldable pub parse_fieldname : Parser → Bytes → Outcome
parse_fieldname p start =
    let name = span_none (b'"' ∷ []) start in
    if get_or start (length name) 0 == b'"'
    then done (record p { field_name = name })
    else thrown p (bad_request (codes "malformed fieldname in part header"))

unfoldable pub parse_disposition : Parser → Bytes → Outcome
parse_disposition p q =
    if not (starts_nocase (codes "form-data") q) && not (starts_nocase (codes "attachment") q)
    then thrown p (bad_request (codes "Content-Disposition is not form-data or attachment"))
    else elim (strstr (codes "name=\"") (c_str q)) [
      | none ↦ done p
      | some r ↦ parse_fieldname p (drop 6 r)
    ]

unfoldable pub parse_type_of_part : Parser → Bytes → Outcome
parse_type_of_part p q =
    if length q == 0
    then thrown (record p { content_type = [] })
        (bad_request (codes "empty Content-Type in part header"))
    else done (record p { content_type = q })

-- `upload_parse_part_header`. The byte behind `header` is a NUL.
unfoldable pub parse_part_header : Parser → Bytes → Outcome
parse_part_header p header =
    if starts_nocase (codes "Content-Disposition:") header
    then parse_disposition p (skip_spaces (drop 20 header))
    else if starts_nocase (codes "Content-Type:") header
    then parse_type_of_part p (skip_spaces (drop 13 header))
    else done p

-- `upload_discard_part_attributes`.
abbrev pub discard_part_attributes : Parser → Parser
discard_part_attributes p = record p { field_name = []; field_value = []; content_type = [] }

-- `upload_finish_part`; the map keeps an entry that it has.
unfoldable pub finish_part : Parser → Parser
finish_part p = record (discard_part_attributes p) {
  params = insert p.field_name p.field_value p.params;
  discard_data = false;
}

-- `upload_abort_part`.
unfoldable pub abort_part : Parser → Parser
abort_part p = record (discard_part_attributes p) { discard_data = false }

-- `upload_flush_output_buffer`.
unfoldable pub flush_output_buffer : Parser → Parser
flush_output_buffer p =
    if ltb 0 (length p.output)
    then record p {
      field_value = if length p.field_value == 0 then p.output else p.field_value;
      output = [];
    }
    else p

-- `upload_putc`.
unfoldable pub putc : Parser → ℕ → Parser
putc p c =
    let q = record p { output = p.output ++ c ∷ [] } in
    if p.discard_data
    then p
    else if length (p.output ++ c ∷ []) == p.buffer_size
    then flush_output_buffer q
    else q

-- How one round of the loop in `upload_process_buf` ends: the byte is read, it is to be read once
-- more (`p--`), or the round throws.
pub data Step : Type 0 where
  next again : Parser → Step
  throws : Parser → Exception → Step

-- `*boundary_pos`.
abbrev pub awaited : Parser → ℕ
awaited p = get_or p.boundary p.boundary_pos 0

-- `*p == *boundary_pos`: an `u_char` against a `char`, which is signed, as on x86. A byte of the
-- boundary from 128 on is negative there, and no byte of the body is equal to it.
abbrev pub is_awaited : Parser → ℕ → Bool
is_awaited p c = c == awaited p && ltb c 128

unfoldable pub seek_boundary : Parser → ℕ → Step
seek_boundary p c =
    let pos = if is_awaited p c then p.boundary_pos + 1 else p.boundary_start in
    if pos == length p.boundary
    then next (record p { state = after_boundary; boundary_start = 0; boundary_pos = 0 })
    else next (record p { boundary_pos = pos })

unfoldable pub pass_boundary : Parser → ℕ → Step
pass_boundary p c =
    if c == b'\n'
    then next (record p { state = headers; header = [] })
    else if c == b'-'
    then next (record p { state = finish })
    else next p

-- The end of a header line; an empty one ends the header.
unfoldable pub end_header : Parser → Step
end_header p =
    if length p.header == 0
    then next (record p { state = part_data; output = [] })
    else elim (parse_part_header p p.header) [
      | done q ↦ next (record q { header = [] })
      | thrown q e ↦ throws (record q { state = finish }) e
      | stuck ↦ next p
    ]

unfoldable pub collect_header : Parser → ℕ → Step
collect_header p c =
    if c == b'\n'
    then end_header p
    else if c == b'\r'
    then next p
    else if ltb (length p.header) (p.max_header_len - 1)
    then next (record p { header = p.header ++ c ∷ [] })
    else throws (record p { state = finish }) (bad_request (codes "header is too long"))

-- The bytes of the boundary that are matched and not yet put out.
abbrev pub lump : Parser → Bytes
lump p = take (p.boundary_pos - p.boundary_start) (drop p.boundary_start p.boundary)

-- What stands behind the match in `upload_state_data`: at the end of the boundary the part ends.
unfoldable pub end_part : Parser → Parser
end_part p =
    if p.boundary_pos == length p.boundary
    then (let q =
          flush_output_buffer
            (record p { state = after_boundary; boundary_pos = p.boundary_start }) in
        if not q.discard_data then finish_part q else abort_part q)
    else p

unfoldable pub read_data : Parser → ℕ → Step
read_data p c =
    if is_awaited p c
    then next (end_part (record p { boundary_pos = p.boundary_pos + 1 }))
    else if p.boundary_pos == p.boundary_start
    then (if c == b'\n'
        then next (end_part (record p { boundary_pos = 2; boundary_start = 1 }))
        else next (end_part (putc p c)))
    else again (end_part (record (foldl putc p (lump p)) { boundary_start = 0; boundary_pos = 0 }))

unfoldable pub step_in : State → Parser → ℕ → Step
step_in boundary_seek p c = seek_boundary p c
step_in after_boundary p c = pass_boundary p c
step_in headers p c = collect_header p c
step_in part_data p c = read_data p c
step_in finish p c = next p

unfoldable pub step : Parser → ℕ → Step
step p c = step_in p.state p c

-- The loop over the buffer, on fuel.
unfoldable pub process_loop : ℕ → Parser → Bytes → Outcome
process_loop fuel p [] = done p
process_loop zero p (c ∷ cs) = stuck
process_loop (suc fuel) p (c ∷ cs) = elim (step p c) [
  | next q ↦ process_loop fuel q cs
  | again q ↦ process_loop fuel q (c ∷ cs)
  | throws q e ↦ thrown q e
]

abbrev is_finish : State → Bool
is_finish finish = true
is_finish _ = false

-- `upload_process_buf`. A byte is read at most twice.
unfoldable pub process_buf : Parser → Bytes → Outcome
process_buf p [] =
    if is_finish p.state then done p else thrown p (bad_request (codes "malformed body"))
process_buf p (c ∷ cs) = process_loop (2 * length (c ∷ cs)) p (c ∷ cs)
