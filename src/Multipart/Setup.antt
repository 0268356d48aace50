-- ===== src/Multipart/Setup.antt =====
-- The two ends of a `formdata_parser` of src/server/fcgi_handler.cpp: its constructor, which reads the
-- boundary from the Content-Type, and `upload_shutdown_ctx`.
use fcgi_cpp_appserver.Common.{
  ℕ, ◌+◌, true, false, not, none, some, [], ◌∷◌, ◌==◌, if◌then◌else◌, length, drop,
}
use fcgi_cpp_appserver.Common.Bytes.{Bytes, codes, starts_nocase, span_none, find_at}
use fcgi_cpp_appserver.Common.Dict.{Dict}
use fcgi_cpp_appserver.Exception.{fcgi_exception, http_unsupported_media_type}
use fcgi_cpp_appserver.Multipart.{
  State, boundary_seek, part_data, Parser, Outcome, done, thrown, bad_request,
  discard_part_attributes, abort_part, flush_output_buffer,
}

-- The boundary is what stands at `boundary_start_ptr` up to a blank, ';' or line end, behind "\r\n--".
-- The first boundary of a body has no "\r\n".
unfoldable pub take_boundary : Parser → Bytes → Outcome
take_boundary p text =
    let name = span_none (codes " ;\n\r") text in
    if length name == 0
    then thrown p (bad_request (codes "boundary is empty"))
    else done (record p {
      boundary = b'\r' ∷ b'\n' ∷ b'-' ∷ b'-' ∷ name;
      boundary_start = 2;
      boundary_pos = 2;
    })

-- `upload_parse_content_type`. Where "boundary=" is missing, `find` gives `npos`, which the pointer
-- sum `c_str() + npos` takes one byte in front of the text; it is not null, and the 9 bytes of
-- "boundary=" added to it lead to the byte 8 of the text.
unfoldable pub parse_content_type : Parser → Bytes → Outcome
unfolding take_boundary
parse_content_type p content_type = elim (find_at 0 (b';' ∷ []) content_type) [
  | none ↦ thrown p (bad_request (codes "no boundary found in Content-Type"))
  | some end ↦
      if not (starts_nocase (codes "multipart/form-data") content_type)
      then thrown p (
          fcgi_exception (codes "Content-Type is not multipart/form-data")
            http_unsupported_media_type)
      else elim (find_at end (codes "boundary=") (drop end content_type)) [
        | none ↦ take_boundary p (drop 8 content_type)
        | some start ↦ take_boundary p (drop (start + 9) content_type)
      ]
]

-- The constructor; `upload_init_ctx` sets the state, the attributes and `discard_data`.
unfoldable pub create : Bytes → ℕ → ℕ → Dict Bytes → Outcome
create content_type max_header_len buffer_size params =
    parse_content_type
      (record {
        params = params;
        boundary = [];
        field_name = [];
        field_value = [];
        content_type = [];
        state = boundary_seek;
        boundary_start = 0;
        boundary_pos = 0;
        header = [];
        max_header_len = max_header_len;
        output = [];
        buffer_size = buffer_size;
        discard_data = false;
        first_part = true;
      })
      content_type

-- `upload_shutdown_ctx`, by the state.
unfoldable pub shutdown_in : State → Parser → Parser
shutdown_in part_data p = discard_part_attributes (abort_part (flush_output_buffer p))
shutdown_in _ p = discard_part_attributes p

unfoldable pub shutdown_ctx : Parser → Parser
unfolding shutdown_in
shutdown_ctx p = shutdown_in p.state p
