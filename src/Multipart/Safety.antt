-- ===== src/Multipart/Safety.antt =====
-- Every pointer of `formdata_parser` stays inside its buffer, whatever bytes come.
use fcgi_cpp_appserver.Common.{
  ℕ, zero, suc, ◌+◌, ◌*◌, ◌≤◌, ◌<◌, ◌≡◌, refl, [], ◌∷◌, foldl, arith, length, length-append,
}
use fcgi_cpp_appserver.Common.Bytes.{Bytes}
use fcgi_cpp_appserver.Common.Dict.{Dict}
use fcgi_cpp_appserver.Exception.{Exception}
use fcgi_cpp_appserver.Multipart.{
  State, boundary_seek, after_boundary, headers, part_data, finish, Parser, Outcome, done, thrown,
  stuck, Step, next, again, throws, parse_part_header, parse_disposition, parse_fieldname,
  parse_type_of_part, finish_part, abort_part, flush_output_buffer, putc, lump, seek_boundary,
  pass_boundary, end_header, collect_header, end_part, read_data, step_in, step, process_loop,
  process_buf,
}
use fcgi_cpp_appserver.Multipart.Setup.{create, parse_content_type}

-- `boundary_pos` may be read, the lump between the two boundary pointers is there, and a byte may be
-- written behind the accumulated header and behind the output.
pub record IsSafe (p : Parser) : Type 0 where
  pub boundary_long : 4 < length p.boundary
  pub start_bound : p.boundary_start ≤ 2
  pub start_le_pos : p.boundary_start ≤ p.boundary_pos
  pub pos_inside : p.boundary_pos < length p.boundary
  pub header_room : length p.header < p.max_header_len
  pub output_room : length p.output < p.buffer_size

abbrev pub AllStep {ℓ} : (Parser → Type ℓ) → Step → Type ℓ
AllStep P (next q) = P q
AllStep P (again q) = P q
AllStep P (throws q e) = P q

abbrev pub AllOutcome {ℓ} : (Parser → Type ℓ) → Outcome → Type ℓ
AllOutcome P (done q) = P q
AllOutcome P (thrown q e) = P q
AllOutcome P stuck = Unit

flush-IsSafe :
    (p : Parser)
    → 0 < p.buffer_size
    → IsSafe (record p { output = [] })
    → length p.output ≤ p.buffer_size
    → IsSafe (flush_output_buffer p)
unfolding flush_output_buffer
flush-IsSafe p h s e = ground arith

putc-IsSafe : (p : Parser) (c : ℕ) → IsSafe p → IsSafe (putc p c)
unfolding putc flush_output_buffer
putc-IsSafe p c s = ground (arith, length-append p.output (c ∷ []))

puts-IsSafe : (cs : Bytes) (p : Parser) → IsSafe p → IsSafe (foldl putc p cs)
puts-IsSafe [] p s = s
puts-IsSafe (c ∷ cs) p s = puts-IsSafe cs (putc p c) (putc-IsSafe p c s)

end_part-IsSafe :
    (p : Parser)
    → IsSafe (record p { boundary_pos = p.boundary_start })
    → p.boundary_start ≤ p.boundary_pos
    → p.boundary_pos ≤ length p.boundary
    → IsSafe (end_part p)
unfolding end_part flush_output_buffer finish_part abort_part
end_part-IsSafe p s a b = ground arith

seek-IsSafe : (p : Parser) (c : ℕ) → IsSafe p → AllStep IsSafe (seek_boundary p c)
unfolding seek_boundary
seek-IsSafe p c s = ground arith

pass-IsSafe : (p : Parser) (c : ℕ) → IsSafe p → AllStep IsSafe (pass_boundary p c)
unfolding pass_boundary
pass-IsSafe p c s = ground arith

parse-IsSafe : (p : Parser) (h : Bytes) → IsSafe p → AllOutcome IsSafe (parse_part_header p h)
unfolding parse_part_header parse_disposition parse_type_of_part parse_fieldname
parse-IsSafe p h s = ground arith

collect-IsSafe : (p : Parser) (c : ℕ) → IsSafe p → AllStep IsSafe (collect_header p c)
unfolding collect_header end_header
collect-IsSafe p c s = ground (arith, parse-IsSafe p p.header s, length-append p.header (c ∷ []))

restart-IsSafe :
    (p : Parser) → IsSafe p → IsSafe (end_part (record p { boundary_start = 0; boundary_pos = 0 }))
restart-IsSafe p s =
    end_part-IsSafe (record p { boundary_start = 0; boundary_pos = 0 }) (ground arith) (omega arith)
      (omega arith)

read-IsSafe : (p : Parser) (c : ℕ) → IsSafe p → AllStep IsSafe (read_data p c)
unfolding read_data
read-IsSafe p c s = ground (
  arith,
  end_part-IsSafe (record p { boundary_pos = p.boundary_pos + 1 }),
  end_part-IsSafe (record p { boundary_pos = 2; boundary_start = 1 }),
  end_part-IsSafe (putc p c),
  putc-IsSafe p c s,
  restart-IsSafe (foldl putc p (lump p)) (puts-IsSafe (lump p) p s),
)

pub step_in-IsSafe : (m : State) (p : Parser) (c : ℕ) → IsSafe p → AllStep IsSafe (step_in m p c)
unfolding step_in
step_in-IsSafe boundary_seek p c s = seek-IsSafe p c s
step_in-IsSafe after_boundary p c s = pass-IsSafe p c s
step_in-IsSafe headers p c s = collect-IsSafe p c s
step_in-IsSafe part_data p c s = read-IsSafe p c s
step_in-IsSafe finish p c s = s

pub step-IsSafe : (p : Parser) (c : ℕ) → IsSafe p → AllStep IsSafe (step p c)
unfolding step
step-IsSafe p c s = step_in-IsSafe p.state p c s

pub data StepCase (s : Step) : Type 0 where
  is_next : (q : Parser) → s ≡ next q → StepCase s
  is_again : (q : Parser) → s ≡ again q → StepCase s
  is_throws : (q : Parser) (e : Exception) → s ≡ throws q e → StepCase s

pub Step-cases : (s : Step) → StepCase s
Step-cases (next q) = is_next q refl
Step-cases (again q) = is_again q refl
Step-cases (throws q e) = is_throws q e refl

process_loop-IsSafe :
    (fuel : ℕ) (p : Parser) (cs : Bytes) → IsSafe p → AllOutcome IsSafe (process_loop fuel p cs)
unfolding process_loop
process_loop-IsSafe zero p [] s = s
process_loop-IsSafe (suc fuel) p [] s = s
process_loop-IsSafe zero p (c ∷ cs) s = tt
process_loop-IsSafe (suc fuel) p (c ∷ cs) s = elim (Step-cases (step p c)) [
  | is_next q e ↦ rw (e, AllOutcome) (process_loop-IsSafe fuel q cs (rw e at (step-IsSafe p c s)))
  | is_again q e ↦
      rw (e, AllOutcome) (process_loop-IsSafe fuel q (c ∷ cs) (rw e at (step-IsSafe p c s)))
  | is_throws q x e ↦ rw (e, AllOutcome) (rw e at (step-IsSafe p c s))
]

-- A buffer of any bytes leaves a safe parser safe, whether the call returns or throws.
pub process_buf-IsSafe :
    (p : Parser) (buf : Bytes) → IsSafe p → AllOutcome IsSafe (process_buf p buf)
unfolding process_buf
process_buf-IsSafe p [] s = ground arith
process_buf-IsSafe p (c ∷ cs) s = process_loop-IsSafe (2 * length (c ∷ cs)) p (c ∷ cs) s

-- A parser that the constructor makes, with room for a header byte and an output byte, is safe.
pub create-IsSafe :
    (content_type : Bytes) (max_header_len buffer_size : ℕ) (params : Dict Bytes) {p : Parser}
    → 0 < max_header_len
    → 0 < buffer_size
    → create content_type max_header_len buffer_size params ≡ done p
    → IsSafe p
unfolding create parse_content_type
create-IsSafe content_type max_header_len buffer_size params h b e = ground arith
