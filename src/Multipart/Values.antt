-- ===== src/Multipart/Values.antt =====
-- A part's value: the bytes up to the next boundary, cut to the output buffer's size. The matched
-- part of a boundary that does not go on is put out again.
use fcgi_cpp_appserver.Common.{
  ℕ, ◌+◌, ◌-◌, ◌≤◌, ◌<◌, ◌≡◌, sym, ◌∙◌, ◌≢◌, false, [], ◌∷◌, ◌++◌, append_assoc, append-nil, foldl,
  arith, ◌==◌, length, length-append, Bool-cases, ◌⊎◌, inl, inr, take, drop, get_or, take-append,
  take_all, length-take,
}
use fcgi_cpp_appserver.Common.Bytes.{Bytes}
use fcgi_cpp_appserver.Common.Dict.{Dict, insert}
use fcgi_cpp_appserver.Multipart.{
  after_boundary, part_data, Parser, next, again, flush_output_buffer, finish_part, putc, lump,
  end_part, read_data, step_in, step,
}
use fcgi_cpp_appserver.Multipart.Feeds.{feed, IsNext-next, settled-IsNext}

-- "\r\n--" and the name of the boundary; without the CR it is what an old client sends.
abbrev pub bare : Bytes → Bytes
bare name = b'\n' ∷ b'-' ∷ b'-' ∷ name

abbrev pub full : Bytes → Bytes
full name = b'\r' ∷ bare name

-- What the parser has of the output `w` of a part: all of it, or the first `size` bytes.
abbrev pub Holds : ℕ → Bytes → Bytes → Bytes → Type 0
Holds size value output w =
    (value ≡ []) × (output ≡ w) × (length w < size) ⊎ (value ≡ take size w) × (size ≤ length w)

-- Inside a part named `name`, behind the output `w`, with the boundary pointers at `s` and `k`.
pub record Reading (b name : Bytes) (m : Dict Bytes) (size max : ℕ) (w : Bytes) (s k : ℕ)
    (p : Parser) : Type 0 where
  pub in_data : p.state ≡ part_data
  pub boundary_is : p.boundary ≡ full b
  pub start_is : p.boundary_start ≡ s
  pub pos_is : p.boundary_pos ≡ k
  pub name_is : p.field_name ≡ name
  pub params_are : p.params ≡ m
  pub size_is : p.buffer_size ≡ size
  pub size_pos : 0 < size
  pub max_is : p.max_header_len ≡ max
  pub kept : p.discard_data ≡ false
  pub holds : Holds size p.field_value p.output w

-- Behind a boundary, with the entries `m`.
pub record AtBoundary (b : Bytes) (m : Dict Bytes) (size max : ℕ) (p : Parser) : Type 0 where
  pub after : p.state ≡ after_boundary
  pub boundary_is : p.boundary ≡ full b
  pub start_is : p.boundary_start ≡ 0
  pub pos_is : p.boundary_pos ≡ 0
  pub no_name : p.field_name ≡ []
  pub no_value : p.field_value ≡ []
  pub params_are : p.params ≡ m
  pub size_is : p.buffer_size ≡ size
  pub max_is : p.max_header_len ≡ max
  pub kept : p.discard_data ≡ false

length-take_pos : (size : ℕ) (w : Bytes) → 0 < size → size ≤ length w → 0 < length (take size w)
length-take_pos size w h l = omega (arith, length-take size w)

putc-Holds :
    (size c : ℕ) (w : Bytes) (p : Parser)
    → p.buffer_size ≡ size
    → p.discard_data ≡ false
    → 0 < size
    → Holds size p.field_value p.output w
    → Holds size (putc p c).field_value (putc p c).output (w ++ c ∷ [])
unfolding putc flush_output_buffer
putc-Holds size c w p e kept pos (inl (v, o, l)) =
    elim (Bool-cases (length (p.output ++ c ∷ []) == p.buffer_size)) [
      | inl full ↦ inr (ground (arith, length-append w (c ∷ []), take_all size (w ++ c ∷ [])))
      | inr more ↦ inl (ground (arith, length-append w (c ∷ [])))
    ]
putc-Holds size c w p e kept pos (inr (v, l)) = inr (
    ground (arith, take-append size w (c ∷ []) l, length-take_pos size w, length-append w (c ∷ [])))

-- What a flush at the end of the part leaves in the field's value.
flush-Holds :
    (size : ℕ) (w : Bytes) (p : Parser)
    → Holds size p.field_value p.output w
    → 0 < size
    → (flush_output_buffer p).field_value ≡ take size w
unfolding flush_output_buffer
flush-Holds size [] p (inl (v, o, l)) pos = ground (arith, take_all {A = ℕ} size [] (omega arith))
flush-Holds size (x ∷ w) p (inl (v, o, l)) pos = ground (arith, take_all size (x ∷ w))
flush-Holds size w p (inr (v, l)) pos = ground (arith, length-take_pos size w)

module _ (b name : Bytes) (m : Dict Bytes) (size max : ℕ) where
  abbrev pub R : Bytes → ℕ → ℕ → Parser → Type 0
  R = Reading b name m size max

  putc-Reading : (w : Bytes) (s k c : ℕ) (p : Parser) → R w s k p → R (w ++ c ∷ []) s k (putc p c)
  unfolding putc flush_output_buffer
  putc-Reading w s k c p r = ground (arith, putc-Holds size c w p)

  puts-Reading :
      (cs w : Bytes) (s k : ℕ) (p : Parser) → R w s k p → R (w ++ cs) s k (foldl putc p cs)
  puts-Reading [] w s k p r = rw append-nil r
  puts-Reading (c ∷ cs) w s k p r =
      rw (← append_assoc w (c ∷ []) cs)
        (puts-Reading cs (w ++ c ∷ []) s k (putc p c) (putc-Reading w s k c p r))

  abbrev pub after_match : Parser → Parser
  after_match p = end_part (record p { boundary_pos = p.boundary_pos + 1 })

  -- A byte of the boundary.
  pub read_match :
      (w : Bytes) (s k c : ℕ) (p : Parser)
      → R w s k p
      → c ≡ get_or (full b) k 0
      → c < 128
      → k + 1 < length (full b)
      → (feed p c ≡ next (after_match p)) × R w s (k + 1) (after_match p)
  unfolding step step_in read_data end_part
  read_match w s k c p r e lo l = ground arith

  end_part-AtBoundary :
      (w : Bytes) (k : ℕ) (p : Parser)
      → R w 0 k p
      → k ≡ length (full b)
      → AtBoundary b (insert name (take size w) m) size max (end_part p)
  unfolding end_part finish_part flush_output_buffer
  end_part-AtBoundary w k p r l = ground (
    arith,
    flush-Holds size w (record p { state = after_boundary; boundary_pos = p.boundary_start }),
  )

  -- Its last byte.
  pub read_end :
      (w : Bytes) (k c : ℕ) (p : Parser)
      → R w 0 k p
      → c ≡ get_or (full b) k 0
      → c < 128
      → k + 1 ≡ length (full b)
      → (feed p c ≡ next (after_match p))
        × AtBoundary b (insert name (take size w) m) size max (after_match p)
  unfolding step step_in read_data
  read_end w k c p r e lo l = (
    ground arith,
    end_part-AtBoundary w (k + 1) (record p { boundary_pos = p.boundary_pos + 1 }) (ground arith) l,
  )

  -- A byte of the value, with no match begun.
  pub read_plain :
      (w : Bytes) (c : ℕ) (p : Parser)
      → R w 0 0 p
      → c ≢ b'\r'
      → c ≢ b'\n'
      → (feed p c ≡ next (putc p c)) × R (w ++ c ∷ []) 0 0 (putc p c)
  unfolding step step_in read_data end_part
  read_plain w c p r e f = ground (arith, putc-Reading w 0 0 c p)

  -- A LF with no match begun may begin one.
  pub read_newline :
      (w : Bytes) (p : Parser) → R w 0 0 p → (q : Parser) × (feed p b'\n' ≡ next q) × R w 1 2 q
  unfolding step step_in read_data end_part
  read_newline w p r =
      (record p { boundary_pos = 2; boundary_start = 1 }, ground arith, ground arith)

  pub restarted : Parser → Parser
  restarted p = record (foldl putc p (lump p)) { boundary_start = 0; boundary_pos = 0 }

  pub restarted-Reading :
      (w : Bytes) (s k : ℕ) (p : Parser)
      → R w s k p
      → R (w ++ take (k - s) (drop s (full b))) 0 0 (restarted p)
  unfolding restarted
  restarted-Reading w s k p r =
      let e : lump p ≡ take (k - s) (drop s (full b)) = rw (r.boundary_is, r.start_is, r.pos_is) in
      rw (← e) (ground (arith, puts-Reading (lump p) w s k p r))

  again_restarted :
      (w : Bytes) (s k c : ℕ) (p : Parser)
      → R w s k p
      → s < k
      → c ≢ get_or (full b) k 0
      → step p c ≡ again (restarted p)
  unfolding step step_in read_data end_part restarted
  again_restarted w s k c p r h e = ground (arith, puts-Reading (lump p) w s k p r)

  -- A byte that does not go on with the match: what was matched goes out, and the byte is read anew.
  pub read_mismatch :
      (w : Bytes) (s k c : ℕ) (p : Parser)
      → R w s k p
      → s < k
      → c ≢ get_or (full b) k 0
      → feed p c ≡ feed (restarted p) c
  read_mismatch w s k c p r h e =
      let t = restarted-Reading w s k p r in
      let (q, f) =
        IsNext-next (step (restarted p) c)
          (settled-IsNext (restarted p) c t.in_data (t.pos_is ∙ sym t.start_is)) in
      ground (arith, again_restarted w s k c p r h e, f)
