-- ===== src/Decoder/Cutting/Rounds.antt =====
-- Each round of `Decode` on two cuts of the same bytes.
use proto_q.Prelude.{
  ℕ, ◌+◌, ◌-◌, ◌≤◌, ◌<◌, ◌≡◌, inl, inr, refl, ap, sym, ◌∙◌, arith, false, Bool-cases, ltb, leb,
  ◌==◌, if◌then◌else◌, List, ◌++◌, length, length-drop, drop, get_elem?, get_elem?-append_lt,
  get_elem?-total, drop-append_le,
}
use proto_q.Packet.{pad_len, read_be16}
use proto_q.Encoder.{magic_byte}
use proto_q.Stream.{
  Decoder, State, state_magic, state_flags, state_length, state_opcode, state_seq, state_body,
  state_crc, state_padding, Read, add64,
}
use proto_q.Stream.Ready.{pending, whole, refilled}
use proto_q.Decoder.{
  reset_frame, compact, step_magic, step_flags, step_length, pass_over, step_opcode, step_seq,
  step_body, step_crc, finish, step_padding, build_frame, step_at,
}
use proto_q.Decoder.Progress.{HasShape}
use proto_q.Decoder.Progress.Frame.{read_be16-total, build_frame-total}
use proto_q.Decoder.Cutting.{read_be16-append, build_frame-append}
use proto_q.Decoder.Cutting.Same.{IsTwinTurn, IsFillable, on_ready-IsTwinTurn}

byte_same :
    (b1 p1 b2 p2 : List ℕ) (i : ℕ)
    → b1 ++ p1 ≡ b2 ++ p2
    → i < length b1
    → i < length b2
    → get_elem? b1 i ≡ get_elem? b2 i
byte_same b1 p1 b2 p2 i e h1 h2 =
    sym (get_elem?-append_lt i b1 p1 h1)
    ∙ ap (λ (t : List ℕ). get_elem? t i) e
    ∙ get_elem?-append_lt i b2 p2 h2

drop_same :
    (b1 p1 b2 p2 : List ℕ) (k : ℕ)
    → b1 ++ p1 ≡ b2 ++ p2
    → k ≤ length b1
    → k ≤ length b2
    → drop k b1 ++ p1 ≡ drop k b2 ++ p2
drop_same b1 p1 b2 p2 k e h1 h2 =
    sym (drop-append_le k b1 p1 h1) ∙ ap (λ (t : List ℕ). drop k t) e ∙ drop-append_le k b2 p2 h2

be16_same :
    (b1 p1 b2 p2 : List ℕ) (k : ℕ)
    → b1 ++ p1 ≡ b2 ++ p2
    → k + 2 ≤ length b1
    → k + 2 ≤ length b2
    → read_be16 (drop k b1) ≡ read_be16 (drop k b2)
be16_same b1 p1 b2 p2 k e h1 h2 =
    sym (read_be16-append (drop k b1) p1 (omega (arith, length-drop k b1)))
    ∙ ap read_be16 (drop_same b1 p1 b2 p2 k e (omega arith) (omega arith))
    ∙ read_be16-append (drop k b2) p2 (omega (arith, length-drop k b2))

module _ (d : Decoder) (rs : List Read) (buf : List ℕ) (cap : ℕ) (h : IsFillable d)
    (h' : IsFillable (refilled d rs buf cap)) (same : whole d ≡ buf ++ pending rs) where
  abbrev e : Decoder
  e = refilled d rs buf cap

  magic_twin : IsTwinTurn (step_magic d) (step_magic e)
  unfolding step_magic
  magic_twin =
      on_ready-IsTwinTurn 1 d rs buf cap _ h h' same (λ rs1 rs2 b1 b2 c1 c2 eq enough1 enough2.
        let (x, here) = get_elem?-total b2 d.buf_pos (omega arith) in
        let there =
          byte_same b1 (pending rs1) b2 (pending rs2) d.buf_pos eq (omega arith) (omega arith) in
        rw (there, here)
          (elim (Bool-cases (x == magic_byte)) [
            | inl found ↦ rw found (refl, eq)
            | inr noise ↦ rw noise (refl, eq)
          ]))

  flags_twin : d.buf_pos ≡ d.cur_frame_start + 1 → IsTwinTurn (step_flags d) (step_flags e)
  unfolding step_flags
  flags_twin at =
      on_ready-IsTwinTurn 1 d rs buf cap _ h h' same (λ rs1 rs2 b1 b2 c1 c2 eq enough1 enough2.
        let flags_at = d.cur_frame_start + 1 in
        let inside1 : leb (length b1) flags_at ≡ false = ground (arith, enough1, at) in
        let inside2 : leb (length b2) flags_at ≡ false = ground (arith, enough2, at) in
        let (x, here) = get_elem?-total b2 flags_at (omega (arith, at)) in
        let there =
          byte_same b1 (pending rs1) b2 (pending rs2) flags_at eq (omega (arith, at))
            (omega (arith, at)) in
        rw (inside1, inside2, there, here) (refl, eq))

  length_twin : d.buf_pos ≡ d.cur_frame_start + 2 → IsTwinTurn (step_length d) (step_length e)
  unfolding step_length reset_frame
  length_twin at =
      on_ready-IsTwinTurn 2 d rs buf cap _ h h' same (λ rs1 rs2 b1 b2 c1 c2 eq enough1 enough2.
        let length_at = d.cur_frame_start + 2 in
        let (v, here) =
          read_be16-total (drop length_at b2)
            (omega (arith, length-drop length_at b2, at, enough2)) in
        let there =
          be16_same b1 (pending rs1) b2 (pending rs2) length_at eq (omega (arith, at))
            (omega (arith, at)) in
        rw (there, here)
          (elim (Bool-cases (ltb v (d.cur_opcode_len + d.cur_seq_len + d.cur_crc_len))) [
            | inl invalid ↦ rw invalid (refl, eq)
            | inr valid ↦ rw valid (refl, eq)
          ]))

  pass_twin : (n : ℕ) (next : State) → IsTwinTurn (pass_over d n next) (pass_over e n next)
  pass_twin n next =
      on_ready-IsTwinTurn n d rs buf cap _ h h' same
        (λ rs1 rs2 b1 b2 c1 c2 eq enough1 enough2. (refl, eq))

abbrev frame_end : Decoder → ℕ
frame_end d =
    d.cur_frame_start
    + 2
    + (if d.cur_has_body_len then 2 else 0)
    + d.cur_opcode_len
    + d.cur_seq_len
    + d.cur_body_len
    + d.cur_crc_len

module _ (crc32_ieee : List ℕ → ℕ) where
  -- The end of a frame, at the same place of both buffers.
  finish_twin :
      (d : Decoder) (rs1 rs2 : List Read) (b1 b2 : List ℕ) (c1 c2 : ℕ)
      → b1 ++ pending rs1 ≡ b2 ++ pending rs2
      → d.buf_pos ≤ length b1
      → d.buf_pos ≤ length b2
      → frame_end d ≤ d.buf_pos
      → IsTwinTurn
          (finish crc32_ieee (refilled d rs1 b1 c1) (build_frame crc32_ieee (refilled d rs1 b1 c1)))
          (finish crc32_ieee (refilled d rs2 b2 c2) (build_frame crc32_ieee (refilled d rs2 b2 c2)))
  unfolding reset_frame compact build_frame
  finish_twin d rs1 rs2 b1 b2 c1 c2 eq in1 in2 inside =
      let d1 = refilled d rs1 b1 c1 in
      let d2 = refilled d rs2 b2 c2 in
      let same : build_frame crc32_ieee d1 ≡ build_frame crc32_ieee d2 =
        sym (build_frame-append crc32_ieee d1 (pending rs1) (omega (arith, inside, in1)))
        ∙ ap (λ (t : List ℕ). build_frame crc32_ieee (record d { buf = t })) eq
        ∙ build_frame-append crc32_ieee d2 (pending rs2) (omega (arith, inside, in2)) in
      elim (build_frame-total crc32_ieee d2 (omega (arith, inside, in2))) [
        | inl (f, built) ↦
            rw (finish, same, built)
              (refl, (refl, drop_same b1 (pending rs1) b2 (pending rs2) d.buf_pos eq in1 in2))
        | inr (x, refused) ↦ rw (finish, same, refused) (refl, eq)
      ]

  padding_twin :
      (d : Decoder) (rs : List Read) (buf : List ℕ) (cap : ℕ)
      → IsFillable d
      → IsFillable (refilled d rs buf cap)
      → whole d ≡ buf ++ pending rs
      → d.buf_pos ≤ length d.buf
      → d.buf_pos ≤ length buf
      → frame_end d ≤ d.buf_pos
      → IsTwinTurn (step_padding crc32_ieee d) (step_padding crc32_ieee (refilled d rs buf cap))
  unfolding step_padding
  padding_twin d rs buf cap h h' same in1 in2 inside =
      let pad = pad_len (d.buf_pos - d.cur_frame_start) in
      elim (Bool-cases (ltb 0 pad)) [
        | inl padded ↦ rw padded (
            on_ready-IsTwinTurn pad d rs buf cap _ h h' same
              (λ rs1 rs2 b1 b2 c1 c2 eq enough1 enough2.
                finish_twin
                  (record d {
                    buf_pos = d.buf_pos + pad;
                    bytes_consumed = add64 d.bytes_consumed pad;
                  })
                  rs1 rs2 b1 b2 c1 c2 eq enough1 enough2 (omega (arith, inside))))
        | inr aligned ↦
            rw aligned (finish_twin d d.reader rs d.buf buf d.cap cap same in1 in2 inside)
      ]

  pub step_at_twin :
      (s : State) (d : Decoder) (rs : List Read) (buf : List ℕ) (cap : ℕ)
      → IsFillable d
      → IsFillable (refilled d rs buf cap)
      → whole d ≡ buf ++ pending rs
      → d.buf_pos ≤ length d.buf
      → d.buf_pos ≤ length buf
      → HasShape s d
      → IsTwinTurn (step_at crc32_ieee s d) (step_at crc32_ieee s (refilled d rs buf cap))
  unfolding step_opcode step_seq step_body step_crc
  step_at_twin state_magic d rs buf cap h h' same i j shape = magic_twin d rs buf cap h h' same
  step_at_twin state_flags d rs buf cap h h' same i j shape =
      flags_twin d rs buf cap h h' same shape.0
  step_at_twin state_length d rs buf cap h h' same i j shape =
      length_twin d rs buf cap h h' same shape.0
  step_at_twin state_opcode d rs buf cap h h' same i j shape =
      pass_twin d rs buf cap h h' same d.cur_opcode_len state_seq
  step_at_twin state_seq d rs buf cap h h' same i j shape =
      pass_twin d rs buf cap h h' same d.cur_seq_len
        (if ltb 0 d.cur_body_len then state_body else state_crc)
  step_at_twin state_body d rs buf cap h h' same i j shape =
      pass_twin d rs buf cap h h' same d.cur_body_len state_crc
  step_at_twin state_crc d rs buf cap h h' same i j shape =
      pass_twin d rs buf cap h h' same d.cur_crc_len state_padding
  step_at_twin state_padding d rs buf cap h h' same i j shape =
      padding_twin d rs buf cap h h' same i j (omega (arith, shape))
