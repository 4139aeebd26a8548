-- ===== src/Decoder/Progress/Total.antt =====
-- `Decode` comes to an end on every stream, without a panic.
use proto_q.Prelude.{
  ℕ, zero, suc, ◌+◌, ◌-◌, ◌*◌, ◌≤◌, ◌<◌, ◌≡◌, ◌⊎◌, inl, inr, refl, ap, arith, Bool-cases, ltb,
  ltb→le, if◌then◌else◌, List, length-drop,
}
use proto_q.Packet.{PacketData, pad_len}
use proto_q.Stream.{
  Decoder, State, state_magic, state_flags, state_length, state_opcode, state_seq, state_body,
  state_crc, state_padding, Read, ReadError, add64,
}
use proto_q.Stream.Ready.{refilled}
use proto_q.Decoder.{
  Turn, again, returned, gave_up, crashed, reset_frame, compact, pass_over, step_opcode, step_seq,
  step_body, step_crc, finish, step_padding, build_frame, step_at, step, Outcome, packet, io_error,
  decode,
}
use proto_q.Decoder.Progress.{IsBounded, HasShape, IsSound, unread, rank, rounds_left}
use proto_q.Decoder.Progress.Frame.{build_frame-total}
use proto_q.Decoder.Progress.Keeping.{
  Keeps, HasBuffer, on_ready-Keeps, unread-filled, shape_at, step_magic-Keeps, step_flags-Keeps,
  step_length-Keeps,
}

module _ (P : Read → Type 0) (small : (r : Read) → P r → IsBounded r) where
  -- The rounds that only wait and pass over: `next` has the lower rank.
  pass_over-Keeps :
      (n : ℕ) (next : State) (d : Decoder)
      → IsSound P d
      → rank next < rank d.state
      → ((pos : ℕ) → pos ≡ d.buf_pos + n → HasShape next (record d { buf_pos = pos }))
      → Keeps P small (rounds_left d) (pass_over d n next)
  pass_over-Keeps n next d h lower shape =
      on_ready-Keeps P small (rounds_left d) n d _ h (λ rs buf cap filled enough.
        let fewer = unread-filled P small d rs buf cap n filled enough in
        (
          record {
            room = filled.room;
            bounded = filled.bounded;
            reached = enough;
            shape = shape (d.buf_pos + n) refl;
          },
          omega (arith, fewer, lower),
        ))

  step_opcode-Keeps :
      (d : Decoder)
      → IsSound P d
      → d.state ≡ state_opcode
      → Keeps P small (rounds_left d) (step_opcode d)
  unfolding step_opcode
  step_opcode-Keeps d h e =
      let shape : HasShape state_opcode d = shape_at P small d h e in
      pass_over-Keeps d.cur_opcode_len state_seq d h (rw e (omega arith))
        (λ pos at. omega (arith, shape, at))

  step_seq-Keeps :
      (d : Decoder) → IsSound P d → d.state ≡ state_seq → Keeps P small (rounds_left d) (step_seq d)
  unfolding step_seq
  step_seq-Keeps d h e =
      let shape : HasShape state_seq d = shape_at P small d h e in
      elim (Bool-cases (ltb 0 d.cur_body_len)) [
        | inl long ↦ rw long (
            pass_over-Keeps d.cur_seq_len state_body d h (rw e (omega arith))
              (λ pos at. omega (arith, shape, at)))
        | inr empty ↦ rw empty (
            pass_over-Keeps d.cur_seq_len state_crc d h (rw e (omega arith))
              (λ pos at. omega (arith, shape, at, ltb→le 0 d.cur_body_len empty)))
      ]

  step_body-Keeps :
      (d : Decoder)
      → IsSound P d
      → d.state ≡ state_body
      → Keeps P small (rounds_left d) (step_body d)
  unfolding step_body
  step_body-Keeps d h e =
      let shape : HasShape state_body d = shape_at P small d h e in
      pass_over-Keeps d.cur_body_len state_crc d h (rw e (omega arith))
        (λ pos at. omega (arith, shape, at))

  step_crc-Keeps :
      (d : Decoder) → IsSound P d → d.state ≡ state_crc → Keeps P small (rounds_left d) (step_crc d)
  unfolding step_crc
  step_crc-Keeps d h e =
      let shape : HasShape state_crc d = shape_at P small d h e in
      pass_over-Keeps d.cur_crc_len state_padding d h (rw e (omega arith))
        (λ pos at. omega (arith, shape, at))

  module _ (crc32_ieee : List ℕ → ℕ) where
    finish-Keeps :
        (m : ℕ) (d : Decoder)
        → HasBuffer P small d
        → d.cur_frame_start
            + 2
            + (if d.cur_has_body_len then 2 else 0)
            + d.cur_opcode_len
            + d.cur_seq_len
            + d.cur_body_len
            + d.cur_crc_len
          ≤ d.buf_pos
        → 6 * unread d < m
        → Keeps P small m (finish crc32_ieee d (build_frame crc32_ieee d))
    unfolding reset_frame compact
    finish-Keeps m d h inside fewer =
        elim (build_frame-total crc32_ieee d (omega (arith, inside, h.2))) [
          | inl (f, built) ↦
              rw (finish, built)
                (record {
                  room = (omega (arith, h.0.0, length-drop d.buf_pos d.buf), h.0.1);
                  bounded = h.1;
                  reached = omega arith;
                  shape = refl;
                })
          | inr (e, failed_build) ↦
              rw (finish, failed_build)
                (
                  record { room = h.0; bounded = h.1; reached = h.2; shape = refl },
                  omega (arith, fewer),
                )
        ]

    step_padding-Keeps :
        (d : Decoder)
        → IsSound P d
        → d.state ≡ state_padding
        → Keeps P small (rounds_left d) (step_padding crc32_ieee d)
    unfolding step_padding
    step_padding-Keeps d h e =
        let shape : HasShape state_padding d = shape_at P small d h e in
        let low : rank d.state ≡ 1 = ap rank e in
        let pad = pad_len (d.buf_pos - d.cur_frame_start) in
        elim (Bool-cases (ltb 0 pad)) [
          | inl padded ↦ rw padded (
              on_ready-Keeps P small (rounds_left d) pad d _ h (λ rs buf cap filled enough.
                finish-Keeps (rounds_left d)
                  (record (refilled d rs buf cap) {
                    buf_pos = d.buf_pos + pad;
                    bytes_consumed = add64 d.bytes_consumed pad;
                  })
                  (filled.room, filled.bounded, enough) (omega (arith, shape))
                  (omega (arith, low, unread-filled P small d rs buf cap pad filled enough))))
          | inr aligned ↦ rw aligned (
              finish-Keeps (rounds_left d) d (h.room, h.bounded, h.reached) (omega (arith, shape))
                (omega (arith, low)))
        ]

    step_at-Keeps :
        (s : State) (d : Decoder)
        → IsSound P d
        → d.state ≡ s
        → Keeps P small (rounds_left d) (step_at crc32_ieee s d)
    step_at-Keeps state_magic d h e = step_magic-Keeps P small d h e
    step_at-Keeps state_flags d h e = step_flags-Keeps P small d h e
    step_at-Keeps state_length d h e = step_length-Keeps P small d h e
    step_at-Keeps state_opcode d h e = step_opcode-Keeps d h e
    step_at-Keeps state_seq d h e = step_seq-Keeps d h e
    step_at-Keeps state_body d h e = step_body-Keeps d h e
    step_at-Keeps state_crc d h e = step_crc-Keeps d h e
    step_at-Keeps state_padding d h e = step_padding-Keeps d h e

    pub step-Keeps : (d : Decoder) → IsSound P d → Keeps P small (rounds_left d) (step crc32_ieee d)
    unfolding step
    step-Keeps d h = step_at-Keeps d.state d h refl

    abbrev Ends : Outcome → Type 0
    Ends o =
        ((f : PacketData) × (d' : Decoder) × (o ≡ packet f d') × IsSound P d')
        ⊎ ((e : ReadError) × (d' : Decoder) × (o ≡ io_error e d') × IsSound P d')

    decode_turn :
        (fuel : ℕ) (d : Decoder) (t : Turn)
        → step crc32_ieee d ≡ t
        → Keeps P small (rounds_left d) t
        → rounds_left d ≤ fuel
        → ((d' : Decoder) → IsSound P d' → rounds_left d' < fuel → Ends (decode crc32_ieee fuel d'))
        → Ends (decode crc32_ieee (suc fuel) d)
    unfolding decode
    decode_turn fuel d (again d') e (sound, fewer) enough rest =
        rw (decode, e) (rest d' sound (omega (arith, fewer, enough)))
    decode_turn fuel d (returned f d') e sound enough rest = inl (f, d', rw (decode, e) refl, sound)
    decode_turn fuel d (gave_up x d') e sound enough rest = inr (x, d', rw (decode, e) refl, sound)
    decode_turn fuel d crashed e nothing enough rest = absurd nothing

    -- `Decode` comes to an end on every stream: a decoder as `NewDecoder` or an earlier call left
    -- it, whose reader claims at most 4096 bytes a call, returns a packet or an error of its
    -- reader, and is left as sound. It neither panics nor goes on for ever, whatever the bytes are
    -- and however they are cut: with `n` bytes unread, `6 n + 6` rounds are enough.
    pub decode-total :
        (fuel : ℕ) (d : Decoder)
        → IsSound P d
        → rounds_left d < fuel
        → ((f : PacketData) × (d' : Decoder) × (decode crc32_ieee fuel d ≡ packet f d')
            × IsSound P d')
          ⊎ ((e : ReadError) × (d' : Decoder) × (decode crc32_ieee fuel d ≡ io_error e d')
              × IsSound P d')
    unfolding step
    decode-total zero d h enough = absurd (omega arith)
    decode-total (suc fuel) d h enough =
        decode_turn fuel d (step crc32_ieee d) refl (step-Keeps d h) (omega arith)
          (λ d' h' enough'. decode-total fuel d' h' enough')
