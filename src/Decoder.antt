-- ===== src/Decoder.antt =====
-- The rounds of `Decode` in conn/decoder.go, a state machine over the buffer of `Stream`.
pub mod Build
pub mod Content
pub mod Fields
pub mod Position
pub mod Reaching
pub mod Rounds
pub mod Ending
pub mod Passing
pub mod RoundTrip
pub mod Skipping
pub mod Garbled
pub mod Sequence
pub mod Progress
pub mod Cutting
use proto_q.Prelude.{
  ℕ, zero, suc, ◌+◌, ◌-◌, ◌*◌, ◌%◌, ◌^◌, Bool, true, false, not, Option, none, some, List, [], ◌∷◌,
  ◌++◌, length, drop, get_elem?, ltb, leb, ◌==◌, if◌then◌else◌,
}
use proto_q.Errors.{Error, Result, ok, err, panic, ◌>>=◌, crc_mismatch}
use proto_q.Flags.{Flags, has_body_len, opcode_len, seq_len, crc_len, validate}
use proto_q.Packet.{PacketData, has_body, pad_len, slice, read_uint_n, read_be16}
use proto_q.Crc.{verify_crc}
use proto_q.Encoder.{magic_byte}
use proto_q.Stream.{
  Decoder, State, state_magic, state_flags, state_length, state_opcode, state_seq, state_body,
  state_crc, state_padding, ReadError, eof, failed, Read, Ensured, ready, stopped, panicked,
  ensure_bytes, add64,
}

-- One round of the loop of `Decode`.
pub data Turn : Type 0 where
  again : Decoder → Turn
  returned : PacketData → Decoder → Turn
  gave_up : ReadError → Decoder → Turn
  crashed : Turn

abbrev pub on_ready : Ensured → (Decoder → Turn) → Turn
on_ready (ready d) k = k d
on_ready (stopped e d) k = gave_up e d
on_ready panicked k = crashed

unfoldable pub reset_frame : Decoder → Decoder
reset_frame d = record d {
  state = state_magic;
  cur_flags = 0;
  cur_opcode_len = 0;
  cur_seq_len = 0;
  cur_crc_len = 0;
  cur_has_body_len = false;
  cur_length_val = 0;
  cur_body_len = 0;
}

-- The bytes from `buf_pos` on are moved to the front; `buf_pos` never passes the length.
unfoldable pub compact : Decoder → Decoder
compact d = record d {
  buf = drop d.buf_pos d.buf;
  cur_frame_start = d.cur_frame_start - d.buf_pos;
  buf_pos = 0;
}

-- `d.buf[pos:]`
abbrev pub suffix : List ℕ → ℕ → Result (List ℕ)
suffix buf pos = if leb pos (length buf) then ok (drop pos buf) else panic

abbrev skip_byte : Decoder → Decoder
skip_byte d = record d { buf_pos = d.buf_pos + 1; bytes_consumed = add64 d.bytes_consumed 1 }

abbrev see_magic : Decoder → Option ℕ → Turn
see_magic d none = crashed
see_magic d (some b) =
    if not (b == magic_byte)
    then again (skip_byte d)
    else again (record (skip_byte d) { cur_frame_start = d.buf_pos; state = state_flags })

unfoldable pub step_magic : Decoder → Turn
step_magic d = on_ready (ensure_bytes 1 d) λ d'. see_magic d' (get_elem? d'.buf d'.buf_pos)

abbrev see_flags : Decoder → Option ℕ → Turn
see_flags d none = crashed
see_flags d (some b) = again (record d {
  cur_flags = b;
  buf_pos = d.cur_frame_start + 1 + 1;
  bytes_consumed = add64 d.bytes_consumed 1;
  cur_has_body_len = has_body_len b;
  cur_opcode_len = opcode_len b;
  cur_seq_len = seq_len b;
  cur_crc_len = crc_len b;
  state = if has_body_len b then state_length else state_opcode;
})

unfoldable pub step_flags : Decoder → Turn
step_flags d = on_ready (ensure_bytes 1 d) λ d1.
    let flags_pos = d1.cur_frame_start + 1 in
    on_ready (if leb (length d1.buf) flags_pos then ensure_bytes 1 d1 else ready d1)
      λ d2. see_flags d2 (get_elem? d2.buf flags_pos)

abbrev see_length : Decoder → Result ℕ → Turn
see_length d (ok v) =
    let min_payload = d.cur_opcode_len + d.cur_seq_len + d.cur_crc_len in
    let d' = record d {
      cur_length_val = v;
      buf_pos = d.cur_frame_start + 2 + 2;
      bytes_consumed = add64 d.bytes_consumed 2;
    } in
    if ltb v min_payload
    then again (reset_frame d')
    else again (record d' { cur_body_len = v - min_payload; state = state_opcode })
see_length d _ = crashed

unfoldable pub step_length : Decoder → Turn
step_length d =
    on_ready (ensure_bytes 2 d)
      λ d'. see_length d' (read_be16 (drop (d'.cur_frame_start + 2) d'.buf))

-- The rounds that only wait for a field and pass over it.
abbrev pub pass_over : Decoder → ℕ → State → Turn
pass_over d n next = on_ready (ensure_bytes n d) λ d'. again (record d' {
  buf_pos = d'.buf_pos + n;
  bytes_consumed = add64 d'.bytes_consumed n;
  state = next;
})

unfoldable pub step_opcode : Decoder → Turn
step_opcode d = pass_over d d.cur_opcode_len state_seq

unfoldable pub step_seq : Decoder → Turn
step_seq d = pass_over d d.cur_seq_len (if ltb 0 d.cur_body_len then state_body else state_crc)

unfoldable pub step_body : Decoder → Turn
step_body d = pass_over d d.cur_body_len state_crc

unfoldable pub step_crc : Decoder → Turn
step_crc d = pass_over d d.cur_crc_len state_padding

module _ (crc32_ieee : List ℕ → ℕ) where
  abbrev pub checked : Bool → PacketData → Result PacketData
  checked false f = err crc_mismatch
  checked true f = elim (validate f.flags (has_body f.body)) [ some e ↦ err e | none ↦ ok f ]

  unfoldable pub build_frame : Decoder → Result PacketData
  build_frame d = do
    let opcode_at = d.cur_frame_start + 1 + 1 + (if d.cur_has_body_len then 2 else 0)
    opcode_rest ← suffix d.buf opcode_at
    opcode ← read_uint_n opcode_rest d.cur_opcode_len
    let seq_at = opcode_at + d.cur_opcode_len
    seq_rest ← suffix d.buf seq_at
    seq ← read_uint_n seq_rest d.cur_seq_len
    let body_at = seq_at + d.cur_seq_len
    body ← if ltb 0 d.cur_body_len then slice d.buf body_at (body_at + d.cur_body_len) else ok []
    let crc_at = body_at + d.cur_body_len
    crc_ok ←
        if ltb 0 d.cur_crc_len
        then (do
          expected ← slice d.buf crc_at (crc_at + d.cur_crc_len)
          crc_data ← slice d.buf (d.cur_frame_start + 1) crc_at
          ok (verify_crc crc32_ieee crc_data expected d.cur_crc_len))
        else ok true
    checked crc_ok (record { flags = d.cur_flags; opcode = opcode; seq = seq; body = body })

  abbrev pub finish : Decoder → Result PacketData → Turn
  finish d (ok f) =
      let d' = reset_frame (compact d) in
      returned f (record d' { frames_decoded = add64 d'.frames_decoded 1 })
  finish d (err e) = again (reset_frame d)
  finish d panic = crashed

  unfoldable pub step_padding : Decoder → Turn
  unfolding build_frame
  step_padding d =
      let pad = pad_len (d.buf_pos - d.cur_frame_start) in
      if ltb 0 pad
      then on_ready (ensure_bytes pad d) (λ d'.
        let d'' = record d' {
          buf_pos = d'.buf_pos + pad;
          bytes_consumed = add64 d'.bytes_consumed pad;
        } in
        finish d'' (build_frame d''))
      else finish d (build_frame d)

  abbrev pub step_at : State → Decoder → Turn
  step_at state_magic d = step_magic d
  step_at state_flags d = step_flags d
  step_at state_length d = step_length d
  step_at state_opcode d = step_opcode d
  step_at state_seq d = step_seq d
  step_at state_body d = step_body d
  step_at state_crc d = step_crc d
  step_at state_padding d = step_padding d

  unfoldable pub step : Decoder → Turn
  step d = step_at d.state d

-- How `Decode` ends; `out_of_fuel` is no outcome of the source.
pub data Outcome : Type 0 where
  packet : PacketData → Decoder → Outcome
  io_error : ReadError → Decoder → Outcome
  crash : Outcome
  out_of_fuel : Outcome

module _ (crc32_ieee : List ℕ → ℕ) where
  -- The loop of `Decode`, on fuel.
  unfoldable pub decode : ℕ → Decoder → Outcome
  unfolding step
  decode zero d = out_of_fuel
  decode (suc fuel) d = elim (step crc32_ieee d) [
    | again d' ↦ decode fuel d'
    | returned f d' ↦ packet f d'
    | gave_up e d' ↦ io_error e d'
    | crashed ↦ crash
  ]
