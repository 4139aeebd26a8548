-- ===== src/Decoder/Rounds.antt =====
-- Each round of `Decode` on a frame that `Encode` wrote.
use proto_q.Prelude.{
  ℕ, ◌+◌, ◌-◌, ◌%◌, ◌^◌, ◌≤◌, ◌≡◌, ◌≢◌, refl, sym, ◌∙◌, arith, false, some, ltb, leb, ◌==◌, le→ltb,
  if◌then◌else◌, List, [], ◌∷◌, ◌++◌, append_assoc, length, length-append, drop, get_elem?,
}
use proto_q.Errors.{ok}
use proto_q.Flags.{has_body_len, opcode_len, seq_len, crc_len}
use proto_q.Packet.{PacketData, be16, read_be16}
use proto_q.Encoder.{magic_byte, payload_len}
use proto_q.Encoder.Encodable.{IsEncodable}
use proto_q.Stream.{Decoder, state_magic, state_flags, state_length, state_opcode, add64}
use proto_q.Stream.Ready.{whole, refilled, ensure_bytes-ready, pending}
use proto_q.Decoder.{again, step_magic, step_flags, step_length}
use proto_q.Decoder.Content.{front_byte, front_be16}
use proto_q.Decoder.Position.{IsIn, HasFlags}

-- The rounds that read a byte of the frame. `pre` is what the decoder has passed over before it.
module _ (pre rest : List ℕ) (count : ℕ) where
  -- A byte that is not the magic one is passed over.
  pub step_magic_noise :
      {d : Decoder} (x : ℕ)
      → x ≢ magic_byte
      → IsIn (pre ++ (x ∷ rest)) (length pre) count d state_magic 0
      → (d' : Decoder) × (step_magic d ≡ again d')
        × IsIn (pre ++ (x ∷ rest)) (length pre + 1) count d' state_magic 0
        × (d'.cur_body_len ≡ d.cur_body_len)
  unfolding step_magic
  step_magic_noise {d} x noise i =
      let room : d.buf_pos + 1 ≤ length (whole d) =
        rw i.same (omega (arith, i.place, length-append pre (x ∷ rest))) in
      let (rs, buf, cap, r) = ensure_bytes-ready 1 d i.room i.calm room in
      let here : get_elem? buf d.buf_pos ≡ some x =
        front_byte pre rest buf (pending rs) x d.buf_pos (r.same ∙ i.same) (omega (arith, i.place))
          (omega (arith, r.enough)) in
      let other : (x == magic_byte) ≡ false = ground arith in
      (
        record (refilled d rs buf cap) {
          buf_pos = d.buf_pos + 1;
          bytes_consumed = add64 d.bytes_consumed 1;
        },
        rw (r.outcome, here, other) refl,
        record {
          state = i.state;
          place = omega (arith, i.place);
          same = r.same ∙ i.same;
          room = r.room;
          calm = r.calm;
          frames = i.frames;
          reached = omega (arith, r.enough);
        },
        refl,
      )

  -- The magic byte begins a frame.
  pub step_magic_found :
      {d : Decoder}
      → IsIn (pre ++ (magic_byte ∷ rest)) (length pre) count d state_magic 0
      → (d' : Decoder) × (step_magic d ≡ again d')
        × IsIn (pre ++ (magic_byte ∷ rest)) (length pre) count d' state_flags 1
        × (d'.cur_frame_start ≡ length pre)
        × (d'.cur_body_len ≡ d.cur_body_len)
  unfolding step_magic
  step_magic_found {d} i =
      let room : d.buf_pos + 1 ≤ length (whole d) =
        rw i.same (omega (arith, i.place, length-append pre (magic_byte ∷ rest))) in
      let (rs, buf, cap, r) = ensure_bytes-ready 1 d i.room i.calm room in
      let here : get_elem? buf d.buf_pos ≡ some magic_byte =
        front_byte pre rest buf (pending rs) magic_byte d.buf_pos (r.same ∙ i.same)
          (omega (arith, i.place)) (omega (arith, r.enough)) in
      (
        record (refilled d rs buf cap) {
          buf_pos = d.buf_pos + 1;
          bytes_consumed = add64 d.bytes_consumed 1;
          cur_frame_start = d.buf_pos;
          state = state_flags;
        },
        rw (r.outcome, here) refl,
        record {
          state = refl;
          place = omega (arith, i.place);
          same = r.same ∙ i.same;
          room = r.room;
          calm = r.calm;
          frames = i.frames;
          reached = omega (arith, r.enough);
        },
        omega (arith, i.place),
        refl,
      )

module _ (pre rest : List ℕ) (count : ℕ) (f : PacketData) where
  -- The flags of the frame are stored, and they say whether a Length field follows.
  pub step_flags-HasFlags :
      {d : Decoder}
      → IsIn (pre ++ (magic_byte ∷ f.flags ∷ rest)) (length pre) count d state_flags 1
      → d.cur_frame_start ≡ length pre
      → (d' : Decoder) × (step_flags d ≡ again d')
        × IsIn
            (pre ++ (magic_byte ∷ f.flags ∷ rest))
            (length pre)
            count
            d'
            (if has_body_len f.flags then state_length else state_opcode)
            2
        × HasFlags (length pre) d' f
        × (d'.cur_body_len ≡ d.cur_body_len)
  unfolding step_flags
  step_flags-HasFlags {d} i start =
      let sizes = length-append pre (magic_byte ∷ f.flags ∷ rest) in
      let room : d.buf_pos + 1 ≤ length (whole d) = rw i.same (omega (arith, i.place, sizes)) in
      let (rs, buf, cap, r) = ensure_bytes-ready 1 d i.room i.calm room in
      let inside : leb (length buf) (d.cur_frame_start + 1) ≡ false =
        ground (arith, i.place, r.enough) in
      let here : get_elem? buf (d.cur_frame_start + 1) ≡ some f.flags =
        front_byte (pre ++ (magic_byte ∷ [])) rest buf (pending rs) f.flags (d.cur_frame_start + 1)
          (r.same ∙ i.same ∙ sym (append_assoc pre (magic_byte ∷ []) (f.flags ∷ rest)))
          (omega (arith, length-append pre (magic_byte ∷ []))) (omega (arith, i.place, r.enough)) in
      (
        record (refilled d rs buf cap) {
          cur_flags = f.flags;
          buf_pos = d.cur_frame_start + 1 + 1;
          bytes_consumed = add64 d.bytes_consumed 1;
          cur_has_body_len = has_body_len f.flags;
          cur_opcode_len = opcode_len f.flags;
          cur_seq_len = seq_len f.flags;
          cur_crc_len = crc_len f.flags;
          state = if has_body_len f.flags then state_length else state_opcode;
        },
        rw (r.outcome, inside, here) refl,
        record {
          state = refl;
          place = omega arith;
          same = r.same ∙ i.same;
          room = r.room;
          calm = r.calm;
          frames = i.frames;
          reached = omega (arith, i.place, r.enough);
        },
        record {
          from_start = start;
          flags = refl;
          opcode_bytes = refl;
          seq_bytes = refl;
          crc_bytes = refl;
          with_length = refl;
        },
        refl,
      )

  -- The Length field gives the length of the body.
  pub step_length-body :
      {d : Decoder}
      → IsEncodable f
      → IsIn
          (pre ++ (magic_byte ∷ f.flags ∷ (be16 (payload_len f % 2 ^ 16) ++ rest)))
          (length pre)
          count
          d
          state_length
          2
      → HasFlags (length pre) d f
      → (d' : Decoder) × (step_length d ≡ again d')
        × IsIn
            (pre ++ (magic_byte ∷ f.flags ∷ (be16 (payload_len f % 2 ^ 16) ++ rest)))
            (length pre)
            count
            d'
            state_opcode
            4
        × HasFlags (length pre) d' f
        × (d'.cur_body_len ≡ length f.body)
  unfolding step_length
  step_length-body {d} e i h =
      let value = payload_len f % 2 ^ 16 in
      let sizes = length-append pre (magic_byte ∷ f.flags ∷ (be16 value ++ rest)) in
      let room : d.buf_pos + 2 ≤ length (whole d) = rw i.same (omega (arith, i.place, sizes)) in
      let (rs, buf, cap, r) = ensure_bytes-ready 2 d i.room i.calm room in
      let read : read_be16 (drop (d.cur_frame_start + 2) buf) ≡ ok (payload_len f) =
        front_be16 (pre ++ (magic_byte ∷ f.flags ∷ [])) rest buf (pending rs) (payload_len f)
          (d.cur_frame_start + 2) e.payload_fits
          (r.same
            ∙ i.same
            ∙ sym (append_assoc pre (magic_byte ∷ f.flags ∷ []) (be16 value ++ rest)))
          (omega (arith, h.from_start, length-append pre (magic_byte ∷ f.flags ∷ [])))
          (omega (arith, h.from_start, i.place, r.enough)) in
      let long_enough : ltb (payload_len f) (d.cur_opcode_len + d.cur_seq_len + d.cur_crc_len)
          ≡ false =
        le→ltb _ _ (omega (arith, h.opcode_bytes, h.seq_bytes, h.crc_bytes)) in
      (
        record (refilled d rs buf cap) {
          cur_length_val = payload_len f;
          buf_pos = d.cur_frame_start + 2 + 2;
          bytes_consumed = add64 d.bytes_consumed 2;
          cur_body_len = payload_len f - (d.cur_opcode_len + d.cur_seq_len + d.cur_crc_len);
          state = state_opcode;
        },
        rw (r.outcome, read, long_enough) refl,
        record {
          state = refl;
          place = omega (arith, h.from_start);
          same = r.same ∙ i.same;
          room = r.room;
          calm = r.calm;
          frames = i.frames;
          reached = omega (arith, h.from_start, i.place, r.enough);
        },
        record {
          from_start = h.from_start;
          flags = h.flags;
          opcode_bytes = h.opcode_bytes;
          seq_bytes = h.seq_bytes;
          crc_bytes = h.crc_bytes;
          with_length = h.with_length;
        },
        omega (arith, h.opcode_bytes, h.seq_bytes, h.crc_bytes),
      )
