-- ===== src/Decoder/Ending.antt =====
-- The rounds of `Decode` from the Opcode field of an encoded frame to its end.
use proto_q.Prelude.{
  ℕ, suc, ◌+◌, ◌-◌, ◌≤◌, ◌≡◌, refl, ap, sym, subst, ◌∙◌, arith, Bool, true, false, ltb, ltb→le,
  if◌then◌else◌, List, ◌++◌, length, length-append, Bool-cases, inl, inr,
}
use proto_q.Flags.{opcode_len, seq_len, crc_len}
use proto_q.Packet.{PacketData, pad_len}
use proto_q.Encoder.{length_field}
use proto_q.Encoder.Frame.{covered, sealed, length-covered, length-sealed}
use proto_q.Encoder.Encodable.{IsEncodable}
use proto_q.Stream.{
  Decoder, State, state_opcode, state_seq, state_body, state_crc, state_padding, Read, add64,
}
use proto_q.Stream.Ready.{IsCalm, HasRoom, whole, refilled, IsRefill, ensure_bytes-ready, pending}
use proto_q.Decoder.{
  again, pass_over, step_opcode, step_seq, step_body, step_crc, step_padding, step, step_at,
  build_frame, finish,
}
use proto_q.Decoder.Fields.{content}
use proto_q.Decoder.Build.{build_frame-sealed, accepts, verdict}
use proto_q.Decoder.Position.{IsIn, HasFlags, HasFlags-moved, pass_over-IsIn}
use proto_q.Decoder.Reaching.{Reaches, Reaches-here, Reaches-turn, Reaches-more}

module _ (crc32_ieee : List ℕ → ℕ) (crc pre rest : List ℕ) (count : ℕ) (f : PacketData)
    (size : length crc ≡ crc_len f.flags) where
  abbrev pub frame : List ℕ
  frame = sealed crc f

  abbrev pub stream : List ℕ
  stream = content crc pre rest f

  abbrev unpadded : ℕ
  unpadded = 1 + length (covered f) + crc_len f.flags

  length-stream : length stream ≡ length pre + length frame + length rest
  length-stream = omega (arith, length-append pre (frame ++ rest), length-append frame rest)

  -- The rounds have passed over the frame, which is to be built.
  pub record IsPassed (d : Decoder) : Type 0 where
    pub place : d.buf_pos ≡ length pre + length frame
    pub same : whole d ≡ stream
    pub room : HasRoom d.buf d.cap
    pub calm : IsCalm d.reader
    pub frames : d.frames_decoded ≡ count
    pub inside : d.buf_pos ≤ length d.buf

  -- The frame is complete, up to its padding.
  pub record IsPadding (d : Decoder) : Type 0 where
    pub within : IsIn stream (length pre) count d state_padding unpadded
    pub has_flags : HasFlags (length pre) d f
    pub body : d.cur_body_len ≡ length f.body

  -- The round that waits for the padding, and builds the frame.
  module _ (d : Decoder) (padding : IsPadding d) (e : IsEncodable f) (verified : Bool)
      (outcome : accepts crc32_ieee crc f ≡ verified) where
    open padding use {within, has_flags, body}

    abbrev Builds : Decoder → Type 0
    Builds d' =
        (step_padding crc32_ieee d ≡ finish crc32_ieee d' (verdict f verified)) × IsPassed d'

    waiting : d.buf_pos - d.cur_frame_start ≡ unpadded
    waiting = omega (arith, within.place, has_flags.from_start)

    padded_end :
        (rs : List Read) (buf : List ℕ) (room : ℕ)
        → IsRefill d (pad_len unpadded) rs buf room
        → ltb 0 (pad_len unpadded) ≡ true
        → (d' : Decoder) × Builds d'
    unfolding step_padding
    padded_end rs buf room r padded =
        let d2 : Decoder = record (refilled d rs buf room) {
          buf_pos = d.buf_pos + pad_len unpadded;
          bytes_consumed = add64 d.bytes_consumed (pad_len unpadded);
        } in
        let built : build_frame crc32_ieee d2 ≡ verdict f verified =
          build_frame-sealed crc32_ieee crc pre rest (pending rs) f d2 size
            (HasFlags-moved (length pre) d f rs buf room _ _ has_flags) body (r.same ∙ within.same)
            (omega (arith, within.place, r.enough)) verified e outcome in
        (
          d2,
          (
            rw (waiting, padded, r.outcome, built) refl,
            record {
              place = omega (arith, within.place, length-sealed crc f size);
              same = r.same ∙ within.same;
              room = r.room;
              calm = r.calm;
              frames = within.frames;
              inside = r.enough;
            },
          ),
        )

    exact_end : ltb 0 (pad_len unpadded) ≡ false → (d' : Decoder) × Builds d'
    unfolding step_padding
    exact_end exact =
        let built : build_frame crc32_ieee d ≡ verdict f verified =
          build_frame-sealed crc32_ieee crc pre rest (pending d.reader) f d size has_flags body
            within.same (omega (arith, within.place, within.reached)) verified e outcome in
        (
          d,
          (
            rw (waiting, exact, built) refl,
            record {
              place = omega (arith, within.place, length-sealed crc f size, ltb→le 0 _ exact);
              same = within.same;
              room = within.room;
              calm = within.calm;
              frames = within.frames;
              inside = within.reached;
            },
          ),
        )

    pub step_padding-finish : (d' : Decoder) × Builds d'
    step_padding-finish =
        let r =
          ensure_bytes-ready (pad_len unpadded) d within.room within.calm (
            rw within.same
              (omega (arith, within.place, length-sealed crc f size, length-stream))) in
        elim (Bool-cases (ltb 0 (pad_len unpadded))) [
          | inl padded ↦ padded_end r.0 r.1 r.2 r.3 padded
          | inr exact ↦ exact_end exact
        ]

  -- Within `n` rounds the decoder waits for the padding of the frame.
  abbrev pub Ends : Decoder → ℕ → Type 0
  Ends d n = (d' : Decoder) × Reaches crc32_ieee d d' n × IsPadding d'

  pub step_in : (d : Decoder) (s : State) → d.state ≡ s → step crc32_ieee d ≡ step_at crc32_ieee s d
  unfolding step
  step_in d s is_s = ap (λ t. step_at crc32_ieee t d) is_s

  pub then-Ends :
      (d d' : Decoder) (s : State) (n : ℕ)
      → d.state ≡ s
      → step_at crc32_ieee s d ≡ again d'
      → Ends d' n
      → Ends d (suc n)
  then-Ends d d' s n is_s round (end, reaches, padding) =
      (end, Reaches-turn crc32_ieee d d' end n (step_in d s is_s ∙ round) reaches, padding)

  -- The rounds from the given state on.
  from_crc :
      (d : Decoder)
      → HasFlags (length pre) d f
      → d.cur_body_len ≡ length f.body
      → IsIn stream (length pre) count d state_crc (1 + length (covered f))
      → Ends d 1
  unfolding step_crc
  from_crc d h hb i =
      let (d', round, i', h', hb') =
        pass_over-IsIn stream (length pre) count (1 + length (covered f)) (crc_len f.flags)
          state_padding (length f.body) i h hb
          (omega (arith, length-sealed crc f size, length-stream)) in
      then-Ends d d' state_crc 0 i.state (ap (λ n. pass_over d n state_padding) h.crc_bytes ∙ round)
        (d', Reaches-here crc32_ieee d', record { within = i'; has_flags = h'; body = hb' })

  abbrev at_body : ℕ
  at_body = 2 + length_field f + opcode_len f.flags + seq_len f.flags

  covered_size : 1 + length (covered f) ≡ at_body + length f.body
  covered_size = omega (arith, length-covered f)

  from_body :
      (d : Decoder)
      → HasFlags (length pre) d f
      → d.cur_body_len ≡ length f.body
      → IsIn stream (length pre) count d state_body at_body
      → Ends d 2
  unfolding step_body
  from_body d h hb i =
      let (d', round, i', h', hb') =
        pass_over-IsIn stream (length pre) count at_body (length f.body) state_crc (length f.body) i
          h hb (omega (arith, length-sealed crc f size, length-stream, covered_size)) in
      then-Ends d d' state_body 1 i.state (ap (λ n. pass_over d n state_crc) hb ∙ round) (
        from_crc d' h' hb'
          (subst (λ k. IsIn stream (length pre) count d' state_crc k) (sym covered_size) i'))

  abbrev after_seq : Decoder → State
  after_seq d = if ltb 0 d.cur_body_len then state_body else state_crc

  behind_seq :
      (d : Decoder)
      → HasFlags (length pre) d f
      → d.cur_body_len ≡ length f.body
      → IsIn stream (length pre) count d (after_seq d) at_body
      → Ends d 2
  behind_seq d h hb i = elim (Bool-cases (ltb 0 d.cur_body_len)) [
    | inl some_body ↦ from_body d h hb (
        subst (λ b. IsIn stream (length pre) count d (if b then state_body else state_crc) at_body)
          some_body i)
    | inr no_body ↦
        let here : at_body ≡ 1 + length (covered f) =
          omega (arith, covered_size, hb, ltb→le 0 d.cur_body_len no_body) in
        let (end, reaches, padding) = from_crc d h hb (
          subst (λ k. IsIn stream (length pre) count d state_crc k) here
            (subst
              (λ b. IsIn stream (length pre) count d (if b then state_body else state_crc) at_body)
              no_body i)) in
        (end, Reaches-more crc32_ieee d end 1 2 reaches (omega arith), padding)
  ]

  abbrev pub at_opcode : ℕ
  at_opcode = 2 + length_field f

  from_seq :
      (d : Decoder)
      → HasFlags (length pre) d f
      → d.cur_body_len ≡ length f.body
      → IsIn stream (length pre) count d state_seq (at_opcode + opcode_len f.flags)
      → Ends d 3
  unfolding step_seq
  from_seq d h hb i =
      let (d', round, i', h', hb') =
        pass_over-IsIn stream (length pre) count (at_opcode + opcode_len f.flags) (seq_len f.flags)
          (after_seq d) (length f.body) i h hb
          (omega (arith, length-sealed crc f size, length-stream, covered_size)) in
      then-Ends d d' state_seq 2 i.state (ap (λ n. pass_over d n (after_seq d)) h.seq_bytes ∙ round)
        (behind_seq d' h' hb' (
          subst
            (λ n.
              IsIn stream (length pre) count d' (if ltb 0 n then state_body else state_crc) at_body)
            (hb ∙ sym hb') i'))

  pub from_opcode :
      (d : Decoder)
      → HasFlags (length pre) d f
      → d.cur_body_len ≡ length f.body
      → IsIn stream (length pre) count d state_opcode at_opcode
      → Ends d 4
  unfolding step_opcode
  from_opcode d h hb i =
      let (d', round, i', h', hb') =
        pass_over-IsIn stream (length pre) count at_opcode (opcode_len f.flags) state_seq
          (length f.body) i h hb
          (omega (arith, length-sealed crc f size, length-stream, covered_size)) in
      then-Ends d d' state_opcode 3 i.state
        (ap (λ n. pass_over d n state_seq) h.opcode_bytes ∙ round) (from_seq d' h' hb' i')
