-- ===== src/Decoder/Build.antt =====
-- `buildFrame` of conn/decoder.go on a complete frame that `Encode` wrote.
use proto_q.Prelude.{
  ℕ, ◌+◌, ◌^◌, ◌≤◌, ◌<◌, ◌≡◌, refl, ap, sym, ◌∙◌, arith, Bool, true, false, ltb, ltb→le,
  if◌then◌else◌, List, [], ◌∷◌, ◌++◌, ◌==◌, length, length-append, Bool-cases, inl, inr,
}
use proto_q.Errors.{Result, ok, err, crc_mismatch}
use proto_q.Flags.{opcode_len, seq_len, crc_len}
use proto_q.Packet.{PacketData, slice, read_uint_n}
use proto_q.Packet.Integers.{read_uint_n-field_bytes}
use proto_q.Crc.{compute_crc, verify_crc, same_bytes}
use proto_q.Encoder.{magic_byte, length_field}
use proto_q.Encoder.Frame.{covered, length-covered, opcode_len-IsFieldLen, seq_len-IsFieldLen}
use proto_q.Encoder.Encodable.{IsEncodable}
use proto_q.Stream.{Decoder}
use proto_q.Decoder.{build_frame, suffix, checked}
use proto_q.Decoder.Content.{front_slice, front_suffix}
use proto_q.Decoder.Position.{HasFlags}
use proto_q.Decoder.Fields.{
  opcode_field, seq_field, head, content, at_opcode, at_seq, at_body, at_crc, at_flags, length-head,
  length-opcode_field, length-seq_field,
}

nil_of_length : (xs : List ℕ) → length xs ≡ 0 → xs ≡ []
nil_of_length [] e = refl
nil_of_length (x ∷ xs) e = absurd (omega arith)

same_bytes_refl : (xs : List ℕ) → same_bytes xs xs ≡ true
unfolding same_bytes
same_bytes_refl [] = refl
same_bytes_refl (x ∷ xs) = ground (arith, same_bytes_refl xs)

-- `VerifyCRC` accepts what `ComputeCRC` computes, at every length.
pub verify_crc-compute_crc :
    (crc32_ieee : List ℕ → ℕ) (bytes : List ℕ) (n : ℕ)
    → verify_crc crc32_ieee bytes (compute_crc crc32_ieee bytes n) n ≡ true
unfolding verify_crc
verify_crc-compute_crc crc32_ieee bytes n =
    let computed = compute_crc crc32_ieee bytes n in
    let size : (length computed == length computed) ≡ true = ground arith in
    rw (size, same_bytes_refl computed) refl

-- Whether `buildFrame` accepts the checksum, if there is one.
abbrev pub accepts : (List ℕ → ℕ) → List ℕ → PacketData → Bool
accepts crc32_ieee crc f =
    if ltb 0 (crc_len f.flags)
    then verify_crc crc32_ieee (covered f) crc (crc_len f.flags)
    else true

-- What `buildFrame` makes of a frame, given whether it accepts the checksum.
abbrev pub verdict : PacketData → Bool → Result PacketData
verdict f verified = if verified then ok f else err crc_mismatch

-- A decoder whose buffer holds the frame up to its padding at least.
module _ (crc32_ieee : List ℕ → ℕ) (crc pre rest p : List ℕ) (f : PacketData) (d : Decoder)
    (crc_size : length crc ≡ crc_len f.flags) (h : HasFlags (length pre) d f)
    (body_len : d.cur_body_len ≡ length f.body) (same : d.buf ++ p ≡ content crc pre rest f)
    (enough : length pre + 1 + length (covered f) + crc_len f.flags ≤ length d.buf) where
  abbrev opcode_at : ℕ
  opcode_at = d.cur_frame_start + 1 + 1 + (if d.cur_has_body_len then 2 else 0)

  abbrev seq_at : ℕ
  seq_at = opcode_at + d.cur_opcode_len

  abbrev body_at : ℕ
  body_at = seq_at + d.cur_seq_len

  abbrev crc_at : ℕ
  crc_at = body_at + d.cur_body_len

  opcode_at_lem : opcode_at ≡ length pre + 2 + length_field f
  opcode_at_lem =
      let lf : (if d.cur_has_body_len then 2 else 0) ≡ length_field f =
        ap (λ (b : Bool). if b then 2 else 0) h.with_length in
      omega (arith, h.from_start, lf)

  seq_at_lem : seq_at ≡ length pre + 2 + length_field f + opcode_len f.flags
  seq_at_lem = omega (arith, opcode_at_lem, h.opcode_bytes)

  body_at_lem : body_at ≡ length pre + 2 + length_field f + opcode_len f.flags + seq_len f.flags
  body_at_lem = omega (arith, seq_at_lem, h.seq_bytes)

  crc_at_lem : crc_at ≡ length pre + 1 + length (covered f)
  crc_at_lem = omega (arith, body_at_lem, body_len, length-covered f)

  read_opcode : (zs : List ℕ) × (suffix d.buf opcode_at ≡ ok (opcode_field crc pre rest f ++ zs))
  read_opcode =
      front_suffix (head crc pre rest f) (opcode_field crc pre rest f) _ d.buf p opcode_at
        (same ∙ at_opcode crc pre rest f) (omega (arith, opcode_at_lem, length-head crc pre rest f))
        (omega (arith, opcode_at_lem, length-covered f, length-opcode_field crc pre rest f, enough))

  read_seq : (zs : List ℕ) × (suffix d.buf seq_at ≡ ok (seq_field crc pre rest f ++ zs))
  read_seq =
      front_suffix (head crc pre rest f ++ opcode_field crc pre rest f) (seq_field crc pre rest f) _
        d.buf p seq_at (same ∙ at_seq crc pre rest f)
        (omega (
          arith,
          seq_at_lem,
          length-head crc pre rest f,
          length-opcode_field crc pre rest f,
          length-append (head crc pre rest f) (opcode_field crc pre rest f),
        ))
        (omega (arith, seq_at_lem, length-covered f, length-seq_field crc pre rest f, enough))

  opcode_lem :
      (zs : List ℕ)
      → f.opcode < 256 ^ opcode_len f.flags
      → read_uint_n (opcode_field crc pre rest f ++ zs) d.cur_opcode_len ≡ ok f.opcode
  opcode_lem zs fits = rw h.opcode_bytes (
      read_uint_n-field_bytes f.opcode (opcode_len f.flags) zs (opcode_len-IsFieldLen f.flags) fits)

  seq_lem :
      (zs : List ℕ)
      → f.seq < 256 ^ seq_len f.flags
      → read_uint_n (seq_field crc pre rest f ++ zs) d.cur_seq_len ≡ ok f.seq
  seq_lem zs fits =
      rw h.seq_bytes
        (read_uint_n-field_bytes f.seq (seq_len f.flags) zs (seq_len-IsFieldLen f.flags) fits)

  body_slice : slice d.buf body_at (body_at + d.cur_body_len) ≡ ok f.body
  body_slice =
      front_slice (head crc pre rest f ++ (opcode_field crc pre rest f ++ seq_field crc pre rest f))
        f.body _ d.buf p body_at _ (same ∙ at_body crc pre rest f)
        (omega (
          arith,
          body_at_lem,
          length-head crc pre rest f,
          length-opcode_field crc pre rest f,
          length-seq_field crc pre rest f,
          length-append (head crc pre rest f)
              (opcode_field crc pre rest f ++ seq_field crc pre rest f),
          length-append (opcode_field crc pre rest f) (seq_field crc pre rest f),
        ))
        (omega (arith, body_len)) (omega (arith, crc_at_lem, enough))

  body_lem :
      (if ltb 0 d.cur_body_len then slice d.buf body_at (body_at + d.cur_body_len) else ok [])
      ≡ ok f.body
  body_lem = elim (Bool-cases (ltb 0 d.cur_body_len)) [
    | inl e ↦ rw e body_slice
    | inr e ↦ rw e (ap ok (sym (nil_of_length f.body (omega (arith, ltb→le 0 _ e, body_len)))))
  ]

  expected_lem : slice d.buf crc_at (crc_at + d.cur_crc_len) ≡ ok crc
  expected_lem =
      front_slice (pre ++ (magic_byte ∷ covered f)) crc _ d.buf p crc_at _
        (same ∙ at_crc crc pre rest f)
        (omega (arith, crc_at_lem, length-append pre (magic_byte ∷ covered f)))
        (omega (arith, h.crc_bytes, crc_size)) (omega (arith, crc_at_lem, h.crc_bytes, enough))

  crc_data_lem : slice d.buf (d.cur_frame_start + 1) crc_at ≡ ok (covered f)
  crc_data_lem =
      front_slice (pre ++ (magic_byte ∷ [])) (covered f) _ d.buf p (d.cur_frame_start + 1) crc_at
        (same ∙ at_flags crc pre rest f)
        (omega (arith, h.from_start, length-append pre (magic_byte ∷ [])))
        (omega (arith, crc_at_lem, h.from_start)) (omega (arith, crc_at_lem, enough))

  checked-encoded :
      (verified : Bool)
      → IsEncodable f
      → checked crc32_ieee verified (record f { flags = d.cur_flags }) ≡ verdict f verified
  checked-encoded false e = refl
  checked-encoded true e = rw h.flags (rw (e.valid, checked) refl)

  -- `buildFrame` returns the frame, unless it has a checksum that `VerifyCRC` does not accept.
  pub build_frame-sealed :
      (verified : Bool)
      → IsEncodable f
      → accepts crc32_ieee crc f ≡ verified
      → build_frame crc32_ieee d ≡ verdict f verified
  unfolding build_frame
  build_frame-sealed verified e outcome =
      let (zs, opcode_rest) = read_opcode in
      let (ys, seq_rest) = read_seq in
      let check = verify_crc crc32_ieee (covered f) crc (crc_len f.flags) in
      let by_crc : (b : Bool)
          → ltb 0 (crc_len f.flags) ≡ b
          → accepts crc32_ieee crc f ≡ (if b then check else true) =
        λ b. ap (λ (t : Bool). if t then check else true) in
      let same_len : ltb 0 d.cur_crc_len ≡ ltb 0 (crc_len f.flags) = ap (ltb 0) h.crc_bytes in
      let checks : verify_crc crc32_ieee (covered f) crc d.cur_crc_len
          ≡ verify_crc crc32_ieee (covered f) crc (crc_len f.flags) =
        ap (verify_crc crc32_ieee (covered f) crc) h.crc_bytes in
      rw (opcode_rest, opcode_lem zs e.opcode_fits, seq_rest, seq_lem ys e.seq_fits, body_lem)
        (elim (Bool-cases (ltb 0 (crc_len f.flags))) [
          | inl some_crc ↦
              let accepted : verify_crc crc32_ieee (covered f) crc (crc_len f.flags) ≡ verified =
                sym (by_crc true some_crc) ∙ outcome in
              rw (same_len, some_crc, expected_lem, crc_data_lem, checks, accepted)
                (checked-encoded verified e)
          | inr no_crc ↦
              let accepted : true ≡ verified = sym (by_crc false no_crc) ∙ outcome in
              rw (same_len, no_crc)
                (ap (λ (b : Bool). checked crc32_ieee b (record f { flags = d.cur_flags })) accepted
                  ∙ checked-encoded verified e)
        ])
