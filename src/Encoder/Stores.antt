-- ===== src/Encoder/Stores.antt =====
-- The stores of conn/encoder.go, one after the other, and the frame that they leave.
use proto_q.Prelude.{
  ℕ, ◌+◌, ◌-◌, ◌%◌, ◌^◌, ◌≤◌, ◌≡◌, refl, ap, sym, subst, ◌∙◌, arith, none, some, if◌then◌else◌,
  List, [], ◌∷◌, ◌++◌, append_assoc, append-nil, length, replicate, length-append, length-replicate,
  ◌⊎◌, inl, inr, Bool-cases, Option, Option-cases,
}
use proto_q.Errors.{Error, Result, ok, err}
use proto_q.Flags.{Flags, has_body_len, opcode_len, seq_len, crc_len, validate}
use proto_q.Packet.{PacketData, has_body, pad_len, be16, write_at, put_uint_n, frame_size}
use proto_q.Packet.Integers.{field_bytes, IsFieldLen, length-field_bytes, put_uint_n-field_bytes}
use proto_q.Crc.{compute_crc}
use proto_q.Encoder.{magic_byte, payload_len, length_field, encode_valid, put_crc, encode}
use proto_q.Encoder.Buffer.{replicate_eq, write_at-fill, copy_at-fill, slice_middle}
use proto_q.Encoder.Frame.{
  opcode_len-IsFieldLen, seq_len-IsFieldLen, length_bytes, covered, crc_bytes, frame_bytes,
  length-length_bytes, length-covered, length-compute_crc,
}

nothing_added :
    (xs : List ℕ) (n : ℕ) → ok (xs ++ replicate n 0) ≡ ok ((xs ++ []) ++ replicate (n - 0) 0)
nothing_added xs n =
    rw (append-nil xs)
      (ap (λ (t : List ℕ). ok (xs ++ t)) (replicate_eq 0 {m = n} {n = n - 0} (omega arith)))

crc_len-cases : (f : Flags) → (crc_len f ≡ 0) ⊎ (crc_len f ≡ 2)
unfolding crc_len
crc_len-cases f = ground arith

module _ (crc32_ieee : List ℕ → ℕ) (f : PacketData) where
  abbrev total_size : ℕ
  total_size =
      1
      + 1
      + length_field f
      + opcode_len f.flags
      + seq_len f.flags
      + length f.body
      + crc_len f.flags

  -- The buffer after each store, and what is still zero behind it.
  abbrev opcode_field : List ℕ
  opcode_field = field_bytes f.opcode (opcode_len f.flags)

  abbrev seq_field : List ℕ
  seq_field = field_bytes f.seq (seq_len f.flags)

  length-opcode_field : length opcode_field ≡ opcode_len f.flags
  length-opcode_field =
      length-field_bytes f.opcode (opcode_len f.flags) (opcode_len-IsFieldLen f.flags)

  length-seq_field : length seq_field ≡ seq_len f.flags
  length-seq_field = length-field_bytes f.seq (seq_len f.flags) (seq_len-IsFieldLen f.flags)

  put_length :
      (n : ℕ)
      → length_field f ≤ n
      → (if has_body_len f.flags
          then write_at (magic_byte ∷ f.flags ∷ replicate n 0) 2 (be16 (payload_len f % 2 ^ 16))
          else ok (magic_byte ∷ f.flags ∷ replicate n 0))
        ≡ ok ((magic_byte ∷ f.flags ∷ length_bytes f) ++ replicate (n - length (length_bytes f)) 0)
  unfolding length_bytes
  put_length n room = elim (Bool-cases (has_body_len f.flags)) [
    | inl e ↦ rw e (
        write_at-fill (magic_byte ∷ f.flags ∷ []) n 2 (be16 (payload_len f % 2 ^ 16)) refl
          (ground arith))
    | inr e ↦
        rw e (ap ok (ap (λ (t : List ℕ). magic_byte ∷ f.flags ∷ t) (replicate_eq 0 (omega arith))))
  ]

  put_field :
      (front : List ℕ) (n offset v k : ℕ)
      → offset ≡ length front
      → IsFieldLen k
      → k ≤ n
      → put_uint_n (front ++ replicate n 0) offset v k
        ≡ ok ((front ++ field_bytes v k) ++ replicate (n - length (field_bytes v k)) 0)
  put_field front n offset v k here len room =
      put_uint_n-field_bytes (front ++ replicate n 0) offset v k
      ∙ write_at-fill front n offset (field_bytes v k) here
          (omega (arith, length-field_bytes v k len))

  put_crc-fill :
      (n offset : ℕ)
      → offset ≡ 1 + length (covered f)
      → crc_len f.flags ≤ n
      → put_crc crc32_ieee ((magic_byte ∷ covered f) ++ replicate n 0) offset (crc_len f.flags)
        ≡ ok (
            ((magic_byte ∷ covered f) ++ crc_bytes crc32_ieee f)
            ++ replicate (n - length (crc_bytes crc32_ieee f)) 0)
  unfolding put_crc crc_bytes
  put_crc-fill n offset here room = elim (crc_len-cases f.flags) [
    | inl e ↦ rw e (unfold compute_crc in nothing_added (magic_byte ∷ covered f) n)
    | inr e ↦
        rw (e, slice_middle magic_byte (covered f) (replicate n 0) offset here)
          (copy_at-fill (magic_byte ∷ covered f) n offset (compute_crc crc32_ieee (covered f) 2)
            (omega (arith, here))
            (omega (arith, rw e at (length-compute_crc crc32_ieee f.flags (covered f)))))
  ]

  -- The fronts of the buffer after the stores of Length, Opcode, Seq and Body.
  abbrev front2 : List ℕ
  front2 = magic_byte ∷ f.flags ∷ length_bytes f

  abbrev front3 : List ℕ
  front3 = front2 ++ opcode_field

  abbrev front4 : List ℕ
  front4 = front3 ++ seq_field

  front5 : front4 ++ f.body ≡ magic_byte ∷ covered f
  unfolding covered
  front5 = simp append_assoc

  length-front2 : length front2 ≡ 2 + length_field f
  length-front2 = omega (arith, length-length_bytes f)

  length-front3 : length front3 ≡ 2 + length_field f + opcode_len f.flags
  length-front3 =
      omega (arith, length-front2, length-opcode_field, length-append front2 opcode_field)

  length-front4 : length front4 ≡ 2 + length_field f + opcode_len f.flags + seq_len f.flags
  length-front4 = omega (arith, length-front3, length-seq_field, length-append front3 seq_field)

  abbrev left2 : ℕ
  left2 = total_size + pad_len total_size - 1 - 1 - length (length_bytes f)

  abbrev left3 : ℕ
  left3 = left2 - length opcode_field

  abbrev left4 : ℕ
  left4 = left3 - length seq_field

  left2_lem : left2 + 2 + length_field f ≡ total_size + pad_len total_size
  left2_lem = omega (arith, length-length_bytes f)

  left3_lem : left3 + 2 + length_field f + opcode_len f.flags ≡ total_size + pad_len total_size
  left3_lem = omega (arith, left2_lem, length-opcode_field)

  left4_lem :
      left4 + 2 + length_field f + opcode_len f.flags + seq_len f.flags
      ≡ total_size + pad_len total_size
  left4_lem = omega (arith, left3_lem, length-seq_field)

  length-unpadded : length (magic_byte ∷ (covered f ++ crc_bytes crc32_ieee f)) ≡ total_size
  unfolding crc_bytes
  length-unpadded = omega (
    arith,
    length-covered f,
    length-append (covered f) (crc_bytes crc32_ieee f),
    length-compute_crc crc32_ieee f.flags (covered f),
  )

  put_end :
      put_crc crc32_ieee
        ((magic_byte ∷ covered f) ++ replicate (left4 - length f.body) 0)
        (2 + length_field f + opcode_len f.flags + seq_len f.flags + length f.body)
        (crc_len f.flags)
      ≡ ok (frame_bytes crc32_ieee f)
  unfolding frame_bytes
  put_end =
      put_crc-fill (left4 - length f.body) _ (omega (arith, length-covered f))
        (omega (arith, left4_lem))
      ∙ ap (λ (t : List ℕ). ok ((magic_byte ∷ (covered f ++ crc_bytes crc32_ieee f)) ++ t))
          (replicate_eq 0 padding)
    where
      padding :
          left4 - length f.body - length (crc_bytes crc32_ieee f)
          ≡ pad_len (length (magic_byte ∷ (covered f ++ crc_bytes crc32_ieee f)))
      padding = rw length-unpadded (
          unfold crc_bytes in
          omega (arith, left4_lem, length-compute_crc crc32_ieee f.flags (covered f)))

  encode_valid-frame_bytes : encode_valid crc32_ieee f ≡ ok (frame_bytes crc32_ieee f)
  unfolding encode_valid
  encode_valid-frame_bytes =
      let n = total_size + pad_len total_size in
      rw
        (
          write_at-fill [] n 0 (magic_byte ∷ []) refl (omega arith),
          write_at-fill (magic_byte ∷ []) (n - 1) 1 (f.flags ∷ []) refl (omega arith),
          put_length (n - 1 - 1) (omega arith),
          put_field front2 left2 (2 + length_field f) f.opcode (opcode_len f.flags)
              (sym length-front2) (opcode_len-IsFieldLen f.flags) (omega (arith, left2_lem)),
          put_field front3 left3 (2 + length_field f + opcode_len f.flags) f.seq (seq_len f.flags)
              (sym length-front3) (seq_len-IsFieldLen f.flags) (omega (arith, left3_lem)),
          copy_at-fill front4 left4 (2 + length_field f + opcode_len f.flags + seq_len f.flags)
              f.body (sym length-front4) (omega (arith, left4_lem)),
        )
        (subst
          (λ (t : List ℕ).
            put_crc crc32_ieee (t ++ replicate (left4 - length f.body) 0)
              (2 + length_field f + opcode_len f.flags + seq_len f.flags + length f.body)
              (crc_len f.flags)
            ≡ ok (frame_bytes crc32_ieee f))
          (sym front5) put_end)

  pub length-frame_bytes : length (frame_bytes crc32_ieee f) ≡ total_size + pad_len total_size
  unfolding frame_bytes
  length-frame_bytes =
      let unpadded = magic_byte ∷ (covered f ++ crc_bytes crc32_ieee f) in
      let whole = length-append unpadded (replicate (pad_len (length unpadded)) 0) in
      let zeros = length-replicate {A = ℕ} (pad_len (length unpadded)) 0 in
      omega (arith, length-unpadded, whole, zeros)

-- What `Encode` is to return, given the outcome of `Validate` and the frame.
abbrev pub encoded : Option Error → List ℕ → Result (List ℕ)
encoded (some e) bytes = err e
encoded none bytes = ok bytes

-- `Encode` fails exactly where `Validate` does, with its error. For all other frames it stores,
-- without a panic, Magic, Flags, Length (variant A only), Opcode, Seq, Body, checksum and zeros one
-- after the other: `FrameSize` bytes, a multiple of four.
pub encode-frame_bytes :
    (crc32_ieee : List ℕ → ℕ) (f : PacketData)
    → (encode crc32_ieee f
        ≡ encoded (validate f.flags (has_body f.body)) (frame_bytes crc32_ieee f))
      × (length (frame_bytes crc32_ieee f) ≡ frame_size f)
      × (frame_size f % 4 ≡ 0)
unfolding encode frame_size
encode-frame_bytes crc32_ieee f = (
  elim (Option-cases (validate f.flags (has_body f.body))) [
    | inl e ↦ rw (e, encode, encoded) (encode_valid-frame_bytes crc32_ieee f)
    | inr (x, e) ↦ rw (e, encode, encoded) refl
  ],
  length-frame_bytes crc32_ieee f,
  omega arith,
)
