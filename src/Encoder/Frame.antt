-- ===== src/Encoder/Frame.antt =====
-- The frame that conn/encoder.go promises, as a concatenation, and that `Encode` writes it.
use proto_q.Prelude.{
  ℕ, ◌+◌, ◌%◌, ◌^◌, ◌≡◌, arith, if◌then◌else◌, List, [], ◌∷◌, ◌++◌, length, replicate,
  length-append, length-replicate,
}
use proto_q.Flags.{Flags, has_body_len, opcode_len, seq_len, crc_len}
use proto_q.Packet.{PacketData, pad_len, be16}
use proto_q.Packet.Integers.{field_bytes, IsFieldLen, length-field_bytes}
use proto_q.Crc.{compute_crc}
use proto_q.Encoder.{magic_byte, payload_len, length_field}

pub opcode_len-IsFieldLen : (f : Flags) → IsFieldLen (opcode_len f)
unfolding opcode_len
opcode_len-IsFieldLen f = ground arith

pub seq_len-IsFieldLen : (f : Flags) → IsFieldLen (seq_len f)
unfolding seq_len
seq_len-IsFieldLen f = ground arith

-- The Length field, which only variant A has.
unfoldable pub length_bytes : PacketData → List ℕ
length_bytes f = if has_body_len f.flags then be16 (payload_len f % 2 ^ 16) else []

-- What the checksum covers.
unfoldable pub covered : PacketData → List ℕ
covered f =
    f.flags
    ∷ (length_bytes f
        ++ (field_bytes f.opcode (opcode_len f.flags)
            ++ (field_bytes f.seq (seq_len f.flags) ++ f.body)))

-- Magic, the covered bytes, a checksum, and zeros up to a multiple of four.
abbrev pub sealed : List ℕ → PacketData → List ℕ
sealed crc f =
    let unpadded = magic_byte ∷ (covered f ++ crc) in
    unpadded ++ replicate (pad_len (length unpadded)) 0

module _ (crc32_ieee : List ℕ → ℕ) where
  unfoldable pub crc_bytes : PacketData → List ℕ
  crc_bytes f = compute_crc crc32_ieee (covered f) (crc_len f.flags)

  -- The frame with its own checksum.
  unfoldable pub frame_bytes : PacketData → List ℕ
  frame_bytes f = sealed (crc_bytes f) f

pub length-length_bytes : (f : PacketData) → length (length_bytes f) ≡ length_field f
unfolding length_bytes
length-length_bytes f = ground arith

pub length-covered :
    (f : PacketData)
    → length (covered f) ≡ 1 + length_field f + opcode_len f.flags + seq_len f.flags + length f.body
unfolding covered
length-covered f = omega (
  arith,
  length-length_bytes f,
  length-field_bytes f.opcode (opcode_len f.flags) (opcode_len-IsFieldLen f.flags),
  length-field_bytes f.seq (seq_len f.flags) (seq_len-IsFieldLen f.flags),
  length-append (length_bytes f) (
      field_bytes f.opcode (opcode_len f.flags) ++ (field_bytes f.seq (seq_len f.flags) ++ f.body)),
  length-append (field_bytes f.opcode (opcode_len f.flags))
      (field_bytes f.seq (seq_len f.flags) ++ f.body),
  length-append (field_bytes f.seq (seq_len f.flags)) f.body,
)

pub length-compute_crc :
    (crc32_ieee : List ℕ → ℕ) (f : Flags) (xs : List ℕ)
    → length (compute_crc crc32_ieee xs (crc_len f)) ≡ crc_len f
unfolding compute_crc crc_len
length-compute_crc crc32_ieee f xs = ground arith

pub length-sealed :
    (crc : List ℕ) (f : PacketData)
    → length crc ≡ crc_len f.flags
    → length (sealed crc f)
      ≡ 1
        + length (covered f)
        + crc_len f.flags
        + pad_len (1 + length (covered f) + crc_len f.flags)
length-sealed crc f size =
    let unpadded = magic_byte ∷ (covered f ++ crc) in
    omega (
      arith,
      size,
      length-append (covered f) crc,
      length-append unpadded (replicate (pad_len (length unpadded)) 0),
      length-replicate {A = ℕ} (pad_len (length unpadded)) 0,
    )
