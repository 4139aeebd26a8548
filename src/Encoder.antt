-- ===== src/Encoder.antt =====
-- conn/encoder.go: a frame written into a zeroed buffer at a running offset.
pub mod Buffer
pub mod Frame
pub mod Stores
pub mod Encodable
pub mod Layouts
use proto_q.Prelude.{
  ℕ, ◌+◌, ◌-◌, ◌%◌, ◌^◌, Bool, Option, none, some, List, [], ◌∷◌, ◌++◌, length, replicate, ltb,
  if◌then◌else◌,
}
use proto_q.Errors.{Result, ok, err, panic, ◌>>=◌}
use proto_q.Flags.{has_body_len, opcode_len, seq_len, crc_len, validate}
use proto_q.Packet.{PacketData, has_body, pad_len, be16, write_at, copy_at, slice, put_uint_n}
use proto_q.Crc.{compute_crc}

abbrev pub magic_byte : ℕ
magic_byte = 0x51

-- `MaxBodyLen` of constants.go.
abbrev pub max_body_len : ℕ
max_body_len = 65535 - 8

-- `int` stands for the sizes, which stay far below 2 ^ 63; the Length field is cut to a uint16.
abbrev pub payload_len : PacketData → ℕ
payload_len f = opcode_len f.flags + seq_len f.flags + length f.body + crc_len f.flags

abbrev pub length_field : PacketData → ℕ
length_field f = if has_body_len f.flags then 2 else 0

module _ (crc32_ieee : List ℕ → ℕ) where
  -- The checksum covers the bytes from Flags to the end of the body.
  unfoldable pub put_crc : List ℕ → ℕ → ℕ → Result (List ℕ)
  put_crc buf offset crc_bytes =
      if ltb 0 crc_bytes
      then (do
        crc_data ← slice buf 1 offset
        copy_at buf offset (compute_crc crc32_ieee crc_data crc_bytes))
      else ok buf

  -- What `Encode` does once the flags are valid.
  unfoldable pub encode_valid : PacketData → Result (List ℕ)
  encode_valid f = do
    let opcode_bytes = opcode_len f.flags
    let seq_bytes = seq_len f.flags
    let crc_bytes = crc_len f.flags
    let header_before_crc = 1 + 1 + length_field f + opcode_bytes + seq_bytes + length f.body
    let total_size = header_before_crc + crc_bytes
    let buf = replicate (total_size + pad_len total_size) 0
    buf1 ← write_at buf 0 (magic_byte ∷ [])
    buf2 ← write_at buf1 1 (f.flags ∷ [])
    buf3 ← if has_body_len f.flags then write_at buf2 2 (be16 (payload_len f % 2 ^ 16)) else ok buf2
    let opcode_at = 2 + length_field f
    buf4 ← put_uint_n buf3 opcode_at f.opcode opcode_bytes
    let seq_at = opcode_at + opcode_bytes
    buf5 ← put_uint_n buf4 seq_at f.seq seq_bytes
    let body_at = seq_at + seq_bytes
    buf6 ← copy_at buf5 body_at f.body
    let crc_at = body_at + length f.body
    put_crc buf6 crc_at crc_bytes

  unfoldable pub encode : PacketData → Result (List ℕ)
  unfolding encode_valid put_crc
  encode f = elim (validate f.flags (has_body f.body)) [ some e ↦ err e | none ↦ encode_valid f ]

  -- `MustEncode` panics on every error.
  unfoldable pub must_encode : PacketData → Result (List ℕ)
  unfolding encode
  must_encode f = elim (encode f) [ ok bytes ↦ ok bytes | err e ↦ panic | panic ↦ panic ]
