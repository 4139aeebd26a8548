-- ===== src/Packet.antt =====
-- packet.go: frames, their constructors and sizes, and the big-endian integer fields.
-- A `uint32` is a number below 2 ^ 32; a byte slice is a list of numbers below 256.
pub mod Laws
pub mod Integers
use proto_q.Prelude.{
  ℕ, ◌+◌, ◌-◌, ◌*◌, ◌/◌, ◌%◌, ◌^◌, ◌<◌, ◌≤◌, Bool, true, false, List, [], ◌∷◌, ◌++◌, length, drop,
  take, ◌==◌, ltb, leb, if◌then◌else◌, ◌&&◌,
}
use proto_q.Errors.{Result, ok, err, panic, ◌>>=◌}
use proto_q.Flags.{
  Flags, IsByte, is_request, is_response, requires_ack, has_body_len, opcode_len, seq_len, crc_len,
  set_dir, set_requires_ack, set_body_len, set_opcode_len, set_seq_len, set_crc_len,
}

pub record PacketData : Type 0 where
  pub flags : Flags
  pub opcode : ℕ
  pub seq : ℕ
  pub body : List ℕ

-- `len(body) > 0`
abbrev pub has_body : List ℕ → Bool
has_body body = ltb 0 (length body)

unfoldable pub field_len : ℕ → ℕ
field_len v = if v == 0 then 0 else if leb v 0xffff then 2 else 4

unfoldable pub new_request_packet : ℕ → ℕ → List ℕ → Bool → Bool → PacketData
new_request_packet opcode seq body ack crc =
    let op_len = field_len opcode in
    let seq_len0 = field_len seq in
    let f0 = set_dir 0 false in
    let f1 = set_opcode_len f0 op_len in
    let f2 = set_body_len f1 (has_body body) in
    let seq_len1 = if ack then (if seq_len0 == 0 then 2 else seq_len0) else seq_len0 in
    let f3 = if ack then set_requires_ack f2 true else f2 in
    let f4 = set_seq_len f3 seq_len1 in
    let f5 = if crc then set_crc_len f4 2 else f4 in
    record { flags = f5; opcode = opcode; seq = seq; body = body }

unfoldable pub new_response_packet : ℕ → ℕ → List ℕ → Flags → PacketData
new_response_packet opcode seq body request_flags =
    let op_len = field_len opcode in
    let seq_bytes = seq_len request_flags in
    let f0 = set_dir 0 true in
    let f1 = set_requires_ack f0 false in
    let f2 = set_opcode_len f1 op_len in
    let f3 = set_seq_len f2 seq_bytes in
    let f4 = set_body_len f3 (has_body body) in
    let f5 = if ltb 0 (crc_len request_flags) then set_crc_len f4 (crc_len request_flags) else f4 in
    record { flags = f5; opcode = opcode; seq = seq; body = body }

unfoldable pub new_notification_packet : ℕ → List ℕ → Bool → PacketData
new_notification_packet opcode body crc =
    let op_len = field_len opcode in
    let f0 = set_dir 0 false in
    let f1 = set_requires_ack f0 false in
    let f2 = set_opcode_len f1 op_len in
    let f3 = set_seq_len f2 0 in
    let f4 = set_body_len f3 (has_body body) in
    let f5 = if crc then set_crc_len f4 2 else f4 in
    record { flags = f5; opcode = opcode; seq = 0; body = body }

-- The methods of *PacketData that ask its flags.
unfoldable pub is_request_packet : PacketData → Bool
is_request_packet f = is_request f.flags

unfoldable pub is_response_packet : PacketData → Bool
is_response_packet f = is_response f.flags

unfoldable pub packet_requires_ack : PacketData → Bool
packet_requires_ack f = requires_ack f.flags

-- `(4 - size%4) % 4`
abbrev pub pad_len : ℕ → ℕ
pad_len size = (4 - size % 4) % 4

unfoldable pub frame_size : PacketData → ℕ
frame_size f =
    let size =
      1
      + 1
      + (if has_body_len f.flags then 2 else 0)
      + opcode_len f.flags
      + seq_len f.flags
      + length f.body
      + crc_len f.flags in
    size + pad_len size

unfoldable pub header_size : PacketData → ℕ
header_size f =
    1 + 1 + (if has_body_len f.flags then 2 else 0) + opcode_len f.flags + seq_len f.flags

-- The bytes that `binary.BigEndian` writes for a uint16 and a uint32.
abbrev pub be16 : ℕ → List ℕ
be16 v = (v / 256 % 256) ∷ (v % 256) ∷ []

abbrev pub be32 : ℕ → List ℕ
be32 v = (v / 2 ^ 24 % 256) ∷ (v / 2 ^ 16 % 256) ∷ (v / 2 ^ 8 % 256) ∷ (v % 256) ∷ []

-- A store of bytes at an offset. `buf[offset:]` panics beyond the end, and so does a store of an
-- integer that does not fit.
unfoldable pub write_at : List ℕ → ℕ → List ℕ → Result (List ℕ)
write_at buf offset bytes =
    if leb (offset + length bytes) (length buf)
    then ok (take offset buf ++ (bytes ++ drop (offset + length bytes) buf))
    else panic

-- `copy(buf[offset:], bytes)`: what does not fit is left out.
unfoldable pub copy_at : List ℕ → ℕ → List ℕ → Result (List ℕ)
copy_at buf offset bytes =
    if leb offset (length buf)
    then ok
        (take offset buf ++ (take (length buf - offset) bytes ++ drop (offset + length bytes) buf))
    else panic

-- `buf[from:to]`. Where `to` lies between the length and the capacity Go would reslice; no such
-- slice is taken here, and the model counts it as a panic.
unfoldable pub slice : List ℕ → ℕ → ℕ → Result (List ℕ)
slice buf from to =
    if leb from to && leb to (length buf) then ok (take (to - from) (drop from buf)) else panic

-- `PutUintN(buf[offset:], v, n)`: any other length writes nothing.
unfoldable pub put_uint_n : List ℕ → ℕ → ℕ → ℕ → Result (List ℕ)
unfolding write_at
put_uint_n buf offset v n =
    if n == 2
    then write_at buf offset (be16 (v % 2 ^ 16))
    else if n == 4
    then write_at buf offset (be32 v)
    else write_at buf offset []

abbrev pub read_be16 : List ℕ → Result ℕ
read_be16 (a ∷ b ∷ _) = ok (a * 256 + b)
read_be16 _ = panic

abbrev pub read_be32 : List ℕ → Result ℕ
read_be32 (a ∷ b ∷ c ∷ d ∷ _) = ok (a * 2 ^ 24 + b * 2 ^ 16 + c * 2 ^ 8 + d)
read_be32 _ = panic

-- `ReadUintN(buf, n)`: any other length reads 0.
unfoldable pub read_uint_n : List ℕ → ℕ → Result ℕ
read_uint_n buf n = if n == 2 then read_be16 buf else if n == 4 then read_be32 buf else ok 0
