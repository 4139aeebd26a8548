-- ===== src/Flags.antt =====
-- flags.go and the flag constants of constants.go: the one-byte flags of a frame.
-- A `Flags` value is a number below 256; `f &^ m` is `bit_and f (255 - m)`.
mod Masks
pub mod Fields
pub mod Setters
pub mod Chain
pub mod Validity
use proto_q.Prelude.{ℕ, ◌-◌, ◌<◌, Bool, true, false, ◌&&◌, not, Option, none, some}
use proto_q.Prelude.{◌==◌, ltb, if◌then◌else◌, bit_and, bit_or}
use proto_q.Errors.{Error, requires_ack_no_seq, response_requires_ack, body_without_length}

abbrev pub Flags : Type 0
Flags = ℕ

abbrev pub IsByte : ℕ → Type 0
IsByte b = b < 256

abbrev pub flag_dir : Flags
flag_dir = 0x80

abbrev pub flag_requires_ack : Flags
flag_requires_ack = 0x40

abbrev pub flag_body_len : Flags
flag_body_len = 0x20

abbrev pub flag_op_len_mask : Flags
flag_op_len_mask = 0x18

abbrev pub flag_op_len0 : Flags
flag_op_len0 = 0x00

abbrev pub flag_op_len2 : Flags
flag_op_len2 = 0x08

abbrev pub flag_op_len4 : Flags
flag_op_len4 = 0x10

abbrev pub flag_seq_len_mask : Flags
flag_seq_len_mask = 0x06

abbrev pub flag_seq_len0 : Flags
flag_seq_len0 = 0x00

abbrev pub flag_seq_len2 : Flags
flag_seq_len2 = 0x02

abbrev pub flag_seq_len4 : Flags
flag_seq_len4 = 0x04

abbrev pub flag_crc_len_mask : Flags
flag_crc_len_mask = 0x01

abbrev pub flag_crc_len0 : Flags
flag_crc_len0 = 0x00

abbrev pub flag_crc_len2 : Flags
flag_crc_len2 = 0x01

-- `f &^ m`
abbrev and_not : Flags → Flags → Flags
and_not f m = bit_and f (255 - m)

unfoldable pub is_request : Flags → Bool
is_request f = bit_and f flag_dir == 0

unfoldable pub is_response : Flags → Bool
is_response f = not (bit_and f flag_dir == 0)

unfoldable pub requires_ack : Flags → Bool
requires_ack f = not (bit_and f flag_requires_ack == 0)

unfoldable pub has_body_len : Flags → Bool
has_body_len f = not (bit_and f flag_body_len == 0)

unfoldable pub opcode_len : Flags → ℕ
opcode_len f =
    let code = bit_and f flag_op_len_mask in
    if code == flag_op_len2 then 2 else if code == flag_op_len4 then 4 else 0

unfoldable pub seq_len : Flags → ℕ
seq_len f =
    let code = bit_and f flag_seq_len_mask in
    if code == flag_seq_len2 then 2 else if code == flag_seq_len4 then 4 else 0

unfoldable pub crc_len : Flags → ℕ
crc_len f = if not (bit_and f flag_crc_len_mask == 0) then 2 else 0

unfoldable pub set_dir : Flags → Bool → Flags
set_dir f resp = if resp then bit_or f flag_dir else and_not f flag_dir

unfoldable pub set_requires_ack : Flags → Bool → Flags
set_requires_ack f v = if v then bit_or f flag_requires_ack else and_not f flag_requires_ack

unfoldable pub set_body_len : Flags → Bool → Flags
set_body_len f v = if v then bit_or f flag_body_len else and_not f flag_body_len

unfoldable pub set_opcode_len : Flags → ℕ → Flags
set_opcode_len f n =
    let f' = and_not f flag_op_len_mask in
    if n == 2
    then bit_or f' flag_op_len2
    else if n == 4
    then bit_or f' flag_op_len4
    else bit_or f' flag_op_len0

unfoldable pub set_seq_len : Flags → ℕ → Flags
set_seq_len f n =
    let f' = and_not f flag_seq_len_mask in
    if n == 2
    then bit_or f' flag_seq_len2
    else if n == 4
    then bit_or f' flag_seq_len4
    else bit_or f' flag_seq_len0

unfoldable pub set_crc_len : Flags → ℕ → Flags
set_crc_len f n =
    let f' = and_not f flag_crc_len_mask in
    if ltb 0 n then bit_or f' flag_crc_len2 else bit_or f' flag_crc_len0

-- `none` is the nil error.
unfoldable pub validate : Flags → Bool → Option Error
unfolding requires_ack seq_len is_response has_body_len
validate f has_body =
    if requires_ack f && (seq_len f == 0)
    then some requires_ack_no_seq
    else if is_response f && requires_ack f
    then some response_requires_ack
    else if not (has_body_len f) && has_body
    then some body_without_length
    else none

unfoldable pub encode_opcode_len : ℕ → Flags
encode_opcode_len n = if n == 2 then flag_op_len2 else if n == 4 then flag_op_len4 else flag_op_len0

unfoldable pub encode_seq_len : ℕ → Flags
encode_seq_len n = if n == 2 then flag_seq_len2 else if n == 4 then flag_seq_len4 else flag_seq_len0

unfoldable pub encode_crc_len : ℕ → Flags
encode_crc_len n = if ltb 0 n then flag_crc_len2 else flag_crc_len0
