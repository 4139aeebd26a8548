-- ===== src/Flags/Fields.antt =====
-- What the setters of flags.go do to the fields that the getters read.
use proto_q.Prelude.{ℕ, ◌+◌, ◌*◌, ◌/◌, ◌%◌, ◌≡◌, Bool, arith, ◌==◌, ltb, leb, if◌then◌else◌}
use proto_q.Flags.Masks.{
  dir_bit, ack_bit, body_bit, op_bits, seq_bits, crc_bit, clear_dir, clear_ack, clear_body,
  set_dir_bit, set_ack_bit, set_body_bit, op_code0, op_code2, op_code4, seq_code0, seq_code2,
  seq_code4, crc_code0, crc_code2,
}
use proto_q.Flags.{
  Flags, IsByte, is_response, requires_ack, has_body_len, opcode_len, seq_len, crc_len, set_dir,
  set_requires_ack, set_body_len, set_opcode_len, set_seq_len, set_crc_len,
}

-- The getters as arithmetic on the byte.
pub is_response_arith : (f : Flags) → IsByte f → is_response f ≡ leb 128 f
unfolding is_response
is_response_arith f h = ground (arith, dir_bit f h)

pub requires_ack_arith : (f : Flags) → IsByte f → requires_ack f ≡ (f / 64 % 2 == 1)
unfolding requires_ack
requires_ack_arith f h = ground (arith, ack_bit f h)

pub has_body_len_arith : (f : Flags) → IsByte f → has_body_len f ≡ (f / 32 % 2 == 1)
unfolding has_body_len
has_body_len_arith f h = ground (arith, body_bit f h)

-- The length that a two-bit code stands for; the code 3 is read as 0.
abbrev pub code_len : ℕ → ℕ
code_len c = if c == 1 then 2 else if c == 2 then 4 else 0

pub opcode_len_arith : (f : Flags) → IsByte f → opcode_len f ≡ code_len (f / 8 % 4)
unfolding opcode_len
opcode_len_arith f h = ground (arith, op_bits f h)

pub seq_len_arith : (f : Flags) → IsByte f → seq_len f ≡ code_len (f / 2 % 4)
unfolding seq_len
seq_len_arith f h = ground (arith, seq_bits f h)

pub crc_len_arith : (f : Flags) → IsByte f → crc_len f ≡ f % 2 * 2
unfolding crc_len
crc_len_arith f h = ground (arith, crc_bit f h)

-- The setters as arithmetic on the byte.
pub set_dir_arith :
    (f : Flags) (v : Bool) → IsByte f → set_dir f v ≡ f % 128 + (if v then 128 else 0)
unfolding set_dir
set_dir_arith f v h = ground (arith, clear_dir f h, set_dir_bit f h)

pub set_requires_ack_arith :
    (f : Flags) (v : Bool)
    → IsByte f
    → set_requires_ack f v ≡ f / 128 * 128 + f % 64 + (if v then 64 else 0)
unfolding set_requires_ack
set_requires_ack_arith f v h = ground (arith, clear_ack f h, set_ack_bit f h)

pub set_body_len_arith :
    (f : Flags) (v : Bool)
    → IsByte f
    → set_body_len f v ≡ f / 64 * 64 + f % 32 + (if v then 32 else 0)
unfolding set_body_len
set_body_len_arith f v h = ground (arith, clear_body f h, set_body_bit f h)

pub set_opcode_len_arith :
    (f : Flags) (n : ℕ)
    → IsByte f
    → set_opcode_len f n ≡ f / 32 * 32 + f % 8 + (if n == 2 then 8 else if n == 4 then 16 else 0)
unfolding set_opcode_len
set_opcode_len_arith f n h = ground (arith, op_code0 f h, op_code2 f h, op_code4 f h)

pub set_seq_len_arith :
    (f : Flags) (n : ℕ)
    → IsByte f
    → set_seq_len f n ≡ f / 8 * 8 + f % 2 + (if n == 2 then 2 else if n == 4 then 4 else 0)
unfolding set_seq_len
set_seq_len_arith f n h = ground (arith, seq_code0 f h, seq_code2 f h, seq_code4 f h)

pub set_crc_len_arith :
    (f : Flags) (n : ℕ) → IsByte f → set_crc_len f n ≡ f / 2 * 2 + (if ltb 0 n then 1 else 0)
unfolding set_crc_len
set_crc_len_arith f n h = ground (arith, crc_code0 f h, crc_code2 f h)
