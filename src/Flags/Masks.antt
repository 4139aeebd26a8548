-- ===== src/Flags/Masks.antt =====
-- The masks of flags.go as arithmetic on the byte.
use proto_q.Prelude.{ℕ, ◌+◌, ◌*◌, ◌/◌, ◌%◌, ◌<◌, ◌≡◌, refl, bit_and, bit_or}
use proto_q.Prelude.Bytes.{same_below, same_below→eq}

pub dir_bit : (f : ℕ) → f < 256 → bit_and f 0x80 ≡ f / 128 * 128
unfolding same_below
dir_bit = same_below→eq _ _ 256 refl

pub ack_bit : (f : ℕ) → f < 256 → bit_and f 0x40 ≡ f / 64 % 2 * 64
unfolding same_below
ack_bit = same_below→eq _ _ 256 refl

pub body_bit : (f : ℕ) → f < 256 → bit_and f 0x20 ≡ f / 32 % 2 * 32
unfolding same_below
body_bit = same_below→eq _ _ 256 refl

pub op_bits : (f : ℕ) → f < 256 → bit_and f 0x18 ≡ f / 8 % 4 * 8
unfolding same_below
op_bits = same_below→eq _ _ 256 refl

pub seq_bits : (f : ℕ) → f < 256 → bit_and f 0x06 ≡ f / 2 % 4 * 2
unfolding same_below
seq_bits = same_below→eq _ _ 256 refl

pub crc_bit : (f : ℕ) → f < 256 → bit_and f 0x01 ≡ f % 2
unfolding same_below
crc_bit = same_below→eq _ _ 256 refl

pub clear_dir : (f : ℕ) → f < 256 → bit_and f 0x7f ≡ f % 128
unfolding same_below
clear_dir = same_below→eq _ _ 256 refl

pub clear_ack : (f : ℕ) → f < 256 → bit_and f 0xbf ≡ f / 128 * 128 + f % 64
unfolding same_below
clear_ack = same_below→eq _ _ 256 refl

pub clear_body : (f : ℕ) → f < 256 → bit_and f 0xdf ≡ f / 64 * 64 + f % 32
unfolding same_below
clear_body = same_below→eq _ _ 256 refl

pub set_dir_bit : (f : ℕ) → f < 256 → bit_or f 0x80 ≡ f % 128 + 128
unfolding same_below
set_dir_bit = same_below→eq _ _ 256 refl

pub set_ack_bit : (f : ℕ) → f < 256 → bit_or f 0x40 ≡ f / 128 * 128 + f % 64 + 64
unfolding same_below
set_ack_bit = same_below→eq _ _ 256 refl

pub set_body_bit : (f : ℕ) → f < 256 → bit_or f 0x20 ≡ f / 64 * 64 + f % 32 + 32
unfolding same_below
set_body_bit = same_below→eq _ _ 256 refl

pub op_code0 : (f : ℕ) → f < 256 → bit_or (bit_and f 0xe7) 0 ≡ f / 32 * 32 + f % 8
unfolding same_below
op_code0 = same_below→eq _ _ 256 refl

pub op_code2 : (f : ℕ) → f < 256 → bit_or (bit_and f 0xe7) 0x08 ≡ f / 32 * 32 + f % 8 + 8
unfolding same_below
op_code2 = same_below→eq _ _ 256 refl

pub op_code4 : (f : ℕ) → f < 256 → bit_or (bit_and f 0xe7) 0x10 ≡ f / 32 * 32 + f % 8 + 16
unfolding same_below
op_code4 = same_below→eq _ _ 256 refl

pub seq_code0 : (f : ℕ) → f < 256 → bit_or (bit_and f 0xf9) 0 ≡ f / 8 * 8 + f % 2
unfolding same_below
seq_code0 = same_below→eq _ _ 256 refl

pub seq_code2 : (f : ℕ) → f < 256 → bit_or (bit_and f 0xf9) 0x02 ≡ f / 8 * 8 + f % 2 + 2
unfolding same_below
seq_code2 = same_below→eq _ _ 256 refl

pub seq_code4 : (f : ℕ) → f < 256 → bit_or (bit_and f 0xf9) 0x04 ≡ f / 8 * 8 + f % 2 + 4
unfolding same_below
seq_code4 = same_below→eq _ _ 256 refl

pub crc_code0 : (f : ℕ) → f < 256 → bit_or (bit_and f 0xfe) 0 ≡ f / 2 * 2
unfolding same_below
crc_code0 = same_below→eq _ _ 256 refl

pub crc_code2 : (f : ℕ) → f < 256 → bit_or (bit_and f 0xfe) 0x01 ≡ f / 2 * 2 + 1
unfolding same_below
crc_code2 = same_below→eq _ _ 256 refl
