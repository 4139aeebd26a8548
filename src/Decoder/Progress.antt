-- ===== src/Decoder/Progress.antt =====
-- Every round of `Decode`, on any stream: none panics, and each that goes on is nearer to the end.
pub mod Filling
pub mod Frame
pub mod Keeping
pub mod Total
use proto_q.Prelude.{ℕ, ◌+◌, ◌-◌, ◌*◌, ◌≤◌, ◌<◌, ◌≡◌, Bool, true, length, All, if◌then◌else◌}
use proto_q.Stream.{
  Decoder, State, state_magic, state_flags, state_length, state_opcode, state_seq, state_body,
  state_crc, state_padding, Read, read_buffer_size,
}
use proto_q.Stream.Ready.{HasRoom, whole}

-- A call of `Read` that claims no more than the 4096 bytes for which there is always room.
abbrev pub IsBounded : Read → Type 0
IsBounded r = length r.bytes ≤ read_buffer_size

-- Where a decoder in each state stands: `pos` against `start`, the position of the magic byte.
abbrev pub Shape : State → ℕ → ℕ → Bool → ℕ → ℕ → ℕ → ℕ → Type 0
Shape state_magic pos start long op seq body crc = body ≡ 0
Shape state_flags pos start long op seq body crc = (pos ≡ start + 1) × (body ≡ 0)
Shape state_length pos start long op seq body crc = (pos ≡ start + 2) × (body ≡ 0) × (long ≡ true)
Shape state_opcode pos start long op seq body crc = pos ≡ start + 2 + (if long then 2 else 0)
Shape state_seq pos start long op seq body crc = pos ≡ start + 2 + (if long then 2 else 0) + op
Shape state_body pos start long op seq body crc =
    pos ≡ start + 2 + (if long then 2 else 0) + op + seq
Shape state_crc pos start long op seq body crc =
    pos ≡ start + 2 + (if long then 2 else 0) + op + seq + body
Shape state_padding pos start long op seq body crc =
    pos ≡ start + 2 + (if long then 2 else 0) + op + seq + body + crc

abbrev pub HasShape : State → Decoder → Type 0
HasShape s d =
    Shape s d.buf_pos d.cur_frame_start d.cur_has_body_len d.cur_opcode_len d.cur_seq_len
      d.cur_body_len d.cur_crc_len

-- A decoder as `NewDecoder` makes it, and as every round leaves it. `P` holds of the calls of
-- `Read` that are left.
pub record IsSound (P : Read → Type 0) (d : Decoder) : Type 0 where
  pub room : HasRoom d.buf d.cap
  pub bounded : All P d.reader
  pub reached : d.buf_pos ≤ length d.buf
  pub shape : HasShape d.state d

-- The bytes that are not passed over yet.
abbrev pub unread : Decoder → ℕ
unread d = length (whole d) - d.buf_pos

abbrev pub rank : State → ℕ
rank state_opcode = 5
rank state_seq = 4
rank state_body = 3
rank state_crc = 2
rank state_padding = 1
rank _ = 0

-- No more rounds than this are left.
abbrev pub rounds_left : Decoder → ℕ
rounds_left d = 6 * unread d + rank d.state
