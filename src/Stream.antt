-- ===== src/Stream.antt =====
-- The reader and the buffer of conn/decoder.go: the decoder's state, and `ensureBytes`.
-- An `io.Reader` is the list of what its calls of `Read` return, in order; after the last it
-- returns no byte and `io.EOF`. The fields that the source never reads are left out
-- (`curCRCOffset`, `curTotalLen`, `curNeedBytes`).
pub mod Ready
use proto_q.Prelude.{
  ℕ, ◌+◌, ◌*◌, ◌%◌, ◌^◌, Bool, true, false, Option, none, some, List, [], ◌∷◌, ◌++◌, length, ltb,
  if◌then◌else◌,
}
use proto_q.Flags.{Flags}

pub data State : Type 0 where
  state_magic state_flags state_length state_opcode state_seq state_body state_crc : State
  state_padding : State

pub data ReadError : Type 0 where
  eof failed : ReadError

-- What one call of `Read` returns.
pub record Read : Type 0 where
  pub bytes : List ℕ
  pub error : Option ReadError

pub record Decoder : Type 0 where
  pub reader : List Read
  pub buf : List ℕ
  pub cap : ℕ
  pub buf_pos : ℕ
  pub state : State
  pub cur_flags : Flags
  pub cur_opcode_len : ℕ
  pub cur_seq_len : ℕ
  pub cur_crc_len : ℕ
  pub cur_has_body_len : Bool
  pub cur_length_val : ℕ
  pub cur_body_len : ℕ
  pub cur_frame_start : ℕ
  pub frames_decoded : ℕ
  pub bytes_consumed : ℕ

abbrev pub read_buffer_size : ℕ
read_buffer_size = 4096

unfoldable pub new_decoder : List Read → Decoder
new_decoder r = record {
  reader = r;
  buf = [];
  cap = 0;
  buf_pos = 0;
  state = state_magic;
  cur_flags = 0;
  cur_opcode_len = 0;
  cur_seq_len = 0;
  cur_crc_len = 0;
  cur_has_body_len = false;
  cur_length_val = 0;
  cur_body_len = 0;
  cur_frame_start = 0;
  frames_decoded = 0;
  bytes_consumed = 0;
}

-- How `ensureBytes` ends.
pub data Ensured : Type 0 where
  ready : Decoder → Ensured
  stopped : ReadError → Decoder → Ensured
  panicked : Ensured

-- The capacity that a read is made with: grown where less than a read buffer is free.
unfoldable pub grown_cap : ℕ → ℕ → ℕ
grown_cap cap len =
    if ltb cap (len + read_buffer_size)
    then (if ltb (cap * 2) read_buffer_size then read_buffer_size else cap * 2)
    else cap

-- `len(d.buf)-d.bufPos < n`
abbrev pub is_short : Decoder → ℕ → Bool
is_short d n = ltb (length d.buf) (d.buf_pos + n)

abbrev pub after_read : Option ReadError → ℕ → Decoder → Ensured → Ensured
after_read none n d rest = rest
after_read (some eof) n d rest = if is_short d n then stopped eof d else ready d
after_read (some failed) n d rest = stopped failed d

-- The loop of `ensureBytes`, over the calls of `Read` that are left. `d.buf[:oldLen+nr]` panics
-- where the reader claims more than the room that it was given.
unfoldable pub fill : List Read → ℕ → Decoder → Ensured
unfolding grown_cap
fill [] n d =
    let d' = record d { reader = []; cap = grown_cap d.cap (length d.buf) } in
    if is_short d n then stopped eof d' else ready d
fill (r ∷ rs) n d =
    let cap' = grown_cap d.cap (length d.buf) in
    let d' = record d { reader = rs; buf = d.buf ++ r.bytes; cap = cap' } in
    let rest = fill rs n d' in
    if is_short d n
    then (if ltb cap' (length (d.buf ++ r.bytes)) then panicked else after_read r.error n d' rest)
    else ready d

unfoldable pub ensure_bytes : ℕ → Decoder → Ensured
unfolding fill
ensure_bytes n d = fill d.reader n d

-- A uint64 counter.
abbrev pub add64 : ℕ → ℕ → ℕ
add64 a b = (a + b) % 2 ^ 64
