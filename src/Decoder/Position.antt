-- ===== src/Decoder/Position.antt =====
-- Where `Decode` stands in a frame that `Encode` wrote, and the rounds that wait and pass over.
use proto_q.Prelude.{ℕ, ◌+◌, ◌≤◌, ◌≡◌, refl, ◌∙◌, arith, List, length}
use proto_q.Flags.{has_body_len, opcode_len, seq_len, crc_len}
use proto_q.Packet.{PacketData}
use proto_q.Stream.{Decoder, State, state_magic, Read, add64}
use proto_q.Stream.Ready.{IsCalm, HasRoom, whole, refilled, ensure_bytes-ready}
use proto_q.Decoder.{again, pass_over}

-- The decoder waits in state `s`, `k` bytes into the frame that starts at `start` of `content`.
pub record IsIn (content : List ℕ) (start count : ℕ) (d : Decoder) (s : State) (k : ℕ)
    : Type 0 where
  pub state : d.state ≡ s
  pub place : d.buf_pos ≡ start + k
  pub same : whole d ≡ content
  pub room : HasRoom d.buf d.cap
  pub calm : IsCalm d.reader
  pub frames : d.frames_decoded ≡ count
  pub reached : d.buf_pos ≤ length d.buf

-- It has read the flags of the frame `f`.
pub record HasFlags (start : ℕ) (d : Decoder) (f : PacketData) : Type 0 where
  pub from_start : d.cur_frame_start ≡ start
  pub flags : d.cur_flags ≡ f.flags
  pub opcode_bytes : d.cur_opcode_len ≡ opcode_len f.flags
  pub seq_bytes : d.cur_seq_len ≡ seq_len f.flags
  pub crc_bytes : d.cur_crc_len ≡ crc_len f.flags
  pub with_length : d.cur_has_body_len ≡ has_body_len f.flags

-- Reading on does not change what is known of the flags.
pub HasFlags-moved :
    (start : ℕ) (d : Decoder) (f : PacketData) (rs : List Read) (buf : List ℕ)
    (cap pos consumed : ℕ)
    → HasFlags start d f
    → HasFlags start (record (refilled d rs buf cap) { buf_pos = pos; bytes_consumed = consumed }) f
HasFlags-moved start d f rs buf cap pos consumed h = record {
  from_start = h.from_start;
  flags = h.flags;
  opcode_bytes = h.opcode_bytes;
  seq_bytes = h.seq_bytes;
  crc_bytes = h.crc_bytes;
  with_length = h.with_length;
}

-- A decoder between two frames, with `bytes` still to read from position 0.
pub record IsBetween (bytes : List ℕ) (count : ℕ) (d : Decoder) : Type 0 where
  pub idle : IsIn bytes 0 count d state_magic 0
  pub no_body : d.cur_body_len ≡ 0

module _ (content : List ℕ) (start count : ℕ) where
  -- A round that waits for `n` bytes and passes over them.
  pub pass_over-IsIn :
      {f : PacketData} {d : Decoder} {s : State} (k n : ℕ) (next : State) (body : ℕ)
      → IsIn content start count d s k
      → HasFlags start d f
      → d.cur_body_len ≡ body
      → start + k + n ≤ length content
      → (d' : Decoder) × (pass_over d n next ≡ again d')
        × IsIn content start count d' next (k + n)
        × HasFlags start d' f
        × (d'.cur_body_len ≡ body)
  pass_over-IsIn {f} {d} k n next body i h hb enough =
      let (rs, buf, cap, r) =
        ensure_bytes-ready n d i.room i.calm (rw i.same (omega (arith, i.place))) in
      (
        record (refilled d rs buf cap) {
          buf_pos = d.buf_pos + n;
          bytes_consumed = add64 d.bytes_consumed n;
          state = next;
        },
        rw r.outcome refl,
        record {
          state = refl;
          place = omega (arith, i.place);
          same = r.same ∙ i.same;
          room = r.room;
          calm = r.calm;
          frames = i.frames;
          reached = omega (arith, r.enough);
        },
        record {
          from_start = h.from_start;
          flags = h.flags;
          opcode_bytes = h.opcode_bytes;
          seq_bytes = h.seq_bytes;
          crc_bytes = h.crc_bytes;
          with_length = h.with_length;
        },
        hb,
      )
