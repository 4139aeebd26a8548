-- ===== src/Decoder/Cutting.antt =====
-- How a stream is cut into reads makes no difference to `Decode`.
pub mod Same
pub mod Rounds
pub mod Decode
use proto_q.Prelude.{
  ℕ, zero, suc, ◌+◌, ◌-◌, ◌≤◌, ◌<◌, ◌≡◌, refl, ap, sym, ◌∙◌, arith, inl, inr, Bool, true, false,
  Bool-cases, ltb, leb, ◌==◌, ◌&&◌, if◌then◌else◌, List, [], ◌∷◌, ◌++◌, length, length-append, drop,
  take, length-drop, get_elem?, get_elem?-append_lt, drop-append_le, take-append_le,
}
use proto_q.Errors.{ok, ◌>>=◌}
use proto_q.Packet.{PacketData, slice, read_be16, read_be32, read_uint_n}
use proto_q.Crc.{verify_crc}
use proto_q.Stream.{Decoder}
use proto_q.Decoder.{suffix, checked, build_frame}

-- What lies within the buffer is read alike when more bytes follow.
pub read_be16-append : (xs p : List ℕ) → 2 ≤ length xs → read_be16 (xs ++ p) ≡ read_be16 xs
read_be16-append [] p h = absurd (omega arith)
read_be16-append (a ∷ []) p h = absurd (omega arith)
read_be16-append (a ∷ b ∷ xs) p h = refl

read_be32-append : (xs p : List ℕ) → 4 ≤ length xs → read_be32 (xs ++ p) ≡ read_be32 xs
read_be32-append [] p h = absurd (omega arith)
read_be32-append (a ∷ []) p h = absurd (omega arith)
read_be32-append (a ∷ b ∷ []) p h = absurd (omega arith)
read_be32-append (a ∷ b ∷ c ∷ []) p h = absurd (omega arith)
read_be32-append (a ∷ b ∷ c ∷ e ∷ xs) p h = refl

read_uint_n-append :
    (xs p : List ℕ) (n : ℕ) → n ≤ length xs → read_uint_n (xs ++ p) n ≡ read_uint_n xs n
unfolding read_uint_n
read_uint_n-append xs p n h = elim (Bool-cases (n == 2)) [
  | inl two ↦ rw two (read_be16-append xs p (ground arith))
  | inr other ↦ elim (Bool-cases (n == 4)) [
    | inl four ↦ rw (other, four) (read_be32-append xs p (ground arith))
    | inr neither ↦ rw (other, neither) refl
  ]
]

slice-append :
    (buf p : List ℕ) (from to : ℕ)
    → from ≤ to
    → to ≤ length buf
    → slice (buf ++ p) from to ≡ slice buf from to
unfolding slice
slice-append buf p from to h h' =
    let inside : (leb from to && leb to (length buf)) ≡ true = ground arith in
    let inside' : (leb from to && leb to (length (buf ++ p))) ≡ true =
      ground (arith, length-append buf p) in
    let same : take (to - from) (drop from (buf ++ p)) ≡ take (to - from) (drop from buf) =
      rw (drop-append_le from buf p (omega arith))
        (take-append_le (to - from) (drop from buf) p (omega (arith, length-drop from buf))) in
    rw (inside, inside') (ap ok same)

field-append :
    (buf p : List ℕ) (at n : ℕ)
    → at + n ≤ length buf
    → read_uint_n (drop at (buf ++ p)) n ≡ read_uint_n (drop at buf) n
field-append buf p at n h =
    rw (drop-append_le at buf p (omega arith))
      (read_uint_n-append (drop at buf) p n (omega (arith, length-drop at buf)))

module _ (crc32_ieee : List ℕ → ℕ) where
  -- `buildFrame` does not depend on what follows the frame in the buffer.
  pub build_frame-append :
      (d : Decoder) (p : List ℕ)
      → d.cur_frame_start
          + 2
          + (if d.cur_has_body_len then 2 else 0)
          + d.cur_opcode_len
          + d.cur_seq_len
          + d.cur_body_len
          + d.cur_crc_len
        ≤ length d.buf
      → build_frame crc32_ieee (record d { buf = d.buf ++ p }) ≡ build_frame crc32_ieee d
  unfolding build_frame
  build_frame-append d p h =
      let more = length-append d.buf p in
      let opcode_at = d.cur_frame_start + 1 + 1 + (if d.cur_has_body_len then 2 else 0) in
      let seq_at = opcode_at + d.cur_opcode_len in
      let body_at = seq_at + d.cur_seq_len in
      let crc_at = body_at + d.cur_body_len in
      let opcode_in : leb opcode_at (length d.buf) ≡ true = ground arith in
      let opcode_in' : leb opcode_at (length (d.buf ++ p)) ≡ true = ground (arith, more) in
      let seq_in : leb seq_at (length d.buf) ≡ true = ground arith in
      let seq_in' : leb seq_at (length (d.buf ++ p)) ≡ true = ground (arith, more) in
      let o = field-append d.buf p opcode_at d.cur_opcode_len (omega arith) in
      let s = field-append d.buf p seq_at d.cur_seq_len (omega arith) in
      let b = slice-append d.buf p body_at crc_at (omega arith) (omega arith) in
      let c = slice-append d.buf p crc_at (crc_at + d.cur_crc_len) (omega arith) (omega arith) in
      let t = slice-append d.buf p (d.cur_frame_start + 1) crc_at (omega arith) (omega arith) in
      rw (opcode_in, opcode_in', o, seq_in, seq_in', s, b, c, t) refl
