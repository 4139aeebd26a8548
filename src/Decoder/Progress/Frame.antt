-- ===== src/Decoder/Progress/Frame.antt =====
-- `buildFrame` on a buffer that reaches over the frame: a packet or an error, never a panic.
use proto_q.Prelude.{
  ℕ, ◌+◌, ◌-◌, ◌≤◌, ◌≡◌, ◌⊎◌, inl, inr, refl, arith, Bool, true, false, Option-cases, Bool-cases,
  ltb, leb, ◌==◌, ◌&&◌, if◌then◌else◌, List, [], ◌∷◌, length, drop, take, length-drop,
}
use proto_q.Errors.{Error, crc_mismatch, ok, err, ◌>>=◌}
use proto_q.Flags.{validate}
use proto_q.Packet.{PacketData, has_body, slice, read_be16, read_be32, read_uint_n}
use proto_q.Crc.{verify_crc}
use proto_q.Stream.{Decoder}
use proto_q.Decoder.{suffix, checked, build_frame}

pub read_be16-total : (xs : List ℕ) → 2 ≤ length xs → (v : ℕ) × (read_be16 xs ≡ ok v)
read_be16-total [] h = absurd (omega arith)
read_be16-total (a ∷ []) h = absurd (omega arith)
read_be16-total (a ∷ b ∷ xs) h = (_, refl)

read_be32-total : (xs : List ℕ) → 4 ≤ length xs → (v : ℕ) × (read_be32 xs ≡ ok v)
read_be32-total [] h = absurd (omega arith)
read_be32-total (a ∷ []) h = absurd (omega arith)
read_be32-total (a ∷ b ∷ []) h = absurd (omega arith)
read_be32-total (a ∷ b ∷ c ∷ []) h = absurd (omega arith)
read_be32-total (a ∷ b ∷ c ∷ e ∷ xs) h = (_, refl)

read_uint_n-total : (xs : List ℕ) (n : ℕ) → n ≤ length xs → (v : ℕ) × (read_uint_n xs n ≡ ok v)
unfolding read_uint_n
read_uint_n-total xs n h = elim (Bool-cases (n == 2)) [
  | inl two ↦ let (v, e) = read_be16-total xs (ground arith) in (v, rw two e)
  | inr other ↦ elim (Bool-cases (n == 4)) [
    | inl four ↦ let (v, e) = read_be32-total xs (ground arith) in (v, rw (other, four) e)
    | inr none_of_both ↦ (0, rw (other, none_of_both) refl)
  ]
]

field-total :
    (buf : List ℕ) (at n : ℕ)
    → at + n ≤ length buf
    → (v : ℕ) × ((suffix buf at >>= (λ rest. read_uint_n rest n)) ≡ ok v)
field-total buf at n h =
    let inside : leb at (length buf) ≡ true = ground arith in
    let (v, e) = read_uint_n-total (drop at buf) n (omega (arith, length-drop at buf)) in
    (v, rw inside e)

slice-total :
    (buf : List ℕ) (from to : ℕ)
    → from ≤ to
    → to ≤ length buf
    → (xs : List ℕ) × (slice buf from to ≡ ok xs)
unfolding slice
slice-total buf from to h h' =
    let inside : (leb from to && leb to (length buf)) ≡ true = ground arith in
    (take (to - from) (drop from buf), rw inside refl)

module _ (crc32_ieee : List ℕ → ℕ) where
  checked-total :
      (good : Bool) (f : PacketData)
      → ((g : PacketData) × (checked crc32_ieee good f ≡ ok g))
        ⊎ ((e : Error) × (checked crc32_ieee good f ≡ err e))
  checked-total false f = inr (crc_mismatch, refl)
  checked-total true f = elim (Option-cases (validate f.flags (has_body f.body))) [
    | inl valid ↦ inl (f, rw (checked, valid) refl)
    | inr (e, invalid) ↦ inr (e, rw (checked, invalid) refl)
  ]

  pub build_frame-total :
      (d : Decoder)
      → d.cur_frame_start
          + 2
          + (if d.cur_has_body_len then 2 else 0)
          + d.cur_opcode_len
          + d.cur_seq_len
          + d.cur_body_len
          + d.cur_crc_len
        ≤ length d.buf
      → ((f : PacketData) × (build_frame crc32_ieee d ≡ ok f))
        ⊎ ((e : Error) × (build_frame crc32_ieee d ≡ err e))
  unfolding build_frame
  build_frame-total d h =
      let opcode_at = d.cur_frame_start + 1 + 1 + (if d.cur_has_body_len then 2 else 0) in
      let seq_at = opcode_at + d.cur_opcode_len in
      let body_at = seq_at + d.cur_seq_len in
      let crc_at = body_at + d.cur_body_len in
      let opcode_in : leb opcode_at (length d.buf) ≡ true = ground arith in
      let seq_in : leb seq_at (length d.buf) ≡ true = ground arith in
      let (opcode, o) =
        read_uint_n-total (drop opcode_at d.buf) d.cur_opcode_len
          (omega (arith, length-drop opcode_at d.buf)) in
      let (seq, s) =
        read_uint_n-total (drop seq_at d.buf) d.cur_seq_len
          (omega (arith, length-drop seq_at d.buf)) in
      let (body, b) = slice-total d.buf body_at crc_at (omega arith) (omega arith) in
      let (expected, c) =
        slice-total d.buf crc_at (crc_at + d.cur_crc_len) (omega arith) (omega arith) in
      let (covered, t) =
        slice-total d.buf (d.cur_frame_start + 1) crc_at (omega arith) (omega arith) in
      let made : List ℕ → PacketData =
        λ xs. record { flags = d.cur_flags; opcode = opcode; seq = seq; body = xs } in
      elim (Bool-cases (ltb 0 d.cur_body_len)) [
        | inl long ↦ elim (Bool-cases (ltb 0 d.cur_crc_len)) [
          | inl sum ↦
              rw (opcode_in, o, seq_in, s, long, b, sum, c, t)
                (checked-total (verify_crc crc32_ieee covered expected d.cur_crc_len) (made body))
          | inr no_sum ↦
              rw (opcode_in, o, seq_in, s, long, b, no_sum) (checked-total true (made body))
        ]
        | inr empty ↦ elim (Bool-cases (ltb 0 d.cur_crc_len)) [
          | inl sum ↦
              rw (opcode_in, o, seq_in, s, empty, sum, c, t)
                (checked-total (verify_crc crc32_ieee covered expected d.cur_crc_len) (made []))
          | inr no_sum ↦ rw (opcode_in, o, seq_in, s, empty, no_sum) (checked-total true (made []))
        ]
      ]
