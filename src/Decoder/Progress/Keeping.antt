-- ===== src/Decoder/Progress/Keeping.antt =====
-- What a round of `Decode` keeps of the decoder, and the rounds that read the first bytes of a frame.
use proto_q.Prelude.{
  ℕ, ◌+◌, ◌-◌, ◌≤◌, ◌<◌, ◌≡◌, inl, inr, refl, ap, sym, subst, arith, false, Bool-cases, ltb, leb,
  ◌==◌, List, length, length-append, drop, length-drop, get_elem?-total, All,
}
use proto_q.Flags.{has_body_len}
use proto_q.Encoder.{magic_byte}
use proto_q.Stream.{Decoder, State, state_magic, state_flags, state_length, Read, ensure_bytes}
use proto_q.Stream.Ready.{HasRoom, whole, refilled, pending}
use proto_q.Decoder.{
  Turn, again, returned, gave_up, crashed, on_ready, reset_frame, step_magic, step_flags,
  step_length,
}
use proto_q.Decoder.Progress.{IsBounded, HasShape, IsSound, unread, rank, rounds_left}
use proto_q.Decoder.Progress.Filling.{IsFilled, ensure_bytes-Fills}
use proto_q.Decoder.Progress.Frame.{read_be16-total}

module _ (P : Read → Type 0) (small : (r : Read) → P r → IsBounded r) where
  -- A round keeps the decoder sound; if it goes on, fewer are left.
  abbrev pub Keeps : ℕ → Turn → Type 0
  Keeps m (again d') = IsSound P d' × (rounds_left d' < m)
  Keeps m (returned f d') = IsSound P d'
  Keeps m (gave_up e d') = IsSound P d'
  Keeps m crashed = ⊥

  -- What is known of a decoder but for its state.
  abbrev pub HasBuffer : Decoder → Type 0
  HasBuffer d = HasRoom d.buf d.cap × All P d.reader × (d.buf_pos ≤ length d.buf)

  -- A round that waits for `n` bytes: what it does with them is left to show.
  pub on_ready-Keeps :
      (m n : ℕ) (d : Decoder) (k : Decoder → Turn)
      → IsSound P d
      → ((rs : List Read) (buf : List ℕ) (cap : ℕ)
          → IsFilled P small d rs buf cap
          → d.buf_pos + n ≤ length buf
          → Keeps m (k (refilled d rs buf cap)))
      → Keeps m (on_ready (ensure_bytes n d) k)
  on_ready-Keeps m n d k h go_on =
      let (rs, buf, cap, filled, ends) = ensure_bytes-Fills P small n d h.room h.bounded in
      elim ends [
        | inl (is_ready, enough) ↦ rw is_ready (go_on rs buf cap filled enough)
        | inr (e, is_stopped) ↦ rw is_stopped (record {
          room = filled.room;
          bounded = filled.bounded;
          reached = omega (arith, h.reached, filled.grown);
          shape = h.shape;
        })
      ]

  -- Passing over `n` bytes that are there leaves as many fewer unread.
  pub unread-filled :
      (d : Decoder) (rs : List Read) (buf : List ℕ) (cap n : ℕ)
      → IsFilled P small d rs buf cap
      → d.buf_pos + n ≤ length buf
      → length (whole (refilled d rs buf cap)) - (d.buf_pos + n) + n ≡ unread d
  unread-filled d rs buf cap n h enough =
      let size : length (whole (refilled d rs buf cap)) ≡ length (whole d) = ap length h.same in
      omega (arith, size, length-append buf (pending rs))

  pub shape_at : {s : State} (d : Decoder) → IsSound P d → d.state ≡ s → HasShape s d
  shape_at d h e = subst (λ t. HasShape t d) e h.shape

  pub step_magic-Keeps :
      (d : Decoder) → IsSound P d → d.state ≡ state_magic → Keeps (rounds_left d) (step_magic d)
  unfolding step_magic
  step_magic-Keeps d h e =
      let body : d.cur_body_len ≡ 0 = shape_at d h e in
      on_ready-Keeps (rounds_left d) 1 d _ h (λ rs buf cap filled enough.
        let (x, here) = get_elem?-total buf d.buf_pos (omega arith) in
        let fewer = unread-filled d rs buf cap 1 filled enough in
        let low : rank d.state ≡ 0 = ap rank e in
        rw here (elim (Bool-cases (x == magic_byte)) [
          | inl found ↦ rw found (
            record {
              room = filled.room;
              bounded = filled.bounded;
              reached = enough;
              shape = (refl, body);
            },
            omega (arith, fewer, low),
          )
          | inr noise ↦ rw noise (
            record {
              room = filled.room;
              bounded = filled.bounded;
              reached = enough;
              shape =
                  subst
                    (λ t. HasShape t (record (refilled d rs buf cap) { buf_pos = d.buf_pos + 1 }))
                    (sym e) body;
            },
            omega (arith, fewer, low),
          )
        ]))

  pub step_flags-Keeps :
      (d : Decoder) → IsSound P d → d.state ≡ state_flags → Keeps (rounds_left d) (step_flags d)
  unfolding step_flags
  step_flags-Keeps d h e =
      let shape : HasShape state_flags d = shape_at d h e in
      on_ready-Keeps (rounds_left d) 1 d _ h (λ rs buf cap filled enough.
        let inside : leb (length buf) (d.cur_frame_start + 1) ≡ false =
          ground (arith, enough, shape.0) in
        let (x, here) =
          get_elem?-total buf (d.cur_frame_start + 1) (omega (arith, shape.0, enough)) in
        let fewer = unread-filled d rs buf cap 1 filled enough in
        let low : rank d.state ≡ 0 = ap rank e in
        let reached : d.cur_frame_start + 1 + 1 ≤ length buf = omega (arith, shape.0, enough) in
        rw (inside, here)
          (elim (Bool-cases (has_body_len x)) [
            | inl long ↦ rw long (
              record {
                room = filled.room;
                bounded = filled.bounded;
                reached = reached;
                shape = (omega arith, shape.1, refl);
              },
              omega (arith, fewer, low, shape.0),
            )
            | inr short ↦ rw short (
              record {
                room = filled.room;
                bounded = filled.bounded;
                reached = reached;
                shape = omega arith;
              },
              omega (arith, fewer, low, shape.0),
            )
          ]))

  pub step_length-Keeps :
      (d : Decoder) → IsSound P d → d.state ≡ state_length → Keeps (rounds_left d) (step_length d)
  unfolding step_length reset_frame
  step_length-Keeps d h e =
      let shape : HasShape state_length d = shape_at d h e in
      on_ready-Keeps (rounds_left d) 2 d _ h (λ rs buf cap filled enough.
        let (v, here) =
          read_be16-total (drop (d.cur_frame_start + 2) buf)
            (omega (arith, length-drop (d.cur_frame_start + 2) buf, shape.0, enough)) in
        let fewer = unread-filled d rs buf cap 2 filled enough in
        let low : rank d.state ≡ 0 = ap rank e in
        let reached : d.cur_frame_start + 2 + 2 ≤ length buf = omega (arith, shape.0, enough) in
        rw here (elim (Bool-cases (ltb v (d.cur_opcode_len + d.cur_seq_len + d.cur_crc_len))) [
          | inl invalid ↦ rw invalid (
            record {
              room = filled.room;
              bounded = filled.bounded;
              reached = reached;
              shape = refl;
            },
            omega (arith, fewer, low, shape.0),
          )
          | inr valid ↦ rw valid (
            record {
              room = filled.room;
              bounded = filled.bounded;
              reached = reached;
              shape = rw shape.2 (omega arith);
            },
            omega (arith, fewer, low, shape.0),
          )
        ]))
