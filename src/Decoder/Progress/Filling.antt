-- ===== src/Decoder/Progress/Filling.antt =====
-- `ensureBytes` on any reader: it ends with enough bytes or with the reader's error.
use proto_q.Prelude.{
  ℕ, ◌+◌, ◌≤◌, ◌≡◌, ◌⊎◌, inl, inr, refl, ◌∙◌, arith, Option, none, some, le→ltb, ltb→le, List, [],
  ◌∷◌, ◌++◌, append_assoc, length, length-append, Bool-cases, All,
}
use proto_q.Stream.{
  Decoder, Read, ReadError, eof, failed, Ensured, ready, stopped, grown_cap, is_short, after_read,
  fill, ensure_bytes,
}
use proto_q.Stream.Ready.{HasRoom, pending, whole, refilled, grown_cap_room}
use proto_q.Decoder.Progress.{IsBounded}

module _ (P : Read → Type 0) (small : (r : Read) → P r → IsBounded r) where
  -- What the calls of `Read` leave: no byte is lost or reordered.
  pub record IsFilled (d : Decoder) (rs : List Read) (buf : List ℕ) (cap : ℕ) : Type 0 where
    pub same : buf ++ pending rs ≡ whole d
    pub room : HasRoom buf cap
    pub bounded : All P rs
    pub grown : length d.buf ≤ length buf

  abbrev pub Fills : ℕ → Decoder → Ensured → Type 0
  Fills n d r =
      (rs : List Read) × (buf : List ℕ) × (cap : ℕ) × IsFilled d rs buf cap
      × (((r ≡ ready (refilled d rs buf cap)) × (d.buf_pos + n ≤ length buf))
          ⊎ ((e : ReadError) × (r ≡ stopped e (refilled d rs buf cap))))

  -- What follows a call of `Read`, given the rest of the loop.
  after_read-Fills :
      (error : Option ReadError) (n : ℕ) (d : Decoder) (rs : List Read) (buf : List ℕ) (cap : ℕ)
      (rest : Ensured)
      → IsFilled d rs buf cap
      → Fills n (refilled d rs buf cap) rest
      → Fills n d (after_read error n (refilled d rs buf cap) rest)
  after_read-Fills none n d rs buf cap rest h (rs', buf', cap', h', ends) = (
    rs',
    buf',
    cap',
    record {
      same = h'.same ∙ h.same;
      room = h'.room;
      bounded = h'.bounded;
      grown = omega (arith, h.grown, h'.grown);
    },
    ends,
  )
  after_read-Fills (some eof) n d rs buf cap rest h ih = (
    rs,
    buf,
    cap,
    h,
    elim (Bool-cases (is_short (refilled d rs buf cap) n)) [
      | inl short ↦ inr (eof, rw short refl)
      | inr long ↦ inl (rw long refl, ltb→le (length buf) (d.buf_pos + n) long)
    ],
  )
  after_read-Fills (some failed) n d rs buf cap rest h ih = (rs, buf, cap, h, inr (failed, refl))

  fill-Fills :
      (rs : List Read) (n : ℕ) (d : Decoder)
      → HasRoom d.buf d.cap
      → All P rs
      → Fills n (record d { reader = rs }) (fill rs n (record d { reader = rs }))
  unfolding fill pending
  fill-Fills [] n d room bounded =
      let space = grown_cap_room d.buf d.cap room in
      elim (Bool-cases (is_short d n)) [
        | inl short ↦ (
          [],
          d.buf,
          grown_cap d.cap (length d.buf),
          record {
            same = refl;
            room = (omega (arith, space.0), inr space.1);
            bounded = tt;
            grown = omega arith;
          },
          inr (eof, rw short refl),
        )
        | inr long ↦ (
          [],
          d.buf,
          d.cap,
          record { same = refl; room = room; bounded = tt; grown = omega arith },
          inl (rw long refl, ltb→le (length d.buf) (d.buf_pos + n) long),
        )
      ]
  fill-Fills (r ∷ rs) n d room bounded =
      let space = grown_cap_room d.buf d.cap room in
      let cap = grown_cap d.cap (length d.buf) in
      let size = length-append d.buf r.bytes in
      let fits : length (d.buf ++ r.bytes) ≤ cap =
        omega (arith, size, space.0, small r bounded.0) in
      let filled : IsFilled (record d { reader = r ∷ rs }) rs (d.buf ++ r.bytes) cap = record {
        same = append_assoc d.buf r.bytes (pending rs);
        room = (fits, inr space.1);
        bounded = bounded.1;
        grown = omega (arith, size);
      } in
      let ih =
        fill-Fills rs n (record d { buf = d.buf ++ r.bytes; cap = cap }) (fits, inr space.1)
          bounded.1 in
      elim (Bool-cases (is_short d n)) [
        | inl short ↦
            rw (short, le→ltb cap (length (d.buf ++ r.bytes)) fits)
              (after_read-Fills r.error n (record d { reader = r ∷ rs }) rs (d.buf ++ r.bytes) cap _
                filled ih)
        | inr long ↦ (
          r ∷ rs,
          d.buf,
          d.cap,
          record { same = refl; room = room; bounded = bounded; grown = omega arith },
          inl (rw long refl, ltb→le (length d.buf) (d.buf_pos + n) long),
        )
      ]

  -- `ensureBytes(n)` never panics: it ends with `n` unread bytes in the buffer, or returns an error
  -- of the reader, and no byte is lost or reordered.
  pub ensure_bytes-Fills :
      (n : ℕ) (d : Decoder) → HasRoom d.buf d.cap → All P d.reader → Fills n d (ensure_bytes n d)
  unfolding ensure_bytes
  ensure_bytes-Fills n d room bounded = fill-Fills d.reader n d room bounded
