-- ===== src/Decoder/Cutting/Same.antt =====
-- Two decoders that differ only in what is in the buffer already and what is still to be read.
use proto_q.Prelude.{
  ℕ, ◌+◌, ◌≤◌, ◌<◌, ◌≡◌, ◌⊎◌, inl, inr, refl, sym, ◌∙◌, arith, true, lt→ltb, le→ltb, List, [], ◌∷◌,
  ◌++◌, append_assoc, append-nil, length, length-append,
}
use proto_q.Stream.{Decoder, Read, eof, stopped, grown_cap, is_short, fill, ensure_bytes}
use proto_q.Stream.Ready.{
  IsCalm, HasRoom, pending, whole, refilled, grown_cap_room, ensure_bytes-ready,
}
use proto_q.Decoder.{Turn, again, returned, gave_up, crashed, on_ready}

-- `e` has the fields of `d` but for reader, buffer and capacity, and the same bytes in all.
abbrev pub IsTwin : Decoder → Decoder → Type 0
IsTwin d e = (e ≡ refilled d e.reader e.buf e.cap) × (whole d ≡ whole e)

-- Two rounds with the same outcome.
abbrev pub IsTwinTurn : Turn → Turn → Type 0
IsTwinTurn (again d) (again e) = IsTwin d e
IsTwinTurn (returned f d) (returned g e) = (f ≡ g) × IsTwin d e
IsTwinTurn (gave_up x d) (gave_up y e) = (x ≡ y) × IsTwin d e
IsTwinTurn crashed crashed = Unit
IsTwinTurn _ _ = ⊥

-- Where too few bytes are left, `ensureBytes` reads them all and returns `io.EOF`.
fill-eof :
    (rs : List Read) (n : ℕ) (d : Decoder)
    → HasRoom d.buf d.cap
    → IsCalm rs
    → length (d.buf ++ pending rs) < d.buf_pos + n
    → (rs' : List Read) × (buf : List ℕ) × (cap : ℕ) × (fill rs n (record d { reader = rs })
        ≡ stopped eof (refilled d rs' buf cap))
      × (buf ++ pending rs' ≡ d.buf ++ pending rs)
unfolding fill pending
fill-eof [] n d room calm few =
    let short : is_short d n ≡ true = lt→ltb _ _ (rw (append-nil d.buf) at few) in
    ([], d.buf, grown_cap d.cap (length d.buf), rw short refl, refl)
fill-eof (r ∷ rs) n d room calm few =
    let size = length-append d.buf (r.bytes ++ pending rs) in
    let short : is_short d n ≡ true =
      lt→ltb (length d.buf) (d.buf_pos + n) (omega (arith, size, few)) in
    let space = grown_cap_room d.buf d.cap room in
    let cap = grown_cap d.cap (length d.buf) in
    let fits : length (d.buf ++ r.bytes) ≤ cap =
      omega (arith, length-append d.buf r.bytes, space.0, calm.0.1) in
    let joined = append_assoc d.buf r.bytes (pending rs) in
    let (rs', buf, cap', ends, same) =
      fill-eof rs n (record d { buf = d.buf ++ r.bytes; cap = cap }) (fits, inr space.1) calm.1
        (rw joined few) in
    (
      rs',
      buf,
      cap',
      rw (short, le→ltb cap (length (d.buf ++ r.bytes)) fits, calm.0.0) ends,
      same ∙ joined,
    )

-- A decoder that is ready to be filled.
abbrev pub IsFillable : Decoder → Type 0
IsFillable d = HasRoom d.buf d.cap × IsCalm d.reader

enough-cases : (n m : ℕ) → (n ≤ m) ⊎ (m < n)
enough-cases n m = ground arith

-- Rounds that wait for `n` bytes have the same outcome if they have it on any two buffers that hold
-- them.
pub on_ready-IsTwinTurn :
    (n : ℕ) (d : Decoder) (rs : List Read) (buf : List ℕ) (cap : ℕ) (k : Decoder → Turn)
    → IsFillable d
    → IsFillable (refilled d rs buf cap)
    → whole d ≡ buf ++ pending rs
    → ((rs1 rs2 : List Read) (b1 b2 : List ℕ) (c1 c2 : ℕ)
        → b1 ++ pending rs1 ≡ b2 ++ pending rs2
        → d.buf_pos + n ≤ length b1
        → d.buf_pos + n ≤ length b2
        → IsTwinTurn (k (refilled d rs1 b1 c1)) (k (refilled d rs2 b2 c2)))
    → IsTwinTurn
        (on_ready (ensure_bytes n d) k)
        (on_ready (ensure_bytes n (refilled d rs buf cap)) k)
unfolding ensure_bytes
on_ready-IsTwinTurn n d rs buf cap k h h' same local =
    elim (enough-cases (d.buf_pos + n) (length (whole d))) [
      | inl enough ↦
          let (rs1, b1, c1, r1) = ensure_bytes-ready n d h.0 h.1 enough in
          let (rs2, b2, c2, r2) =
            ensure_bytes-ready n (refilled d rs buf cap) h'.0 h'.1 (rw same at enough) in
          rw (r1.outcome, r2.outcome)
            (local rs1 rs2 b1 b2 c1 c2 (r1.same ∙ same ∙ sym r2.same) r1.enough r2.enough)
      | inr few ↦
          let (rs1, b1, c1, e1, s1) = fill-eof d.reader n d h.0 h.1 few in
          let (rs2, b2, c2, e2, s2) =
            fill-eof rs n (refilled d rs buf cap) h'.0 h'.1 (rw same at few) in
          rw (e1, e2) (refl, (refl, s1 ∙ same ∙ sym s2))
    ]
