-- ===== src/Stream/Ready.antt =====
-- `ensureBytes` of conn/decoder.go: when the bytes it waits for arrive, it succeeds.
use proto_q.Prelude.{
  ℕ, ◌+◌, ◌≤◌, ◌≡◌, refl, ◌∙◌, arith, none, le→ltb, List, [], ◌∷◌, ◌++◌, append_assoc, append-nil,
  length, length-append, All, ◌⊎◌, inl, inr, Bool-cases, ltb→le,
}
use proto_q.Stream.{Decoder, Read, ready, read_buffer_size, grown_cap, is_short, fill, ensure_bytes}

-- The bytes that the reader has still to deliver.
unfoldable pub pending : List Read → List ℕ
pending [] = []
pending (r ∷ rs) = r.bytes ++ pending rs

-- A reader that reports no error before its end, and delivers at most 4096 bytes at a time: there
-- is always room for so many.
abbrev pub IsCalm : List Read → Type 0
IsCalm = All (λ r. (r.error ≡ none) × (length r.bytes ≤ read_buffer_size))

-- A buffer as `ensureBytes` makes it.
abbrev pub HasRoom : List ℕ → ℕ → Type 0
HasRoom buf cap = (length buf ≤ cap) × ((cap ≡ 0) ⊎ (read_buffer_size ≤ cap))

pub grown_cap_room :
    (buf : List ℕ) (cap : ℕ)
    → HasRoom buf cap
    → (length buf + read_buffer_size ≤ grown_cap cap (length buf))
      × (read_buffer_size ≤ grown_cap cap (length buf))
unfolding grown_cap
grown_cap_room buf cap h = ground arith

-- The whole of what the decoder has and is to receive.
abbrev pub whole : Decoder → List ℕ
whole d = d.buf ++ pending d.reader

abbrev pub refilled : Decoder → List Read → List ℕ → ℕ → Decoder
refilled d rs buf cap = record d { reader = rs; buf = buf; cap = cap }

pub record IsRefill (d : Decoder) (n : ℕ) (rs : List Read) (buf : List ℕ) (cap : ℕ) : Type 0 where
  pub outcome : ensure_bytes n d ≡ ready (refilled d rs buf cap)
  pub same : buf ++ pending rs ≡ whole d
  pub room : HasRoom buf cap
  pub calm : IsCalm rs
  pub enough : d.buf_pos + n ≤ length buf

fill-ready :
    (rs : List Read) (n : ℕ) (d : Decoder)
    → HasRoom d.buf d.cap
    → IsCalm rs
    → d.buf_pos + n ≤ length (d.buf ++ pending rs)
    → (rs' : List Read) × (buf : List ℕ) × (cap : ℕ) × (fill rs n (record d { reader = rs })
        ≡ ready (refilled d rs' buf cap))
      × (buf ++ pending rs' ≡ d.buf ++ pending rs)
      × HasRoom buf cap
      × IsCalm rs'
      × (d.buf_pos + n ≤ length buf)
unfolding fill pending
fill-ready [] n d room calm h =
    let fits : d.buf_pos + n ≤ length d.buf = rw (append-nil d.buf) at h in
    ([], d.buf, d.cap, rw (le→ltb (length d.buf) (d.buf_pos + n) fits), refl, room, tt, fits)
fill-ready (r ∷ rs) n d room calm h = elim (Bool-cases (is_short d n)) [
  | inl short ↦
      let next : Decoder = record d {
        buf = d.buf ++ r.bytes;
        cap = grown_cap d.cap (length d.buf);
      } in
      let space = grown_cap_room d.buf d.cap room in
      let fits : length (d.buf ++ r.bytes) ≤ grown_cap d.cap (length d.buf) =
        omega (arith, length-append d.buf r.bytes) in
      let joined = append_assoc d.buf r.bytes (pending rs) in
      let ih = fill-ready rs n next (fits, inr space.1) calm.1 (rw joined h) in
      (
        ih.0,
        ih.1,
        ih.2,
        rw (short, le→ltb _ _ fits, calm.0.0) ih.3,
        ih.4 ∙ joined,
        ih.5,
        ih.6,
        ih.7,
      )
  | inr long ↦
      (r ∷ rs, d.buf, d.cap, rw long, refl, room, calm, ltb→le (length d.buf) (d.buf_pos + n) long)
]

-- `ensureBytes(n)` succeeds once the reader has `n` unread bytes to deliver, and changes nothing
-- but the reader, the buffer and its capacity; no byte is lost or reordered.
pub ensure_bytes-ready :
    (n : ℕ) (d : Decoder)
    → HasRoom d.buf d.cap
    → IsCalm d.reader
    → d.buf_pos + n ≤ length (whole d)
    → (rs : List Read) × (buf : List ℕ) × (cap : ℕ) × IsRefill d n rs buf cap
unfolding ensure_bytes
ensure_bytes-ready n d room calm h =
    let r = fill-ready d.reader n d room calm h in
    (r.0, r.1, r.2, record { outcome = r.3; same = r.4; room = r.5; calm = r.6; enough = r.7 })
