-- ===== src/Decoder/Sequence.antt =====
-- Several frames in one stream, read by one decoder after the other.
use proto_q.Prelude.{ℕ, ◌≡◌, refl, sym, subst, ◌∙◌, arith, List, [], ◌∷◌, ◌++◌, append_assoc, All}
use proto_q.Errors.{Result, ok, ◌>>=◌}
use proto_q.Packet.{PacketData}
use proto_q.Encoder.{encode}
use proto_q.Encoder.Frame.{frame_bytes}
use proto_q.Encoder.Encodable.{IsEncodable}
use proto_q.Stream.{Decoder, add64}
use proto_q.Decoder.{decode, packet}
use proto_q.Decoder.Position.{IsBetween}
use proto_q.Decoder.RoundTrip.{encode-encodable, decode-encode}

-- The counter after so many frames more.
abbrev pub count_up : ℕ → List PacketData → ℕ
count_up count [] = count
count_up count (f ∷ fs) = count_up (add64 count 1) fs

module _ (crc32_ieee : List ℕ → ℕ) where
  -- The frames written one after the other.
  unfoldable pub encode_all : List PacketData → Result (List ℕ)
  encode_all [] = ok []
  encode_all (f ∷ fs) = do bytes ← encode crc32_ieee f; rest ← encode_all fs; ok (bytes ++ rest)

  -- Calls of `Decode`, one for each frame and with eight rounds each, return the frames in order.
  abbrev pub Reads : Decoder → List PacketData → Decoder → Type 0
  Reads d [] d' = d ≡ d'
  Reads d (f ∷ fs) d' = (d1 : Decoder) × (decode crc32_ieee 8 d ≡ packet f d1) × Reads d1 fs d'

  abbrev all_bytes : List PacketData → List ℕ
  all_bytes [] = []
  all_bytes (f ∷ fs) = frame_bytes crc32_ieee f ++ all_bytes fs

  encode_all-bytes : (fs : List PacketData) → All IsEncodable fs → encode_all fs ≡ ok (all_bytes fs)
  unfolding encode_all
  encode_all-bytes [] e = refl
  encode_all-bytes (f ∷ fs) e = rw (encode-encodable crc32_ieee f e.0, encode_all-bytes fs e.1) refl

  Reads-bytes :
      (fs : List PacketData) (rest : List ℕ) (count : ℕ) (d : Decoder)
      → All IsEncodable fs
      → IsBetween (all_bytes fs ++ rest) count d
      → (d' : Decoder) × Reads d fs d' × IsBetween rest (count_up count fs) d'
  Reads-bytes [] rest count d e between = (d, refl, between)
  Reads-bytes (f ∷ fs) rest count d e between =
      let joined = append_assoc (frame_bytes crc32_ieee f) (all_bytes fs) rest in
      let (d1, first, next) =
        decode-encode crc32_ieee [] (frame_bytes crc32_ieee f) (all_bytes fs ++ rest) count 8 f d
          e.0 (encode-encodable crc32_ieee f e.0) tt
          (subst (λ (t : List ℕ). IsBetween t count d) joined between) (omega arith) in
      let (d', reads, end) = Reads-bytes fs rest (add64 count 1) d1 e.1 next in
      (d', (d1, first, reads), end)

  -- Encodable frames are written one after the other, and a decoder that stands between two frames
  -- is to receive these bytes and any more, cut in any way into reads of at most 4096 bytes without
  -- an error. Then as many calls of `Decode` return exactly these frames in order, the counter has
  -- counted them, and the decoder stands between two frames with the further bytes unread.
  pub decode-encode_all :
      (fs : List PacketData) (bytes rest : List ℕ) (count : ℕ) (d : Decoder)
      → All IsEncodable fs
      → encode_all fs ≡ ok bytes
      → IsBetween (bytes ++ rest) count d
      → (d' : Decoder) × Reads d fs d' × IsBetween rest (count_up count fs) d'
  decode-encode_all fs bytes rest count d e written between =
      let all : ok bytes ≡ ok (all_bytes fs) = sym written ∙ encode_all-bytes fs e in
      let bytes_are : bytes ≡ all_bytes fs = cc in
      Reads-bytes fs rest count d e
        (subst (λ (t : List ℕ). IsBetween (t ++ rest) count d) bytes_are between)
