-- ===== src/Decoder/Skipping.antt =====
-- Frames with a wrong checksum are passed over by `Decode` of conn/decoder.go.
use proto_q.Prelude.{
  ℕ, ◌+◌, ◌≡◌, ◌≢◌, ap, sym, subst, ◌∙◌, arith, false, List, [], ◌∷◌, ◌++◌, append_assoc,
  append-nil, length, All,
}
use proto_q.Errors.{ok, ok_injective}
use proto_q.Flags.{crc_len}
use proto_q.Packet.{PacketData}
use proto_q.Encoder.{magic_byte, encode}
use proto_q.Encoder.Frame.{sealed, crc_bytes, frame_bytes}
use proto_q.Encoder.Encodable.{IsEncodable}
use proto_q.Stream.{Decoder, add64}
use proto_q.Decoder.{decode, packet}
use proto_q.Decoder.Build.{accepts}
use proto_q.Decoder.Position.{IsBetween}
use proto_q.Decoder.Reaching.{Reaches, Reaches-here, Reaches-trans}
use proto_q.Decoder.Passing.{IsIn-content, IsIdle, skip_noise, skip_frame, return_frame}
use proto_q.Decoder.RoundTrip.{encode-encodable, accepts-crc_bytes, length-crc_bytes}

-- A frame as it arrives: noise, fields, and what stands in the place of the checksum.
pub record Arrival : Type 0 where
  pub noise : List ℕ
  pub fields : PacketData
  pub crc : List ℕ

-- The bytes of the arrivals, one after the other.
unfoldable pub arrived : List Arrival → List ℕ
arrived [] = []
arrived (a ∷ xs) = (a.noise ++ sealed a.crc a.fields) ++ arrived xs

module _ (crc32_ieee : List ℕ → ℕ) where
  -- The header and the lengths are in order, but the checksum is not that of the bytes.
  pub record IsCorrupted (a : Arrival) : Type 0 where
    pub quiet : All (λ x. x ≢ magic_byte) a.noise
    pub encodable : IsEncodable a.fields
    pub size : length a.crc ≡ crc_len a.fields.flags
    pub wrong : accepts crc32_ieee a.crc a.fields ≡ false

  -- The rounds that the arrivals take: one for each byte of noise, and eight for the frame.
  unfoldable pub rounds : List Arrival → ℕ
  rounds [] = 0
  rounds (a ∷ xs) = length a.noise + 8 + rounds xs

  skip_all :
      (xs : List Arrival) (pre rest : List ℕ) (count : ℕ) (d : Decoder)
      → All IsCorrupted xs
      → IsIdle pre (arrived xs ++ rest) count d
      → (d' : Decoder) × Reaches crc32_ieee d d' (rounds xs)
        × IsIdle (pre ++ arrived xs) rest count d'
  unfolding arrived rounds
  skip_all [] pre rest count d bad idle = (
    d,
    Reaches-here crc32_ieee d,
    subst (λ (t : List ℕ). IsIdle t rest count d) (sym (append-nil pre)) idle,
  )
  skip_all (a ∷ xs) pre rest count d bad idle =
      let behind = arrived xs ++ rest in
      let frame = sealed a.crc a.fields in
      let cut : ((a.noise ++ frame) ++ arrived xs) ++ rest ≡ a.noise ++ (frame ++ behind) =
        simp append_assoc in
      let joined : ((pre ++ a.noise) ++ frame) ++ arrived xs
          ≡ pre ++ ((a.noise ++ frame) ++ arrived xs) =
        simp append_assoc in
      let (d1, first, at_frame) =
        skip_noise crc32_ieee (frame ++ behind) count a.noise pre d bad.0.quiet
          (subst (λ (t : List ℕ). IsIdle pre t count d) cut idle) in
      let (d2, second, after) =
        skip_frame crc32_ieee a.crc (pre ++ a.noise) behind count a.fields bad.0.size
          bad.0.encodable d1 at_frame bad.0.wrong in
      let (d3, third, end) = skip_all xs ((pre ++ a.noise) ++ frame) rest count d2 bad.1 after in
      (
        d3,
        Reaches-trans crc32_ieee d d2 d3 (length a.noise + 8) (rounds xs)
            (Reaches-trans crc32_ieee d d1 d2 (length a.noise) 8 first second) third,
        subst (λ (t : List ℕ). IsIdle t rest count d3) joined end,
      )

  -- A decoder that stands between two frames is to receive, cut in any way into reads of at most
  -- 4096 bytes without an error, any number of frames whose flags and lengths are in order but
  -- whose checksum is wrong, each after bytes other than the magic one, then an encodable frame
  -- that `Encode` wrote, and any more bytes. Then one call of `Decode`, with a round for each byte
  -- of noise and eight for each frame, passes over the frames with a wrong checksum and returns
  -- the other one; one frame is counted, and the decoder stands between two frames with exactly
  -- the further bytes unread.
  pub decode-arrived :
      (xs : List Arrival) (bytes rest : List ℕ) (count : ℕ) (f : PacketData) (d : Decoder)
      → All IsCorrupted xs
      → IsEncodable f
      → encode crc32_ieee f ≡ ok bytes
      → IsBetween (arrived xs ++ (bytes ++ rest)) count d
      → (d' : Decoder) × (decode crc32_ieee (rounds xs + 8) d ≡ packet f d')
        × IsBetween rest (add64 count 1) d'
  unfolding frame_bytes
  decode-arrived xs bytes rest count f d bad e written between =
      let bytes_are : bytes ≡ frame_bytes crc32_ieee f =
        ok_injective (sym written ∙ encode-encodable crc32_ieee f e) in
      let start : IsIdle [] (arrived xs ++ (frame_bytes crc32_ieee f ++ rest)) count d = record {
        within =
            IsIn-content (ap (λ (t : List ℕ). arrived xs ++ (t ++ rest)) bytes_are) between.idle;
        no_body = between.no_body;
      } in
      let (d1, skips, there) =
        skip_all xs [] (frame_bytes crc32_ieee f ++ rest) count d bad start in
      let (d', yields, end) =
        return_frame crc32_ieee (crc_bytes crc32_ieee f) (arrived xs) rest count f
          (length-crc_bytes crc32_ieee f) e d1 there (accepts-crc_bytes crc32_ieee f) in
      (d', skips 8 (packet f d') yields (rounds xs + 8) (omega arith), end)
