-- ===== src/Decoder/Garbled.antt =====
-- A frame with CRC-16 that was changed on its way to `Decode` of conn/decoder.go.
use proto_q.Prelude.{
  ℕ, ◌+◌, ◌^◌, ◌<◌, ◌≡◌, ◌≢◌, ap, sym, subst, ◌∙◌, arith, false, List, [], ◌∷◌, ◌++◌, append-nil,
  length, All, All-split,
}
use proto_q.Errors.{ok}
use proto_q.Flags.{IsByte, crc_len}
use proto_q.Packet.{PacketData, be16}
use proto_q.Crc.{crc16_ibm, compute_crc, verify_crc, same_bytes}
use proto_q.Crc.Detect.{crc16_ibm_detects, crc16_ibm-lt}
use proto_q.Encoder.{magic_byte, encode}
use proto_q.Encoder.Frame.{covered, sealed, crc_bytes}
use proto_q.Encoder.Encodable.{IsEncodable}
use proto_q.Stream.{Decoder, add64}
use proto_q.Decoder.{decode, packet}
use proto_q.Decoder.Build.{accepts}
use proto_q.Decoder.Position.{IsBetween}
use proto_q.Decoder.RoundTrip.{length-crc_bytes}
use proto_q.Decoder.Skipping.{Arrival, arrived, IsCorrupted, rounds, decode-arrived}

same_bytes-be16 : (v w : ℕ) → v < 2 ^ 16 → w < 2 ^ 16 → v ≢ w → same_bytes (be16 v) (be16 w) ≡ false
unfolding same_bytes
same_bytes-be16 v w hv hw differs = ground arith

-- `VerifyCRC` compares two checksums of two bytes.
verify_crc16 :
    (crc32_ieee : List ℕ → ℕ) (xs ys : List ℕ)
    → All IsByte xs
    → All IsByte ys
    → crc16_ibm xs ≢ crc16_ibm ys
    → verify_crc crc32_ieee ys (compute_crc crc32_ieee xs 2) 2 ≡ false
unfolding verify_crc compute_crc
verify_crc16 crc32_ieee xs ys hx hy differs =
    same_bytes-be16 (crc16_ibm ys) (crc16_ibm xs) (crc16_ibm-lt ys hy) (crc16_ibm-lt xs hx)
      (λ e. differs (sym e))

-- What was sent, and what arrives in its place: the flags and the lengths are as they were, and at
-- most two neighbouring bytes of the others are not.
pub record IsGarbled (f g : PacketData) : Type 0 where
  pub encodable : IsEncodable g
  pub flags : g.flags ≡ f.flags
  pub front : List ℕ
  pub back : List ℕ
  pub a : ℕ
  pub b : ℕ
  pub x : ℕ
  pub y : ℕ
  pub sent : covered f ≡ front ++ (a ∷ b ∷ back)
  pub received : covered g ≡ front ++ (x ∷ y ∷ back)
  pub sent_bytes : All IsByte (covered f)
  pub received_bytes : All IsByte (covered g)
  pub changed : ¬ ((a ≡ x) × (b ≡ y))

abbrev bytes_of : {f g : PacketData} → IsGarbled f g → ℕ → ℕ → List ℕ
bytes_of h u v = h.front ++ (u ∷ v ∷ h.back)

garbled-differs : (f g : PacketData) → IsGarbled f g → crc16_ibm (covered f) ≢ crc16_ibm (covered g)
garbled-differs f g h same =
    let sent : All IsByte (bytes_of h h.a h.b) = subst (All IsByte) h.sent h.sent_bytes in
    let received : All IsByte (bytes_of h h.x h.y) =
      subst (All IsByte) h.received h.received_bytes in
    let (front, tail) = All-split IsByte h.front (h.a ∷ h.b ∷ h.back) sent in
    let (_, tail') = All-split IsByte h.front (h.x ∷ h.y ∷ h.back) received in
    crc16_ibm_detects h.front h.back h.a h.b h.x h.y front tail.1.1 tail.0 tail.1.0 tail'.0
      tail'.1.0 h.changed (ap crc16_ibm (sym h.sent) ∙ same ∙ ap crc16_ibm h.received)

module _ (crc32_ieee : List ℕ → ℕ) where
  garbled-rejected :
      (f g : PacketData)
      → IsGarbled f g
      → crc_len f.flags ≡ 2
      → accepts crc32_ieee (crc_bytes crc32_ieee f) g ≡ false
  unfolding crc_bytes
  garbled-rejected f g h crc16 =
      let crc16' : crc_len g.flags ≡ 2 = ap crc_len h.flags ∙ crc16 in
      rw (crc16, crc16')
        (verify_crc16 crc32_ieee (covered f) (covered g) h.sent_bytes h.received_bytes
          (garbled-differs f g h))

  -- A frame with CRC-16 has changed on its way in one byte, or in two neighbouring ones, of its
  -- opcode, number and body, and is otherwise as it was: the magic byte, flags, length, checksum and
  -- padding are. It stands after bytes other than the magic one, and before
  -- an encodable frame that `Encode` wrote. A decoder that stands between two frames is to receive
  -- this and any more bytes, cut in any way into reads of at most 4096 bytes without an error. Then
  -- one call of `Decode` passes over the changed frame and returns the other one; one frame is
  -- counted, and the decoder stands between two frames with exactly the further bytes unread.
  pub decode-garbled :
      (noise bytes rest : List ℕ) (count : ℕ) (f g next : PacketData) (d : Decoder)
      → IsGarbled f g
      → crc_len f.flags ≡ 2
      → All (λ x. x ≢ magic_byte) noise
      → IsEncodable next
      → encode crc32_ieee next ≡ ok bytes
      → IsBetween ((noise ++ sealed (crc_bytes crc32_ieee f) g) ++ (bytes ++ rest)) count d
      → (d' : Decoder) × (decode crc32_ieee (length noise + 16) d ≡ packet next d')
        × IsBetween rest (add64 count 1) d'
  unfolding arrived rounds
  decode-garbled noise bytes rest count f g next d h crc16 quiet e written between =
      let crc = crc_bytes crc32_ieee f in
      let garbled : Arrival = record { noise = noise; fields = g; crc = crc } in
      let corrupted : IsCorrupted crc32_ieee garbled = record {
        quiet = quiet;
        encodable = h.encodable;
        size = length-crc_bytes crc32_ieee f ∙ ap crc_len (sym h.flags);
        wrong = garbled-rejected f g h crc16;
      } in
      let joined = append-nil (noise ++ sealed crc g) in
      let (d', decodes, end) =
        decode-arrived crc32_ieee (garbled ∷ []) bytes rest count next d (corrupted, tt) e written
          (subst (λ (t : List ℕ). IsBetween (t ++ (bytes ++ rest)) count d) (sym joined) between) in
      let fuel : rounds crc32_ieee (garbled ∷ []) + 8 ≡ length noise + 16 = omega arith in
      (d', ap (λ n. decode crc32_ieee n d) (sym fuel) ∙ decodes, end)
