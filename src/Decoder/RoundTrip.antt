-- ===== src/Decoder/RoundTrip.antt =====
-- Frames decoded back from a stream, however the reader cuts it into pieces.
use proto_q.Prelude.{
  ℕ, ◌+◌, ◌≤◌, ◌≡◌, ◌≢◌, refl, ap, sym, ◌∙◌, Bool, true, ltb, if◌then◌else◌, List, [], ◌++◌, length,
  Bool-cases, inl, inr, All,
}
use proto_q.Errors.{ok, ok_injective}
use proto_q.Flags.{crc_len, validate}
use proto_q.Packet.{PacketData, has_body}
use proto_q.Encoder.{magic_byte, encode}
use proto_q.Encoder.Frame.{covered, crc_bytes, frame_bytes, length-compute_crc}
use proto_q.Encoder.Stores.{encoded, encode-frame_bytes}
use proto_q.Encoder.Encodable.{IsEncodable}
use proto_q.Stream.{Decoder, add64}
use proto_q.Decoder.{decode, packet}
use proto_q.Decoder.Position.{IsBetween}
use proto_q.Crc.{verify_crc}
use proto_q.Decoder.Build.{accepts, verify_crc-compute_crc}
use proto_q.Decoder.Passing.{IsIn-content, IsIdle, skip_noise, return_frame}

-- The checksum that `Encode` writes is accepted.
pub accepts-crc_bytes :
    (crc32_ieee : List ℕ → ℕ) (f : PacketData)
    → accepts crc32_ieee (crc_bytes crc32_ieee f) f ≡ true
unfolding crc_bytes
accepts-crc_bytes crc32_ieee f =
    let check : Bool =
      verify_crc crc32_ieee (covered f) (crc_bytes crc32_ieee f) (crc_len f.flags) in
    let accepted : check ≡ true = verify_crc-compute_crc crc32_ieee (covered f) (crc_len f.flags) in
    elim (Bool-cases (ltb 0 (crc_len f.flags))) [
      | inl e ↦ ap (λ (b : Bool). if b then check else true) e ∙ accepted
      | inr e ↦ ap (λ (b : Bool). if b then check else true) e
    ]

pub length-crc_bytes :
    (crc32_ieee : List ℕ → ℕ) (f : PacketData) → length (crc_bytes crc32_ieee f) ≡ crc_len f.flags
unfolding crc_bytes
length-crc_bytes crc32_ieee f = length-compute_crc crc32_ieee f.flags (covered f)

pub encode-encodable :
    (crc32_ieee : List ℕ → ℕ) (f : PacketData)
    → IsEncodable f
    → encode crc32_ieee f ≡ ok (frame_bytes crc32_ieee f)
encode-encodable crc32_ieee f e =
    let valid : encoded (validate f.flags (has_body f.body)) (frame_bytes crc32_ieee f)
        ≡ ok (frame_bytes crc32_ieee f) =
      rw e.valid refl in
    (encode-frame_bytes crc32_ieee f).0 ∙ valid

-- `Decode` gives back a frame that `Encode` wrote. The decoder stands between two frames; its
-- buffer and its reader hold, cut in any way into reads of at most 4096 bytes without an error,
-- some bytes other than the magic one, the encoding of an encodable frame, and any more bytes.
-- Then, in a round for each byte of noise and eight more, the frame is returned, one more frame is
-- counted, and the decoder stands between two frames again with exactly the further bytes unread.
pub decode-encode :
    (crc32_ieee : List ℕ → ℕ) (noise bytes rest : List ℕ) (count fuel : ℕ) (f : PacketData)
    (d : Decoder)
    → IsEncodable f
    → encode crc32_ieee f ≡ ok bytes
    → All (λ x. x ≢ magic_byte) noise
    → IsBetween (noise ++ (bytes ++ rest)) count d
    → length noise + 8 ≤ fuel
    → (d' : Decoder) × (decode crc32_ieee fuel d ≡ packet f d') × IsBetween rest (add64 count 1) d'
unfolding frame_bytes
decode-encode crc32_ieee noise bytes rest count fuel f d e written quiet between enough =
    let bytes_are : bytes ≡ frame_bytes crc32_ieee f =
      ok_injective (sym written ∙ encode-encodable crc32_ieee f e) in
    let idle : IsIdle [] (noise ++ (frame_bytes crc32_ieee f ++ rest)) count d = record {
      within = IsIn-content (ap (λ (t : List ℕ). noise ++ (t ++ rest)) bytes_are) between.idle;
      no_body = between.no_body;
    } in
    let (d1, skips, there) =
      skip_noise crc32_ieee (frame_bytes crc32_ieee f ++ rest) count noise [] d quiet idle in
    let (d', yields, end) =
      return_frame crc32_ieee (crc_bytes crc32_ieee f) noise rest count f
        (length-crc_bytes crc32_ieee f) e d1 there (accepts-crc_bytes crc32_ieee f) in
    (d', skips 8 (packet f d') yields fuel enough, end)
