-- ===== src/Decoder/Fields.antt =====
-- The fields of a frame among what surrounds it in the stream.
use proto_q.Prelude.{
  ℕ, ◌+◌, ◌≡◌, arith, List, [], ◌∷◌, ◌++◌, append_assoc, length, length-append, replicate,
}
use proto_q.Flags.{opcode_len, seq_len}
use proto_q.Packet.{PacketData, pad_len}
use proto_q.Packet.Integers.{field_bytes, length-field_bytes}
use proto_q.Encoder.{magic_byte, length_field}
use proto_q.Encoder.Frame.{
  length_bytes, covered, sealed, length-length_bytes, opcode_len-IsFieldLen, seq_len-IsFieldLen,
}

module _ (crc : List ℕ) (pre rest : List ℕ) (f : PacketData) where
  abbrev pub opcode_field : List ℕ
  opcode_field = field_bytes f.opcode (opcode_len f.flags)

  abbrev pub seq_field : List ℕ
  seq_field = field_bytes f.seq (seq_len f.flags)

  abbrev pub head : List ℕ
  head = pre ++ (magic_byte ∷ f.flags ∷ length_bytes f)

  abbrev pub trailer : List ℕ
  trailer = replicate (pad_len (length (magic_byte ∷ (covered f ++ crc)))) 0

  abbrev pub content : List ℕ
  content = pre ++ (sealed crc f ++ rest)

  abbrev pub behind : List ℕ
  behind = crc ++ (trailer ++ rest)

  pub at_opcode : content ≡ head ++ (opcode_field ++ (seq_field ++ (f.body ++ behind)))
  unfolding covered
  at_opcode = simp append_assoc

  pub at_seq : content ≡ (head ++ opcode_field) ++ (seq_field ++ (f.body ++ behind))
  unfolding covered
  at_seq = simp append_assoc

  pub at_body : content ≡ (head ++ (opcode_field ++ seq_field)) ++ (f.body ++ behind)
  unfolding covered
  at_body = simp append_assoc

  pub at_crc : content ≡ (pre ++ (magic_byte ∷ covered f)) ++ behind
  at_crc = simp append_assoc

  pub at_flags : content ≡ (pre ++ (magic_byte ∷ [])) ++ (covered f ++ behind)
  at_flags = simp append_assoc

  pub length-head : length head ≡ length pre + 2 + length_field f
  length-head =
      omega
        (arith, length-length_bytes f, length-append pre (magic_byte ∷ f.flags ∷ length_bytes f))

  pub length-opcode_field : length opcode_field ≡ opcode_len f.flags
  length-opcode_field = length-field_bytes f.opcode _ (opcode_len-IsFieldLen f.flags)

  pub length-seq_field : length seq_field ≡ seq_len f.flags
  length-seq_field = length-field_bytes f.seq _ (seq_len-IsFieldLen f.flags)
