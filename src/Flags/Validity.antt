-- ===== src/Flags/Validity.antt =====
-- Which flags `Validate` accepts, and the codes of the length fields.
use proto_q.Prelude.{ℕ, ◌≡◌, ◌≢◌, ◌↔◌, Bool, true, false, none, arith, ltb, if◌then◌else◌}
use proto_q.Flags.{
  Flags, is_response, requires_ack, has_body_len, opcode_len, seq_len, crc_len, validate,
  encode_opcode_len, encode_seq_len, encode_crc_len,
}
use proto_q.Flags.Setters.{stored_len}

-- `Validate` returns nil exactly for the flags that meet the three documented constraints.
pub validate-none_iff :
    (f : Flags) (has_body : Bool)
    → (validate f has_body ≡ none) ↔ (
        (requires_ack f ≡ true → seq_len f ≢ 0)
        × (is_response f ≡ true → requires_ack f ≡ false)
        × (has_body_len f ≡ false → has_body ≡ false))
unfolding validate
validate-none_iff f has_body = (λ h. ground arith, λ h. ground arith)

-- The codes of `EncodeOpcodeLen`, `EncodeSeqLen` and `EncodeCRCLen` are read back by the getters.
pub getters-encode :
    (n : ℕ)
    → (opcode_len (encode_opcode_len n) ≡ stored_len n)
      × (seq_len (encode_seq_len n) ≡ stored_len n)
      × (crc_len (encode_crc_len n) ≡ (if ltb 0 n then 2 else 0))
unfolding opcode_len seq_len crc_len encode_opcode_len encode_seq_len encode_crc_len
getters-encode n = ground arith
