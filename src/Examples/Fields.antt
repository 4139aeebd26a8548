-- ===== src/Examples/Fields.antt =====
-- Flags, constructors and integer fields at concrete inputs.
use proto_q.Prelude.{◌≡◌, ◌≢◌, ◌↔◌, arith, true, false, none, ltb, if◌then◌else◌}
use proto_q.Flags.{
  IsByte, is_response, requires_ack, has_body_len, seq_len, validate, set_dir, set_requires_ack,
  set_body_len, set_opcode_len, set_seq_len, set_crc_len,
}
use proto_q.Flags.Setters.{layout, stored_len, setters-layout}
use proto_q.Flags.Validity.{validate-none_iff}

setters-layout_example :
    (IsByte (set_dir 0x6b true)
      × (layout (set_dir 0x6b true) ≡ record (layout 0x6b) { response = true }))
    × (IsByte (set_requires_ack 0x6b true)
        × (layout (set_requires_ack 0x6b true) ≡ record (layout 0x6b) { ack = true }))
    × (IsByte (set_body_len 0x6b true)
        × (layout (set_body_len 0x6b true) ≡ record (layout 0x6b) { body = true }))
    × (IsByte (set_opcode_len 0x6b 4)
        × (layout (set_opcode_len 0x6b 4) ≡ record (layout 0x6b) { opcode_bytes = stored_len 4 }))
    × (IsByte (set_seq_len 0x6b 4)
        × (layout (set_seq_len 0x6b 4) ≡ record (layout 0x6b) { seq_bytes = stored_len 4 }))
    × (IsByte (set_crc_len 0x6b 4)
        × (layout (set_crc_len 0x6b 4)
            ≡ record (layout 0x6b) { crc_bytes = if ltb 0 4 then 2 else 0 }))
setters-layout_example = setters-layout 0x6b true 4 (omega arith)

validate-none_iff_example : (validate 0x6b true ≡ none) ↔ (
    (requires_ack 0x6b ≡ true → seq_len 0x6b ≢ 0)
    × (is_response 0x6b ≡ true → requires_ack 0x6b ≡ false)
    × (has_body_len 0x6b ≡ false → true ≡ false))
validate-none_iff_example = validate-none_iff 0x6b true
