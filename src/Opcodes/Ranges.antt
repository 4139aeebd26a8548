-- ===== src/Opcodes/Ranges.antt =====
-- How the opcodes are parted.
use proto_q.Prelude.{ℕ, ◌≤◌, ◌<◌, ◌≡◌, ◌⊎◌, arith, true, false}
use proto_q.Opcodes.{is_system_opcode, is_biz_opcode, is_error_opcode}

-- Every opcode of two bytes is in exactly one of the three ranges, and a greater one in none.
pub opcode_ranges :
    (op : ℕ)
    → (op < 0x10000
        → ((is_system_opcode op ≡ true) × (is_biz_opcode op ≡ false) × (is_error_opcode op ≡ false))
          ⊎ (((is_system_opcode op ≡ false)
                × (is_biz_opcode op ≡ true)
                × (is_error_opcode op ≡ false))
              ⊎ ((is_system_opcode op ≡ false)
                  × (is_biz_opcode op ≡ false)
                  × (is_error_opcode op ≡ true))))
      × (0x10000 ≤ op
          → (is_system_opcode op ≡ false)
            × (is_biz_opcode op ≡ false)
            × (is_error_opcode op ≡ false))
unfolding is_system_opcode is_biz_opcode is_error_opcode
opcode_ranges op = (λ h. ground arith, λ h. ground arith)
