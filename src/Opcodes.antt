-- ===== src/Opcodes.antt =====
-- basic/constant/message_id.go: the opcodes of the protocol's own messages, and the ranges of all.
pub mod Ranges
use proto_q.Prelude.{ℕ, Bool, leb, ltb, ◌&&◌}

abbrev pub opcode_negotiate : ℕ
opcode_negotiate = 0x0001

abbrev pub opcode_heartbeat : ℕ
opcode_heartbeat = 0x0002

abbrev pub opcode_disconnect : ℕ
opcode_disconnect = 0x0003

abbrev pub opcode_err_unknown : ℕ
opcode_err_unknown = 0xFF00

abbrev pub opcode_err_negotiate_failed : ℕ
opcode_err_negotiate_failed = 0xFF01

abbrev pub opcode_err_unauthorized : ℕ
opcode_err_unauthorized = 0xFF02

abbrev pub opcode_err_heartbeat_lost : ℕ
opcode_err_heartbeat_lost = 0xFF03

abbrev pub opcode_err_internal : ℕ
opcode_err_internal = 0xFF04

abbrev pub opcode_err_rate_limit : ℕ
opcode_err_rate_limit = 0xFF05

abbrev pub sys_opcode_start : ℕ
sys_opcode_start = 0x0000

abbrev pub sys_opcode_end : ℕ
sys_opcode_end = 0x0100

abbrev pub biz_opcode_start : ℕ
biz_opcode_start = 0x0100

abbrev pub biz_opcode_end : ℕ
biz_opcode_end = 0xFF00

abbrev pub err_opcode_start : ℕ
err_opcode_start = 0xFF00

abbrev pub err_opcode_end : ℕ
err_opcode_end = 0x10000

unfoldable pub is_system_opcode : ℕ → Bool
is_system_opcode op = leb sys_opcode_start op && ltb op sys_opcode_end

unfoldable pub is_biz_opcode : ℕ → Bool
is_biz_opcode op = leb biz_opcode_start op && ltb op biz_opcode_end

unfoldable pub is_error_opcode : ℕ → Bool
is_error_opcode op = leb err_opcode_start op && ltb op err_opcode_end
