-- ===== src/Encoder/Encodable.antt =====
-- The frames whose fields fit the lengths that their flags announce.
use proto_q.Prelude.{◌^◌, ◌<◌, ◌≡◌, none}
use proto_q.Flags.{opcode_len, seq_len, validate}
use proto_q.Packet.{PacketData, has_body}
use proto_q.Encoder.{payload_len}

pub record IsEncodable (f : PacketData) : Type 0 where
  pub valid : validate f.flags (has_body f.body) ≡ none
  pub opcode_fits : f.opcode < 256 ^ opcode_len f.flags
  pub seq_fits : f.seq < 256 ^ seq_len f.flags
  pub payload_fits : payload_len f < 2 ^ 16
