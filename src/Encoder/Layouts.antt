-- ===== src/Encoder/Layouts.antt =====
-- When a frame whose flags byte has a given layout is encodable.
use proto_q.Prelude.{◌+◌, ◌^◌, ◌<◌, ◌≡◌, ◌≢◌, sym, ◌∙◌, subst, true, false, length}
use proto_q.Flags.Setters.{Layout, layout}
use proto_q.Flags.Chain.{HasLayout}
use proto_q.Flags.Validity.{validate-none_iff}
use proto_q.Packet.{PacketData, has_body}
use proto_q.Encoder.Encodable.{IsEncodable}

-- The conditions on a layout for the fields of a frame.
pub record Fits (f : PacketData) (l : Layout) : Type 0 where
  pub numbered : l.ack ≡ true → l.seq_bytes ≢ 0
  pub one_way : l.response ≡ true → l.ack ≡ false
  pub bodied : l.body ≡ has_body f.body
  pub opcode : f.opcode < 256 ^ l.opcode_bytes
  pub seq : f.seq < 256 ^ l.seq_bytes
  pub payload : l.opcode_bytes + l.seq_bytes + length f.body + l.crc_bytes < 2 ^ 16

own_layout : (f : PacketData) → Fits f (layout f.flags) → IsEncodable f
unfolding layout
own_layout f h = record {
  valid =
      (validate-none_iff f.flags (has_body f.body)).1
        (h.numbered, h.one_way, λ bare. sym h.bodied ∙ bare);
  opcode_fits = h.opcode;
  seq_fits = h.seq;
  payload_fits = h.payload;
}

pub Fits-IsEncodable :
    (f : PacketData) (l : Layout) → HasLayout f.flags l → Fits f l → IsEncodable f
Fits-IsEncodable f l has h = own_layout f (subst (λ (m : Layout). Fits f m) (sym has.1) h)
