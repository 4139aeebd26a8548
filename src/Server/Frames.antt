-- ===== src/Server/Frames.antt =====
-- The frames of server/server.go.
use proto_q.Prelude.{ℕ, ◌+◌, ◌^◌, ◌<◌, ◌≡◌, refl, ap, arith, true, false, List, length}
use proto_q.Flags.{Flags, seq_len, crc_len}
use proto_q.Flags.Setters.{Layout, layout, stored_len}
use proto_q.Flags.Chain.{HasLayout, opcode_step}
use proto_q.Packet.{PacketData, has_body, is_response_packet, new_response_packet}
use proto_q.Packet.Laws.{shape, new_response_packet-layout}
use proto_q.Encoder.Encodable.{IsEncodable}
use proto_q.Encoder.Layouts.{Fits-IsEncodable}
use proto_q.Server.{Server, response_frame}

pub response_frame-layout :
    (request : PacketData) (body : List ℕ) (s : Server)
    → HasLayout (response_frame request body s).flags (
        shape true false
          (has_body body)
          (stored_len s.op_len)
          (seq_len request.flags)
          (crc_len request.flags))
unfolding new_response_packet
response_frame-layout request body s =
    opcode_step (new_response_packet-layout request.opcode request.seq body request.flags) s.op_len

pub response_frame-is_response :
    (request : PacketData) (body : List ℕ) (s : Server)
    → is_response_packet (response_frame request body s) ≡ true
unfolding is_response_packet layout
response_frame-is_response request body s =
    ap (λ (l : Layout). l.response) (response_frame-layout request body s).1

payload-fits :
    (a n : ℕ) (f : Flags) → n + 10 < 2 ^ 16 → stored_len a + seq_len f + n + crc_len f < 2 ^ 16
unfolding seq_len crc_len
payload-fits a n f h = ground arith

-- The response to a request that was encodable can be encoded, where the opcode fits the field that
-- the server gives it and the body leaves room for the other fields.
pub response_frame-IsEncodable :
    (request : PacketData) (body : List ℕ) (s : Server)
    → IsEncodable request
    → request.opcode < 256 ^ stored_len s.op_len
    → length body + 10 < 2 ^ 16
    → IsEncodable (response_frame request body s)
unfolding new_response_packet
response_frame-IsEncodable request body s h opcode_fits body_fits =
    Fits-IsEncodable _ _ (response_frame-layout request body s) (record {
      numbered = λ e. cc;
      one_way = λ _. refl;
      bodied = refl;
      opcode = opcode_fits;
      seq = h.seq_fits;
      payload = payload-fits s.op_len (length body) request.flags body_fits;
    })
