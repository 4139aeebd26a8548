-- ===== src/Server/Rounds.antt =====
-- One frame through the loop of server/server.go.
use proto_q.Prelude.{ℕ, ◌≡◌, refl, ap, true, false, Option, none, some, List, [], ◌∷◌, ◌++◌, find}
use proto_q.Errors.{Error, Result, ok, ◌>>=◌}
use proto_q.Packet.{PacketData, is_request_packet, packet_requires_ack}
use proto_q.Encoder.{encode}
use proto_q.Connection.{Done}
use proto_q.Client.Requests.{write_packet-accepted}
use proto_q.Server.{
  ConnContext, ConnHandler, Server, goes, answer_request, response_frame, respond, serve_frame,
  lookup_handler,
}

module _ (crc32_ieee : List ℕ → ℕ) (raw_write : List ℕ → ℕ × Option Error) where
  -- A response is written last on an open connection.
  pub respond-accepted :
      (request : PacketData) (body bytes : List ℕ) (s : Server) (ctx : ConnContext)
      → ctx.conn.closed ≡ false
      → encode crc32_ieee (response_frame request body s) ≡ ok bytes
      → (raw_write bytes).1 ≡ none
      → respond crc32_ieee raw_write request body s ctx
        ≡ ok (record ctx { conn = record ctx.conn { sent = ctx.conn.sent ++ (bytes ∷ []) } })
  respond-accepted request body bytes s ctx is_open encodes accepts =
      ap (λ (r : Result Done). r >>= (λ done. ok (record ctx { conn = done.conn })))
        (write_packet-accepted crc32_ieee raw_write (response_frame request body s) bytes ctx.conn
          is_open encodes accepts)

  pub serve_frame-handled :
      (unknown : ℕ → List ℕ) (frame : PacketData) (handler : ConnHandler) (s : Server)
      (ctx : ConnContext)
      → is_request_packet frame ≡ true
      → packet_requires_ack frame ≡ true
      → find frame.opcode s.handlers ≡ some handler
      → serve_frame crc32_ieee raw_write unknown frame s ctx
        ≡ ok (goes (answer_request frame handler) ctx)
  unfolding serve_frame lookup_handler
  serve_frame-handled unknown frame handler s ctx asks acked there =
      rw (serve_frame, asks, lookup_handler, there, acked) refl
