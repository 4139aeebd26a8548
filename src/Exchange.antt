-- ===== src/Exchange.antt =====
-- A request from client/client.go to server/server.go and back, over conn/encoder.go and
-- conn/decoder.go on both sides.
use proto_q.Prelude.{
  ℕ, ◌+◌, ◌^◌, ◌<◌, ◌≡◌, refl, ap, arith, true, false, Option, none, some, List, [], ◌∷◌, ◌++◌,
  length, find,
}
use proto_q.Errors.{Error, ok}
use proto_q.Flags.{is_request, is_response}
use proto_q.Flags.Setters.{Layout, layout, stored_len}
use proto_q.Packet.{
  PacketData, new_request_packet, new_response_packet, is_request_packet, packet_requires_ack,
}
use proto_q.Encoder.{encode}
use proto_q.Stream.{Decoder}
use proto_q.Decoder.{decode, packet}
use proto_q.Decoder.Position.{IsBetween}
use proto_q.Decoder.RoundTrip.{decode-encode}
use proto_q.Seq.{PendingRequest, new_pending_request, allocate, wait_for_response, response}
use proto_q.Seq.Numbers.{allocate-IsReady}
use proto_q.Client.{Client, request_frame, start_request, read_round}
use proto_q.Client.Frames.{IsNumbering, IsSendable, request_frame-layout, request_frame-IsEncodable}
use proto_q.Client.Requests.{requested, start_request-written, enqueue-pending, read_round-resolves}
use proto_q.Server.{
  Answer, ConnContext, ConnHandler, Server, goes, answer_request, answer_body, response_frame,
  run_task, serve_round, handle_request,
}
use proto_q.Server.Frames.{response_frame-is_response, response_frame-IsEncodable}
use proto_q.Server.Rounds.{respond-accepted, serve_frame-handled}

request_frame-asks :
    (opcode seq : ℕ) (body : List ℕ) (c : Client)
    → (is_request_packet (request_frame opcode seq body c) ≡ true)
      × (packet_requires_ack (request_frame opcode seq body c) ≡ true)
unfolding layout is_request_packet packet_requires_ack is_request is_response
request_frame-asks opcode seq body c =
    let has = (request_frame-layout opcode seq body c).1 in
    let no_response = ap (λ (l : Layout). l.response) has in
    (ground arith, ap (λ (l : Layout). l.ack) has)

module _ (crc32_ieee : List ℕ → ℕ) (client_write server_write : List ℕ → ℕ × Option Error)
    (unknown : ℕ → List ℕ) (opcode pr : ℕ) (body : List ℕ) (handler : ConnHandler) (c : Client)
    (s : Server) (ctx : ConnContext) where
  abbrev pub seq : ℕ
  seq = (allocate c.seq_mgr).0

  abbrev pub request : PacketData
  request = request_frame opcode seq body c

  abbrev pub given_answer : Answer
  given_answer = handler ctx opcode body

  abbrev pub reply : PacketData
  reply = response_frame request (answer_body crc32_ieee server_write given_answer) s

  -- What the two sides do.
  pub record IsExchanged (bytes answer_bytes : List ℕ) (server_side client_side : Decoder)
      : Type 0 where
    pub waiting : Client
    pub received : Decoder
    pub answered : ConnContext
    pub delivered : Decoder
    pub after : Client
    pub pending : PendingRequest
    pub starts :
        start_request crc32_ieee client_write opcode body pr c
        ≡ ok (record { seq = seq; error = none; client = waiting })
    pub writes : waiting.conn.sent ≡ c.conn.sent ++ (bytes ∷ [])
    pub arrives : decode crc32_ieee 8 server_side ≡ packet request received
    pub serves :
        serve_round crc32_ieee server_write unknown (packet request received) s ctx
        ≡ ok (goes (answer_request request handler) ctx)
    pub answers :
        run_task crc32_ieee server_write (answer_request request handler) s ctx ≡ ok answered
    pub writes_back : answered.conn.sent ≡ given_answer.context.conn.sent ++ (answer_bytes ∷ [])
    pub comes_back : decode crc32_ieee 8 client_side ≡ packet reply delivered
    pub reads : read_round (packet reply delivered) waiting ≡ ok (true, after)
    pub settled : find pr after.seq_mgr.requests ≡ some pending
    pub ends : wait_for_response none pending ≡ response reply ∷ []
    pub same_seq : reply.seq ≡ seq
    pub no_number : find seq after.seq_mgr.pending ≡ none

  -- A client that is open, and whose manager is open and hands out numbers of its field's length,
  -- sends a request whose opcode and body fit their fields. The server has a handler for it, which
  -- leaves its connection open and whose answer fits; the opcode fits the server's field too. Both
  -- sockets take what is written, and each side's decoder, between two frames, is to receive what
  -- the other wrote and any more, in reads of at most 4096 bytes without an error. Then the
  -- server's decoder returns the very request, the server answers it with what the handler
  -- returned, the client's decoder returns the very response, and the client's read loop gives it
  -- to the request: waiting for the request returns this response and nothing else, it has the
  -- request's number, and that number is no longer pending.
  pub exchange-IsExchanged :
      (count client_count : ℕ) (bytes answer_bytes rest client_rest : List ℕ)
      (server_side client_side : Decoder)
      → IsNumbering c
      → c.seq_mgr.closed ≡ false
      → c.conn.closed ≡ false
      → IsSendable opcode body c
      → find opcode s.handlers ≡ some handler
      → given_answer.context.conn.closed ≡ false
      → opcode < 256 ^ stored_len s.op_len
      → length (answer_body crc32_ieee server_write given_answer) + 10 < 2 ^ 16
      → encode crc32_ieee request ≡ ok bytes
      → encode crc32_ieee reply ≡ ok answer_bytes
      → (client_write bytes).1 ≡ none
      → (server_write answer_bytes).1 ≡ none
      → IsBetween (bytes ++ rest) count server_side
      → IsBetween (answer_bytes ++ client_rest) client_count client_side
      → IsExchanged bytes answer_bytes server_side client_side
  unfolding serve_round run_task handle_request request_frame new_request_packet new_response_packet
      wait_for_response
  exchange-IsExchanged count client_count bytes answer_bytes rest client_rest server_side
        client_side numbering manager_open client_open sendable there server_open opcode_fits
        body_fits encodes answer_encodes accepts answer_accepts between client_between =
      let encodable = request_frame-IsEncodable opcode body c numbering manager_open sendable in
      let answer_encodable =
        response_frame-IsEncodable request (answer_body crc32_ieee server_write given_answer) s
          encodable opcode_fits body_fits in
      let asks = request_frame-asks opcode seq body c in
      let positive = ((allocate-IsReady c.seq_mgr numbering.ready).1 manager_open).0 in
      let c1 = requested seq pr request bytes (allocate c.seq_mgr).1 c in
      let pends = enqueue-pending pr seq request (allocate c.seq_mgr).1 in
      let (d1, arrives, _) =
        decode-encode crc32_ieee [] bytes rest count 8 request server_side encodable encodes tt
          between (omega arith) in
      let (d2, comes_back, _) =
        decode-encode crc32_ieee [] answer_bytes client_rest client_count 8 reply client_side
          answer_encodable answer_encodes tt client_between (omega arith) in
      let (sm', reads, settled) =
        read_round-resolves pr reply (new_pending_request seq request) d2 c1
          (response_frame-is_response request (answer_body crc32_ieee server_write given_answer) s)
          pends.0 pends.1 refl refl in
      record {
        waiting = c1;
        received = d1;
        answered = _;
        delivered = d2;
        after = record c1 { seq_mgr = sm' };
        pending = _;
        starts =
            start_request-written crc32_ieee client_write opcode seq pr body bytes
              (allocate c.seq_mgr).1 c client_open refl (λ e. omega (arith, positive, e)) encodes
              accepts;
        writes = refl;
        arrives = arrives;
        serves =
            serve_frame-handled crc32_ieee server_write unknown request handler s ctx asks.0 asks.1
              there;
        answers =
            respond-accepted crc32_ieee server_write request
              (answer_body crc32_ieee server_write given_answer) answer_bytes s given_answer.context
              server_open answer_encodes answer_accepts;
        writes_back = refl;
        comes_back = comes_back;
        reads = reads;
        settled = settled.request;
        ends = refl;
        same_seq = refl;
        no_number = settled.gone;
      }
