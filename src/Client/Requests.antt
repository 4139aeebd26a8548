-- ===== src/Client/Requests.antt =====
-- `SendRequest` of client/client.go on both sides of its wait.
use proto_q.Prelude.{
  ℕ, ◌≡◌, ◌≢◌, arith, refl, ap, ◌∙◌, Bool, true, false, Option, none, some, List, [], ◌∷◌, ◌++◌,
  ◌==◌, if◌then◌else◌, find, find-put_same,
}
use proto_q.Errors.{Error, conn_closed, Result, ok, ◌>>=◌}
use proto_q.Packet.{PacketData, is_response_packet}
use proto_q.Encoder.{encode}
use proto_q.Stream.{Decoder, add64}
use proto_q.Decoder.{packet}
use proto_q.Seq.{SeqManager, PendingRequest, new_pending_request, allocate, enqueue}
use proto_q.Seq.Retry.{IsSettled, resolve-IsSettled}
use proto_q.Connection.{Conn, Done, write_packet, write_encoded}
use proto_q.Client.{
  Client, request_frame, request_written, request_numbered, request_allocated, start_request,
  read_round,
}

-- The client whose request `seq` was written as `bytes`; its manager was `sm` before the request.
abbrev pub requested : ℕ → ℕ → PacketData → List ℕ → SeqManager → Client → Client
requested seq pr frame bytes sm c = record c {
  conn = record c.conn { sent = c.conn.sent ++ (bytes ∷ []) };
  seq_mgr = enqueue pr seq frame sm;
  requests_sent = add64 c.requests_sent 1;
}

not_zero : (n : ℕ) → n ≢ 0 → (n == 0) ≡ false
not_zero n h = ground arith

module _ (crc32_ieee : List ℕ → ℕ) (raw_write : List ℕ → ℕ × Option Error) where
  pub write_packet-accepted :
      (frame : PacketData) (bytes : List ℕ) (c : Conn)
      → c.closed ≡ false
      → encode crc32_ieee frame ≡ ok bytes
      → (raw_write bytes).1 ≡ none
      → write_packet crc32_ieee raw_write frame c
        ≡ ok (record { error = none; conn = record c { sent = c.sent ++ (bytes ∷ []) } })
  unfolding write_packet
  write_packet-accepted frame bytes c is_open encodes accepts =
      rw (write_packet, is_open, encodes, write_encoded, accepts) refl

  pub start_request-written :
      (opcode seq pr : ℕ) (body bytes : List ℕ) (sm : SeqManager) (c : Client)
      → c.conn.closed ≡ false
      → allocate c.seq_mgr ≡ (seq, sm)
      → seq ≢ 0
      → encode crc32_ieee (request_frame opcode seq body c) ≡ ok bytes
      → (raw_write bytes).1 ≡ none
      → start_request crc32_ieee raw_write opcode body pr c
        ≡ ok (record {
          seq = seq;
          error = none;
          client = requested seq pr (request_frame opcode seq body c) bytes sm c;
        })
  unfolding start_request
  start_request-written opcode seq pr body bytes sm c is_open takes some_number encodes accepts =
      let closed = ok (record { seq = 0; error = some conn_closed; client = c }) in
      let exhausted =
        ok (record { seq = 0; error = some conn_closed; client = record c { seq_mgr = sm } }) in
      let frame = request_frame opcode seq body c in
      let opened : start_request crc32_ieee raw_write opcode body pr c
          ≡ request_allocated crc32_ieee raw_write opcode body pr (allocate c.seq_mgr) c =
        ap
          (λ (b : Bool).
            if b
            then closed
            else request_allocated crc32_ieee raw_write opcode body pr (allocate c.seq_mgr) c)
          is_open in
      let taken =
        ap (λ (a : ℕ × SeqManager). request_allocated crc32_ieee raw_write opcode body pr a c)
          takes in
      let numbered : request_allocated crc32_ieee raw_write opcode body pr (seq, sm) c
          ≡ request_numbered crc32_ieee raw_write opcode body pr seq sm c =
        ap
          (λ (b : Bool).
            if b then exhausted else request_numbered crc32_ieee raw_write opcode body pr seq sm c)
          (not_zero seq some_number) in
      let after =
        request_written crc32_ieee raw_write seq (record c { seq_mgr = enqueue pr seq frame sm }) in
      let written =
        ap (λ (r : Result Done). r >>= after)
          (write_packet-accepted frame bytes c.conn is_open encodes accepts) in
      opened ∙ (taken ∙ (numbered ∙ written))

-- `enqueue` makes a request that is pending under its number.
pub enqueue-pending :
    (pr seq : ℕ) (frame : PacketData) (sm : SeqManager)
    → (find seq (enqueue pr seq frame sm).pending ≡ some pr)
      × (find pr (enqueue pr seq frame sm).requests ≡ some (new_pending_request seq frame))
unfolding enqueue
enqueue-pending pr seq frame sm =
    (find-put_same seq pr sm.pending, find-put_same pr (new_pending_request seq frame) sm.requests)

-- The read loop's round on a response whose number is pending.
pub read_round-resolves :
    (pr : ℕ) (response : PacketData) (r : PendingRequest) (d : Decoder) (c : Client)
    → is_response_packet response ≡ true
    → find response.seq c.seq_mgr.pending ≡ some pr
    → find pr c.seq_mgr.requests ≡ some r
    → r.done ≡ false
    → r.response_c ≡ none
    → (sm' : SeqManager) × (read_round (packet response d) c
        ≡ ok (true, record c { seq_mgr = sm' }))
      × IsSettled response.seq pr
          (record r { done = true; response_c = some response })
          c.seq_mgr
          sm'
unfolding read_round
read_round-resolves pr response r d c responds there request is_open empty =
    let (sm', resolves, settled) =
      resolve-IsSettled response.seq pr response r c.seq_mgr there request is_open empty in
    (sm', rw (read_round, responds, resolves) refl, settled)
