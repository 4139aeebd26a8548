-- ===== src/Client/Reachable.antt =====
-- The clients of client/client.go that its calls can reach.
use proto_q.Prelude.{
  ℕ, ◌≡◌, ◌⊎◌, inl, inr, refl, ap, sym, ◌∙◌, arith, Bool, Option-cases, true, false, Option, none,
  some, List, ◌==◌,
}
use proto_q.Errors.{Error, conn_closed, ok}
use proto_q.Encoder.Encodable.{IsEncodable}
use proto_q.Decoder.{Outcome, packet, io_error, crash, out_of_fuel}
use proto_q.Packet.{is_response_packet}
use proto_q.Seq.{
  SeqManager, expire, give_up, new_seq_manager, allocate, enqueue, remove, resolve, close_manager,
  Waited, response, failure,
}
use proto_q.Seq.Numbers.{IsReady, new_seq_manager-IsReady}
use proto_q.Seq.Steady.{
  Always, Always-bind, Always-if, Always-ok, Same, Kept, Same-IsReady, allocate-Kept, Always-any,
  expire-Same, give_up-Same, remove-Same, resolve-Same, close_manager-Same,
}
use proto_q.Connection
use proto_q.Connection.{Conn, Done, new_conn, write_packet}
use proto_q.Packet.{PacketData}
use proto_q.Client.{
  Client, ClientOption, Started, new_client, notification_frame, request_frame, request_written,
  start_request, finish_request, send_notification, notification_written, read_round, close_client,
  retransmit,
}
use proto_q.Client.Frames.{IsSendable, request_frame-IsEncodable}

-- The manager is ready, and its numbers have the length that the client's option says.
pub record IsSteady (c : Client) : Type 0 where
  pub ready : IsReady c.seq_mgr
  pub same : c.seq_mgr.seq_len ≡ (new_seq_manager c.number_len).seq_len

-- A client whose manager changed and whose option did not.
Kept-IsSteady :
    (c c' : Client)
    → Kept c.seq_mgr c'.seq_mgr
    → c'.number_len ≡ c.number_len
    → IsSteady c
    → IsSteady c'
Kept-IsSteady c c' kept option h = record {
  ready = kept.0;
  same = kept.1 ∙ (h.same ∙ ap (λ (n : ℕ). (new_seq_manager n).seq_len) (sym option));
}

SeqManager-IsSteady :
    (c : Client) (sm : SeqManager)
    → Same c.seq_mgr sm
    → IsSteady c
    → IsSteady (record c { seq_mgr = sm })
SeqManager-IsSteady c sm same h =
    Kept-IsSteady c (record c { seq_mgr = sm }) (Same-IsReady c.seq_mgr sm same h.ready, same.1)
      refl h

abbrev Any : Done → Type 0
Any done = done ≡ done

finish_request-IsSteady :
    (seq : ℕ) (w : Waited) (c : Client)
    → IsSteady c
    → Always (λ (r : Waited × Client). IsSteady r.1) (finish_request seq w c)
unfolding finish_request
finish_request-IsSteady seq (response f) c h = record { ready = h.ready; same = h.same }
finish_request-IsSteady seq (failure e) c h =
    Always-bind (Same c.seq_mgr) _ (remove seq c.seq_mgr) _ (remove-Same seq c.seq_mgr)
      (λ sm same. SeqManager-IsSteady c sm same h)

read_round-IsSteady :
    (o : Outcome) (c : Client)
    → IsSteady c
    → Always (λ (r : Bool × Client). IsSteady r.1) (read_round o c)
unfolding read_round
read_round-IsSteady (packet f d) c h =
    Always-if (λ (r : Bool × Client). IsSteady r.1) (is_response_packet f) _ (ok (true, c))
      (Always-bind (λ (r : Bool × SeqManager). Same c.seq_mgr r.1) _ (resolve f.seq f c.seq_mgr) _
        (resolve-Same f.seq f c.seq_mgr) (λ r same. SeqManager-IsSteady c r.1 same h))
      h
read_round-IsSteady (io_error e d) c h =
    Always-if (λ (r : Bool × Client). IsSteady r.1) _ (ok (false, c)) (ok (true, c)) h h
read_round-IsSteady crash c h = omega arith
read_round-IsSteady out_of_fuel c h = h

close_client-IsSteady :
    (raw_close : Option Error) (c : Client)
    → IsSteady c
    → Always (λ (r : Option Error × Client). IsSteady r.1) (close_client raw_close c)
unfolding close_client
close_client-IsSteady raw_close c h =
    Always-if (λ (r : Option Error × Client). IsSteady r.1) c.conn.closed (ok (none, c)) _ h
      (Always-bind (Same c.seq_mgr) _ (close_manager c.seq_mgr) _ (close_manager-Same c.seq_mgr)
        (λ sm same.
          Always-bind Any _ (Connection.close raw_close c.conn) _
            (Always-any Any (Connection.close raw_close c.conn) (λ done. refl))
            (λ done any.
              let g = SeqManager-IsSteady c sm same h in
              record { ready = g.ready; same = g.same })))

new_client-IsSteady :
    (opts : List ClientOption) → Always (λ (c : Client). IsSteady c) (new_client opts)
unfolding new_client new_conn
new_client-IsSteady opts = record { ready = new_seq_manager-IsReady _; same = refl }

manager_len : (n : ℕ) → (n ≡ 2) ⊎ (n ≡ 4) → (new_seq_manager n).seq_len ≡ n
unfolding new_seq_manager
manager_len n either = ground arith

module _ (crc32_ieee : List ℕ → ℕ) (raw_write : List ℕ → ℕ × Option Error) where
  -- A step of a client that returns; the last three are those of `retryLoop`.
  pub data Step : Client → Client → Type 0 where
    starts :
        (opcode : ℕ) (body : List ℕ) (pr : ℕ) (c : Client) (s : Started)
        → start_request crc32_ieee raw_write opcode body pr c ≡ ok s
        → Step c s.client
    finishes :
        (seq : ℕ) (w : Waited) (c : Client) (r : Waited × Client)
        → finish_request seq w c ≡ ok r
        → Step c r.1
    notifies :
        (opcode : ℕ) (body : List ℕ) (c : Client) (s : Started)
        → send_notification crc32_ieee raw_write opcode body c ≡ ok s
        → Step c s.client
    reads : (o : Outcome) (c : Client) (r : Bool × Client) → read_round o c ≡ ok r → Step c r.1
    closes :
        (raw_close : Option Error) (c : Client) (r : Option Error × Client)
        → close_client raw_close c ≡ ok r
        → Step c r.1
    expires :
        (seq pr : ℕ) (c : Client) → Step c (record c { seq_mgr = (expire seq pr c.seq_mgr).1 })
    gives_up :
        (seq pr : ℕ) (e : Error) (c : Client) (sm : SeqManager)
        → give_up seq pr e c.seq_mgr ≡ ok sm
        → Step c (record c { seq_mgr = sm })
    retransmits :
        (frame : PacketData) (c : Client) (d : Done)
        → retransmit crc32_ieee raw_write frame c ≡ ok d
        → Step c (record c { conn = d.conn })

  -- From `NewClient`, whatever its options.
  pub data Reachable : Client → Type 0 where
    created : (opts : List ClientOption) (c : Client) → new_client opts ≡ ok c → Reachable c
    stepped : (c c' : Client) → Reachable c → Step c c' → Reachable c'

  request_written-IsSteady :
      (seq : ℕ) (c : Client) (done : Done)
      → IsSteady c
      → Always
          (λ (s : Started). IsSteady s.client)
          (request_written crc32_ieee raw_write seq c done)
  request_written-IsSteady seq c done h = elim (Option-cases done.error) [
    | inl e ↦ rw (request_written, e) (record { ready = h.ready; same = h.same })
    | inr (x, e) ↦
        rw (request_written, e)
          (Always-bind (Same c.seq_mgr) _ (remove seq c.seq_mgr) _ (remove-Same seq c.seq_mgr)
            (λ sm same.
              let g = SeqManager-IsSteady c sm same h in record { ready = g.ready; same = g.same }))
  ]

  notification_written-IsSteady :
      (c : Client) (done : Done)
      → IsSteady c
      → Always
          (λ (s : Started). IsSteady s.client)
          (notification_written crc32_ieee raw_write c done)
  notification_written-IsSteady c done h = elim (Option-cases done.error) [
    | inl e ↦ rw (notification_written, e) (record { ready = h.ready; same = h.same })
    | inr (x, e) ↦ rw (notification_written, e) (record { ready = h.ready; same = h.same })
  ]

  start_request-IsSteady :
      (opcode : ℕ) (body : List ℕ) (pr : ℕ) (c : Client)
      → IsSteady c
      → Always
          (λ (s : Started). IsSteady s.client)
          (start_request crc32_ieee raw_write opcode body pr c)
  unfolding start_request enqueue
  start_request-IsSteady opcode body pr c h =
      let P : Started → Type 0 = λ s. IsSteady s.client in
      let kept = allocate-Kept c.seq_mgr h.ready in
      let sm = (allocate c.seq_mgr).1 in
      let seq = (allocate c.seq_mgr).0 in
      let frame = request_frame opcode seq body c in
      let c1 : Client = record c { seq_mgr = sm } in
      let c2 : Client = record c { seq_mgr = enqueue pr seq frame sm } in
      let steady1 = Kept-IsSteady c c1 kept refl h in
      let steady2 : IsSteady c2 = record {
        ready = record { positive = kept.0.positive; fits = kept.0.fits };
        same = steady1.same;
      } in
      Always-if P c.conn.closed (ok (record { seq = 0; error = some conn_closed; client = c })) _ h
        (Always-if P (seq == 0) (ok (record { seq = 0; error = some conn_closed; client = c1 })) _
          steady1
          (Always-bind Any P (write_packet crc32_ieee raw_write frame c.conn) _
            (Always-any Any (write_packet crc32_ieee raw_write frame c.conn) (λ done. refl))
            (λ done any. request_written-IsSteady seq c2 done steady2)))

  send_notification-IsSteady :
      (opcode : ℕ) (body : List ℕ) (c : Client)
      → IsSteady c
      → Always
          (λ (s : Started). IsSteady s.client)
          (send_notification crc32_ieee raw_write opcode body c)
  unfolding send_notification
  send_notification-IsSteady opcode body c h =
      let P : Started → Type 0 = λ s. IsSteady s.client in
      Always-if P c.conn.closed (ok (record { seq = 0; error = some conn_closed; client = c })) _ h
        (Always-bind Any P
          (write_packet crc32_ieee raw_write (notification_frame opcode body c) c.conn) _
          (Always-any Any
            (write_packet crc32_ieee raw_write (notification_frame opcode body c) c.conn)
            (λ done. refl))
          (λ done any. notification_written-IsSteady c done h))

  Step-IsSteady : (c c' : Client) → Step c c' → IsSteady c → IsSteady c'
  Step-IsSteady _ _ (starts opcode body pr c s e) h =
      Always-ok (λ s. IsSteady s.client) _ s (start_request-IsSteady opcode body pr c h) e
  Step-IsSteady _ _ (finishes seq w c r e) h =
      Always-ok (λ r. IsSteady r.1) _ r (finish_request-IsSteady seq w c h) e
  Step-IsSteady _ _ (notifies opcode body c s e) h =
      Always-ok (λ s. IsSteady s.client) _ s (send_notification-IsSteady opcode body c h) e
  Step-IsSteady _ _ (reads o c r e) h =
      Always-ok (λ r. IsSteady r.1) _ r (read_round-IsSteady o c h) e
  Step-IsSteady _ _ (closes raw_close c r e) h =
      Always-ok (λ r. IsSteady r.1) _ r (close_client-IsSteady raw_close c h) e
  Step-IsSteady _ _ (expires seq pr c) h =
      SeqManager-IsSteady c (expire seq pr c.seq_mgr).1 (expire-Same seq pr c.seq_mgr) h
  Step-IsSteady _ _ (gives_up seq pr x c sm e) h =
      SeqManager-IsSteady c sm (Always-ok (Same c.seq_mgr) _ sm (give_up-Same seq pr x c.seq_mgr) e)
        h
  Step-IsSteady _ _ (retransmits frame c d e) h = record { ready = h.ready; same = h.same }

  Reachable-IsSteady : (c : Client) → Reachable c → IsSteady c
  Reachable-IsSteady _ (created opts c e) =
      Always-ok (λ c. IsSteady c) _ c (new_client-IsSteady opts) e
  Reachable-IsSteady _ (stepped b c before step) =
      Step-IsSteady b c step (Reachable-IsSteady b before)

  -- A client made with any options may have started and finished requests, sent notifications, read
  -- frames, closed, and done any sections of `retryLoop` and any retransmissions, in any order.
  -- While its manager is open, and the option of the number's length is 2 or 4, the request that it
  -- makes next of an opcode that fits its field and of a body that leaves room for the other fields
  -- can be encoded.
  pub Reachable-IsEncodable :
      (opcode : ℕ) (body : List ℕ) (c : Client)
      → Reachable c
      → (c.number_len ≡ 2) ⊎ (c.number_len ≡ 4)
      → c.seq_mgr.closed ≡ false
      → IsSendable opcode body c
      → IsEncodable (request_frame opcode (allocate c.seq_mgr).0 body c)
  Reachable-IsEncodable opcode body c reached either is_open sendable =
      let steady = Reachable-IsSteady c reached in
      request_frame-IsEncodable opcode body c
        (record {
          ready = steady.ready;
          same = steady.same ∙ manager_len c.number_len either;
          either = either;
        })
        is_open sendable
