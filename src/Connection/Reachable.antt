-- ===== src/Connection/Reachable.antt =====
-- What a connection of conn/connection.go may become, by its own calls and those of the loops that
-- complete its requests.
use proto_q.Prelude.{
  ℕ, ◌+◌, ◌≡◌, refl, sym, ◌∙◌, subst, Bool, true, false, Option, none, some, List, [], inl, inr,
  arith, Option-cases, find, put,
}
use proto_q.Errors.{Error, conn_closed, Result, ok, err, panic, ok_injective}
use proto_q.Packet.{PacketData}
use proto_q.Encoder.{encode}
use proto_q.Queue.{MessageQueue, Store, new_message_queue, complete, complete_error, clear}
use proto_q.Queue.Wiring.{IsWired, empty-IsWired, register-IsWired}
use proto_q.Queue.Closing.{
  IsCleared, complete-IsCompleted, complete_error-IsCompleted, clear-IsCleared,
}
use proto_q.Seq.Steady.{Always, Always-bind, Always-if, Always-ok}
use proto_q.Connection.{
  Conn, Done, Sent, empty_channel, new_conn, new_conn_with_id, write_encoded, write_packet,
  after_write, send_registered, send, close,
}
use proto_q.Connection.Sending.{put-registered}

abbrev IsLive : Conn → Type 0
IsLive c = IsWired c.msg_queue.pending c.store

-- The queue and its channels are those of the other connection.
record IsAlike (c c' : Conn) : Type 0 where
  pub queue : c'.msg_queue ≡ c.msg_queue
  pub store : c'.store ≡ c.store

IsAlike-IsLive : (c c' : Conn) → IsAlike c c' → IsLive c → IsLive c'
IsAlike-IsLive c c' same h = rw (same.queue, same.store) h

module _ (crc32_ieee : List ℕ → ℕ) (raw_write : List ℕ → ℕ × Option Error) where
  -- A step that returns: `Send` with a channel that it makes, `Complete` of a response, a frame
  -- that is written, and `Close`.
  pub data Step : Conn → Conn → Type 0 where
    sends :
        (opcode : ℕ) (body : List ℕ) (ch counter : ℕ) (c : Conn) (s : Sent)
        → find ch c.store ≡ none
        → send crc32_ieee raw_write opcode body ch counter c ≡ ok s
        → Step c s.conn
    completes :
        (seq : ℕ) (frame : PacketData) (c : Conn) (r : MessageQueue × Store)
        → complete seq frame c.msg_queue c.store ≡ ok r
        → Step c (record c { msg_queue = r.0; store = r.1 })
    writes :
        (frame : PacketData) (c : Conn) (d : Done)
        → write_packet crc32_ieee raw_write frame c ≡ ok d
        → Step c d.conn
    closes :
        (raw_close : Option Error) (c : Conn) (d : Done) → close raw_close c ≡ ok d → Step c d.conn

  pub data ConnReachable : Conn → Type 0 where
    created :
        (parent : Option Bool) (id conn_type : ℕ) (c : Conn)
        → new_conn_with_id parent id conn_type ≡ ok c
        → ConnReachable c
    stepped : (b c : Conn) → ConnReachable b → Step b c → ConnReachable c

  new_conn_with_id-IsLive :
      (parent : Option Bool) (id conn_type : ℕ)
      → Always IsLive (new_conn_with_id parent id conn_type)
  unfolding new_conn_with_id new_conn new_message_queue
  new_conn_with_id-IsLive none id conn_type = omega arith
  new_conn_with_id-IsLive (some cancelled) id conn_type = empty-IsWired []

  write_encoded-IsAlike :
      (r : Result (List ℕ)) (c : Conn)
      → Always (λ (d : Done). IsAlike c d.conn) (write_encoded crc32_ieee raw_write r c)
  write_encoded-IsAlike (ok bytes) c = elim (Option-cases (raw_write bytes).1) [
    | inl e ↦ rw (write_encoded, e) (record { queue = refl; store = refl })
    | inr (x, e) ↦ rw (write_encoded, e) (record { queue = refl; store = refl })
  ]
  write_encoded-IsAlike (err e) c = record { queue = refl; store = refl }
  write_encoded-IsAlike panic c = omega arith

  write_packet-IsAlike :
      (f : PacketData) (c : Conn)
      → Always (λ (d : Done). IsAlike c d.conn) (write_packet crc32_ieee raw_write f c)
  unfolding write_packet
  write_packet-IsAlike f c =
      Always-if (λ (d : Done). IsAlike c d.conn) c.closed
        (ok (record { error = some conn_closed; conn = c })) _
        (record { queue = refl; store = refl }) (write_encoded-IsAlike (encode crc32_ieee f) c)

  -- A queue and its channels, as a pair.
  abbrev Wired : MessageQueue × Store → Type 0
  Wired r = IsWired r.0.pending r.1

  close-IsLive :
      (raw_close : Option Error) (c : Conn)
      → IsLive c
      → Always (λ (d : Done). IsLive d.conn) (close raw_close c)
  unfolding close new_message_queue
  close-IsLive raw_close c h =
      let (s', runs, _) = clear-IsCleared c.msg_queue c.store h in
      Always-if (λ (d : Done). IsLive d.conn) c.closed (ok (record { error = none; conn = c })) _ h
        (Always-bind Wired (λ (d : Done). IsLive d.conn) (clear c.msg_queue c.store) _
          (rw runs (empty-IsWired s')) (λ r wired. wired))

  after_write-IsLive :
      (seq ch counter : ℕ) (d : Done)
      → IsLive d.conn
      → Always (λ (s : Sent). IsLive s.conn) (after_write crc32_ieee raw_write seq ch counter d)
  after_write-IsLive seq ch counter d h = elim (Option-cases d.error) [
    | inl e ↦ rw (after_write, e) h
    | inr (x, e) ↦
        let (q', s', runs, done) = complete_error-IsCompleted seq d.conn.msg_queue d.conn.store h in
        rw (after_write, e)
          (Always-bind Wired (λ (s : Sent). IsLive s.conn)
            (complete_error seq d.conn.msg_queue d.conn.store) _ (rw runs done.wired)
            (λ r wired. wired))
  ]

  send_registered-IsLive :
      (frame : PacketData) (ch counter : ℕ) (c : Conn)
      → IsLive c
      → find ch c.store ≡ none
      → Always
          (λ (s : Sent). IsLive s.conn)
          (send_registered crc32_ieee raw_write frame ch counter c)
  send_registered-IsLive frame ch counter c h fresh =
      let q : MessageQueue = record {
        pending = put frame.seq ch c.msg_queue.pending;
        count = c.msg_queue.count + 1;
      } in
      let c1 : Conn = record c { msg_queue = q; store = put ch empty_channel c.store } in
      let live = register-IsWired frame.seq ch empty_channel _ c.store h fresh refl (omega arith) in
      rw (send_registered, put-registered frame.seq ch c.msg_queue)
        (Always-bind (λ (d : Done). IsAlike c1 d.conn) (λ (s : Sent). IsLive s.conn)
          (write_packet crc32_ieee raw_write frame c1) _ (write_packet-IsAlike frame c1)
          (λ d same.
            after_write-IsLive frame.seq ch counter d (IsAlike-IsLive c1 d.conn same live)))

  send-IsLive :
      (opcode : ℕ) (body : List ℕ) (ch counter : ℕ) (c : Conn)
      → IsLive c
      → find ch c.store ≡ none
      → Always (λ (s : Sent). IsLive s.conn) (send crc32_ieee raw_write opcode body ch counter c)
  unfolding send
  send-IsLive opcode body ch counter c h fresh =
      Always-if (λ (s : Sent). IsLive s.conn) c.closed
        (ok (record { channel = none; error = some conn_closed; conn = c; counter = counter })) _ h
        (send_registered-IsLive _ ch _ c h fresh)

  Step-IsLive : (c c' : Conn) → Step c c' → IsLive c → IsLive c'
  Step-IsLive _ _ (sends opcode body ch counter c s fresh e) h =
      Always-ok (λ (s : Sent). IsLive s.conn) _ s (send-IsLive opcode body ch counter c h fresh) e
  Step-IsLive _ _ (completes seq frame c r e) h =
      let (q', s', runs, done) = complete-IsCompleted seq c.msg_queue c.store h frame in
      subst Wired (ok_injective (sym runs ∙ e)) done.wired
  Step-IsLive _ _ (writes frame c d e) h =
      IsAlike-IsLive c d.conn
        (Always-ok (λ (d : Done). IsAlike c d.conn) _ d (write_packet-IsAlike frame c) e) h
  Step-IsLive _ _ (closes raw_close c d e) h =
      Always-ok (λ (d : Done). IsLive d.conn) _ d (close-IsLive raw_close c h) e

  Reachable-IsLive : (c : Conn) → ConnReachable c → IsLive c
  Reachable-IsLive _ (created parent id conn_type c e) =
      Always-ok IsLive _ c (new_conn_with_id-IsLive parent id conn_type) e
  Reachable-IsLive _ (stepped b c before step) = Step-IsLive b c step (Reachable-IsLive b before)

  -- On every connection that `Send` with a new channel, `Complete`, `WritePacket` and `Close` may
  -- have made of a new one: `Complete` of any number returns without a panic. So does `Close` of a
  -- connection that is open: the connection is closed, nothing is pending, and the channel of
  -- every request that was pending is closed, with what was sent on it.
  pub Reachable-close :
      (c : Conn)
      → ConnReachable c
      → ((seq : ℕ) (frame : PacketData)
          → (r : MessageQueue × Store) × (complete seq frame c.msg_queue c.store ≡ ok r)
            × (find seq r.0.pending ≡ none))
        × ((raw_close : Option Error)
            → c.closed ≡ false
            → (d : Done) × (close raw_close c ≡ ok d)
              × (d.conn.closed ≡ true)
              × (d.error ≡ raw_close)
              × (d.conn.msg_queue ≡ new_message_queue)
              × IsCleared c.msg_queue.pending c.store d.conn.store)
  unfolding close
  Reachable-close c reached =
      let h = Reachable-IsLive c reached in
      (
        λ seq frame.
            let (q', s', runs, done) = complete-IsCompleted seq c.msg_queue c.store h frame in
            ((q', s'), runs, done.gone),
        λ raw_close is_open.
            let (s', runs, cleared) = clear-IsCleared c.msg_queue c.store h in
            let d : Done = record {
              error = raw_close;
              conn = record c {
                closed = true;
                cancelled = true;
                raw_closed = true;
                msg_queue = new_message_queue;
                store = s';
              };
            } in
            (d, rw (close, is_open, runs) refl, refl, refl, refl, cleared),
      )
