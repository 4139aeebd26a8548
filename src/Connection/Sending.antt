-- ===== src/Connection/Sending.antt =====
-- How `Send` and `Close` of conn/connection.go end.
use proto_q.Prelude.{
  if◌then◌else◌, ℕ, ◌+◌, ◌≡◌, ◌≢◌, refl, ap, ◌∙◌, arith, Bool, true, false, Option, none, some,
  List, [], ◌∷◌, ◌++◌, find, put, find-put_same, find-put_other, erase-put, take,
}
use proto_q.Errors.{Error, conn_closed, ok}
use proto_q.Packet.{PacketData, new_request_packet}
use proto_q.Encoder.{encode}
use proto_q.Queue.{
  MessageQueue, registered, put_channel, take_channel, complete_error, with_channel, close, Store,
}
use proto_q.Connection.{
  Conn, empty_channel, write_encoded, write_packet, send_registered, next_send_seq, send,
}

pub put-registered :
    (seq ch : ℕ) (q : MessageQueue)
    → put_channel seq ch 0 q
      ≡ registered (record { pending = put seq ch q.pending; count = q.count + 1 })
unfolding put_channel
put-registered seq ch q = refl

-- Taking a number back that was not pending before, and closing its new channel.
complete_error-undoes :
    (seq ch : ℕ) (q : MessageQueue) (s : Store)
    → find seq q.pending ≡ none
    → complete_error seq
        (record { pending = put seq ch q.pending; count = q.count + 1 })
        (put ch empty_channel s)
      ≡ ok (q, put ch (record empty_channel { is_closed = true }) (put ch empty_channel s))
unfolding complete_error take_channel close
complete_error-undoes seq ch q s fresh =
    let q1 : MessageQueue = record { pending = put seq ch q.pending; count = q.count + 1 } in
    let taken : take_channel seq q1 ≡ (some ch, q) =
      rw (take_channel, find-put_same seq ch q.pending, erase-put seq ch q.pending fresh)
        (ap (λ (n : ℕ). (some ch, record q { count = n })) (omega arith)) in
    let after = put ch (record empty_channel { is_closed = true }) (put ch empty_channel s) in
    let closes : with_channel (some ch) close (put ch empty_channel s) ≡ ok after =
      rw (with_channel, find-put_same ch empty_channel s, close) refl in
    rw (complete_error, taken, closes) refl

-- The two ways in which `Send` ends once its request has a number: `seq` is pending, or nothing is
-- left of it but a closed channel.
pub record IsSent (seq ch : ℕ) (bytes : List ℕ) (c c' : Conn) : Type 0 where
  pub written : c'.sent ≡ c.sent ++ (bytes ∷ [])
  pub waits : find seq c'.msg_queue.pending ≡ some ch
  pub others :
      (other : ℕ) → other ≢ seq → find other c'.msg_queue.pending ≡ find other c.msg_queue.pending

pub record IsUndone (ch : ℕ) (bytes : List ℕ) (c c' : Conn) : Type 0 where
  pub written : c'.sent ≡ c.sent ++ (bytes ∷ [])
  pub queue : c'.msg_queue ≡ c.msg_queue
  pub closed : find ch c'.store ≡ some (record empty_channel { is_closed = true })

module _ (crc32_ieee : List ℕ → ℕ) (raw_write : List ℕ → ℕ × Option Error) where
  -- The call that `Send` makes for a frame.
  abbrev Sends : PacketData → ℕ → ℕ → Conn → Option ℕ → Option Error → Conn → Type 0
  Sends frame ch counter c channel error c' =
      send_registered crc32_ieee raw_write frame ch counter c
      ≡ ok (record { channel = channel; error = error; conn = c'; counter = counter })

  registered_ok :
      (frame : PacketData) (ch counter : ℕ) (bytes : List ℕ) (c : Conn)
      → c.closed ≡ false
      → encode crc32_ieee frame ≡ ok bytes
      → (raw_write bytes).1 ≡ none
      → (c' : Conn) × Sends frame ch counter c (some ch) none c' × IsSent frame.seq ch bytes c c'
  unfolding write_packet
  registered_ok frame ch counter bytes c is_open encodes accepts = (
    record c {
      msg_queue = record {
        pending = put frame.seq ch c.msg_queue.pending;
        count = c.msg_queue.count + 1;
      };
      store = put ch empty_channel c.store;
      sent = c.sent ++ (bytes ∷ []);
    },
    rw
        (
          send_registered,
          put-registered frame.seq ch c.msg_queue,
          write_packet,
          is_open,
          encodes,
          write_encoded,
          accepts,
        )
        refl,
    record {
      written = refl;
      waits = find-put_same frame.seq ch c.msg_queue.pending;
      others = λ other differs. find-put_other other frame.seq ch c.msg_queue.pending differs;
    },
  )

  registered_failed :
      (frame : PacketData) (ch counter : ℕ) (bytes : List ℕ) (c : Conn) (e : Error)
      → c.closed ≡ false
      → find frame.seq c.msg_queue.pending ≡ none
      → encode crc32_ieee frame ≡ ok bytes
      → (raw_write bytes).1 ≡ some e
      → (c' : Conn) × Sends frame ch counter c none (some e) c'
        × IsUndone ch (take (raw_write bytes).0 bytes) c c'
  unfolding write_packet
  registered_failed frame ch counter bytes c e is_open fresh encodes fails = (
    record c {
      store = put ch (record empty_channel { is_closed = true }) (put ch empty_channel c.store);
      sent = c.sent ++ (take (raw_write bytes).0 bytes ∷ []);
    },
    rw
        (
          send_registered,
          put-registered frame.seq ch c.msg_queue,
          write_packet,
          is_open,
          encodes,
          write_encoded,
          fails,
          complete_error-undoes frame.seq ch c.msg_queue c.store fresh,
        )
        refl,
    record {
      written = refl;
      queue = refl;
      closed = find-put_same ch (record empty_channel { is_closed = true }) _;
    },
  )

  send-open :
      (opcode ch counter : ℕ) (body : List ℕ) (c : Conn)
      → c.closed ≡ false
      → send crc32_ieee raw_write opcode body ch counter c
        ≡ send_registered crc32_ieee raw_write
            (new_request_packet opcode (next_send_seq counter).0 body true false)
            ch
            (next_send_seq counter).1
            c
  unfolding send
  send-open opcode ch counter body c is_open =
      ap
        (λ (b : Bool).
          if b
          then ok (record { channel = none; error = some conn_closed; conn = c; counter = counter })
          else (send_registered crc32_ieee raw_write
              (new_request_packet opcode (next_send_seq counter).0 body true false) ch
              (next_send_seq counter).1 c))
        is_open

  -- `Send` on an open connection whose queue has not the number that it takes, and whose request
  -- encodes. If the socket takes the bytes, the number is pending with the new channel, the others
  -- are as they were, and the encoded request is what was written last. If the socket returns an
  -- error, `Send` returns it, the queue is as before, the channel is closed, and of the request
  -- no more is on the socket than the first bytes, as many as it says it wrote.
  pub send-outcomes :
      (opcode ch counter : ℕ) (body bytes : List ℕ) (c : Conn)
      → c.closed ≡ false
      → find (next_send_seq counter).0 c.msg_queue.pending ≡ none
      → encode crc32_ieee (new_request_packet opcode (next_send_seq counter).0 body true false)
        ≡ ok bytes
      → ((raw_write bytes).1 ≡ none
          → (c' : Conn) × (send crc32_ieee raw_write opcode body ch counter c
              ≡ ok (record {
                channel = some ch;
                error = none;
                conn = c';
                counter = (next_send_seq counter).1;
              }))
            × IsSent (next_send_seq counter).0 ch bytes c c')
        × ((e : Error)
            → (raw_write bytes).1 ≡ some e
            → (c' : Conn) × (send crc32_ieee raw_write opcode body ch counter c
                ≡ ok (record {
                  channel = none;
                  error = some e;
                  conn = c';
                  counter = (next_send_seq counter).1;
                }))
              × IsUndone ch (take (raw_write bytes).0 bytes) c c')
  unfolding new_request_packet
  send-outcomes opcode ch counter body bytes c is_open fresh encodes =
      let opens = send-open opcode ch counter body c is_open in
      let seq = next_send_seq counter in
      let frame = new_request_packet opcode seq.0 body true false in
      (
        λ accepts.
            let (c', runs, is_sent) =
              registered_ok frame ch seq.1 bytes c is_open encodes accepts in
            (c', opens ∙ runs, is_sent),
        λ e fails.
            let (c', runs, is_undone) =
              registered_failed frame ch seq.1 bytes c e is_open fresh encodes fails in
            (c', opens ∙ runs, is_undone),
      )
