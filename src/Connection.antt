-- ===== src/Connection.antt =====
-- conn/connection.go: a connection, its writes, its end, its properties and its requests. The
-- socket is a parameter: `raw_write` says what a `Write` of these bytes returns, how many of them it
-- wrote and the error, if any; without one they are all written. A property's key is a string, known
-- by a number; `sent` lists what each `Write` put on the socket, oldest first.
pub mod Reachable
pub mod Sending
use proto_q.Prelude.{
  ℕ, ◌+◌, ◌%◌, ◌^◌, Bool, true, false, Option, none, some, List, [], ◌∷◌, ◌++◌, ◌==◌, if◌then◌else◌,
  Map, find, put, take,
}
use proto_q.Errors.{Error, conn_closed, ack_queue_full, Result, ok, err, panic, ◌>>=◌}
use proto_q.Packet.{PacketData, new_request_packet}
use proto_q.Encoder.{encode}
use proto_q.Queue.{
  MessageQueue, Store, Channel, new_message_queue, put_channel, registered, queue_full,
  complete_error, clear,
}
use proto_q.Bridge.{Codec}

-- A property's value, by its dynamic type.
pub data Value : Type 0 where
  text : List ℕ → Value
  other_value : ℕ → Value

-- `cancelled` says whether the connection's context is, `raw_closed` whether the socket is closed.
pub record Conn : Type 0 where
  pub closed : Bool
  pub cancelled : Bool
  pub raw_closed : Bool
  pub sent : List (List ℕ)
  pub id : ℕ
  pub conn_type : ℕ
  pub props : Map Value
  pub msg_queue : MessageQueue
  pub store : Store
  pub codec : Option Codec

-- The codec of `basic/codec/default.go`.
abbrev pub default_codec : Codec
default_codec = record { encrypt = λ plain. some plain; decrypt = λ cipher. some cipher }

abbrev pub tcp : ℕ
tcp = 0

-- `parent` says whether there is a parent context, and if so whether it is cancelled:
-- `context.WithCancel` panics without one.
unfoldable pub new_conn : Option Bool → Result Conn
new_conn none = panic
new_conn (some cancelled) = ok (record {
  closed = false;
  cancelled = cancelled;
  raw_closed = false;
  sent = [];
  id = 0;
  conn_type = tcp;
  props = [];
  msg_queue = new_message_queue;
  store = [];
  codec = none;
})

unfoldable pub new_conn_with_id : Option Bool → ℕ → ℕ → Result Conn
unfolding new_conn
new_conn_with_id parent id conn_type = do
  c ← new_conn parent
  ok (record c { id = id; conn_type = conn_type })

-- A method's error, if any, and the connection afterwards.
pub record Done : Type 0 where
  pub error : Option Error
  pub conn : Conn

module _ (crc32_ieee : List ℕ → ℕ) (raw_write : List ℕ → ℕ × Option Error) where
  -- `EncodeTo` on the socket.
  abbrev pub write_encoded : Result (List ℕ) → Conn → Result Done
  write_encoded (ok bytes) c = elim (raw_write bytes).1 [
    | none ↦ ok (record { error = none; conn = record c { sent = c.sent ++ (bytes ∷ []) } })
    | some e ↦ ok (record {
      error = some e;
      conn = record c { sent = c.sent ++ (take (raw_write bytes).0 bytes ∷ []) };
    })
  ]
  write_encoded (err e) c = ok (record { error = some e; conn = c })
  write_encoded panic c = panic

  unfoldable pub write_packet : PacketData → Conn → Result Done
  write_packet f c =
      if c.closed
      then ok (record { error = some conn_closed; conn = c })
      else write_encoded (encode crc32_ieee f) c

-- `raw_close` is the error of closing the socket.
unfoldable pub close : Option Error → Conn → Result Done
close raw_close c = if c.closed then ok (record { error = none; conn = c }) else (do
  cleared ← clear c.msg_queue c.store
  ok (record {
    error = raw_close;
    conn = record c {
      closed = true;
      cancelled = true;
      raw_closed = true;
      msg_queue = cleared.0;
      store = cleared.1;
    };
  }))

unfoldable pub set_connection_id : ℕ → Conn → Conn
set_connection_id id c = record c { id = id }

unfoldable pub get_property : ℕ → Conn → Option Value
get_property key c = find key c.props

unfoldable pub set_property : ℕ → Value → Conn → Conn
set_property key v c = record c { props = put key v c.props }

abbrev pub string_value : Option Value → Option (List ℕ)
string_value (some (text s)) = some s
string_value _ = none

unfoldable pub get_string_property : ℕ → Conn → Option (List ℕ)
get_string_property key c = string_value (find key c.props)

unfoldable pub get_codec : Conn → Codec
get_codec c = elim c.codec [ none ↦ default_codec | some codec ↦ codec ]

unfoldable pub set_codec : Codec → Conn → Conn
set_codec codec c = record c { codec = some codec }

-- `nextSendSeq.Add(1)` on the uint64 that all connections share, cut to a uint32, and once more
-- where that is 0: the number, and the counter afterwards.
unfoldable pub next_send_seq : ℕ → ℕ × ℕ
next_send_seq counter =
    let first = (counter + 1) % 2 ^ 64 in
    let second = (first + 1) % 2 ^ 64 in
    if first % 2 ^ 32 == 0 then (second % 2 ^ 32, second) else (first % 2 ^ 32, first)

-- What `Send` returns: the channel of the response, or an error.
pub record Sent : Type 0 where
  pub channel : Option ℕ
  pub error : Option Error
  pub conn : Conn
  pub counter : ℕ

abbrev pub empty_channel : Channel
empty_channel = record { sent = []; room = 1; is_closed = false }

module _ (crc32_ieee : List ℕ → ℕ) (raw_write : List ℕ → ℕ × Option Error) where
  -- What follows the write: a failed one takes the number out again and closes its channel.
  abbrev pub after_write : ℕ → ℕ → ℕ → Done → Result Sent
  after_write seq ch counter done = elim done.error [
    | none ↦ ok (record { channel = some ch; error = none; conn = done.conn; counter = counter })
    | some e ↦ (do
      undone ← complete_error seq done.conn.msg_queue done.conn.store
      ok (record {
        channel = none;
        error = some e;
        conn = record done.conn { msg_queue = undone.0; store = undone.1 };
        counter = counter;
      }))
  ]

  abbrev pub send_registered : PacketData → ℕ → ℕ → Conn → Result Sent
  send_registered frame ch counter c = elim (put_channel frame.seq ch 0 c.msg_queue) [
    | queue_full n cap ↦
        ok (record { channel = none; error = some ack_queue_full; conn = c; counter = counter })
    | registered q ↦ (do
      done ←
          write_packet crc32_ieee raw_write frame
            (record c { msg_queue = q; store = put ch empty_channel c.store })
      after_write frame.seq ch counter done)
  ]

  -- `ch` is the channel that `Send` makes.
  unfoldable pub send : ℕ → List ℕ → ℕ → ℕ → Conn → Result Sent
  unfolding next_send_seq write_packet
  send opcode body ch counter c =
      if c.closed
      then ok (record { channel = none; error = some conn_closed; conn = c; counter = counter })
      else (let seq = next_send_seq counter in
          send_registered (new_request_packet opcode seq.0 body true false) ch seq.1 c)
