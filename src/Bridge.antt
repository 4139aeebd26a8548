-- ===== src/Bridge.antt =====
-- conn/bridge.go: what the bridge of a connection does with a decoded frame, and its write loop.
-- `text` gives an error's text as bytes; `accepts` says whether the socket takes all of a frame.
pub mod Replies
pub mod Outbox
pub mod Ordering
pub mod Serving
use proto_q.Prelude.{
  ℕ, ◌+◌, ◌<◌, Bool, true, false, not, Option, none, some, List, [], ◌∷◌, ◌++◌, ◌==◌, ◌||◌, ◌&&◌,
  ltb, length, if◌then◌else◌,
}
use proto_q.Errors.{Result, ok, err, panic, ◌>>=◌}
use proto_q.Packet.{PacketData, packet_requires_ack, new_response_packet}
use proto_q.Decoder.{Outcome, packet, io_error, crash, out_of_fuel}
use proto_q.Queue.{clear}
use proto_q.Dispatch.{
  Reply, no_reply, reply_packet, reply_bytes, reply_other, Failure, Connection, MessageContext,
  MessageDispatcher, Dispatched, dispatch, message_id,
}

-- `Encrypt` and `Decrypt` of a codec; none is an error.
pub record Codec : Type 0 where
  pub encrypt : List ℕ → Option (List ℕ)
  pub decrypt : List ℕ → Option (List ℕ)

pub data BridgeError : Type 0 where
  no_codec : ℕ → BridgeError
  codec_failed : ℕ → BridgeError
  dispatch_failed : Failure → BridgeError

-- `write_ch` is the channel of outgoing frames, oldest first; `writing` says whether `writeLoop`
-- runs.
pub record ConnectionBridge : Type 0 where
  pub conn : Connection
  pub codec : Option Codec
  pub dispatcher : MessageDispatcher
  pub write_ch : List PacketData
  pub writing : Bool

abbrev pub write_ch_cap : ℕ
write_ch_cap = 64

unfoldable pub new_connection_bridge :
    Connection → Option Codec → MessageDispatcher → ConnectionBridge
new_connection_bridge conn codec d = record {
  conn = conn;
  codec = codec;
  dispatcher = d;
  write_ch = [];
  writing = false;
}

-- The outcome of `decryptBody` and `encryptBody`: the frame with its new body, or an error.
pub data Secured : Type 0 where
  secured : PacketData → Secured
  unsecured : BridgeError → Secured

abbrev pub set_body : PacketData → Option (List ℕ) → Secured
set_body frame none = unsecured (codec_failed (message_id frame))
set_body frame (some body) = secured (record frame { body = body })

-- Empty bodies and the two negotiation messages are left as they are.
abbrev pub is_plain : PacketData → Bool
is_plain frame = length frame.body == 0 || (message_id frame == 0x01 || message_id frame == 0x02)

abbrev pub convert : (Codec → List ℕ → Option (List ℕ)) → Option Codec → PacketData → Secured
convert action none frame = unsecured (no_codec (message_id frame))
convert action (some codec) frame = set_body frame (action codec frame.body)

unfoldable pub decrypt_body : Option Codec → PacketData → Secured
decrypt_body codec frame =
    if is_plain frame then secured frame else convert (λ c. c.decrypt) codec frame

unfoldable pub encrypt_body : Option Codec → PacketData → Secured
encrypt_body codec frame =
    if is_plain frame then secured frame else convert (λ c. c.encrypt) codec frame

-- `WritePacket` of the bridge drops the frame where the channel is full.
unfoldable pub write_packet : PacketData → ConnectionBridge → ConnectionBridge
write_packet frame b =
    if ltb (length b.write_ch) write_ch_cap
    then record b { write_ch = b.write_ch ++ (frame ∷ []) }
    else b

-- `WritePacket` of the connection, which gives no frame to the socket once it is closed.
unfoldable pub conn_write : PacketData → Connection → Connection
conn_write frame c = if c.is_closed then c else record c { written = c.written ++ (frame ∷ []) }

-- `Close` of the connection.
unfoldable pub close_connection : Connection → Result Connection
close_connection c = if c.is_closed then ok c else elim c.queue [
  | none ↦ ok (record c { is_closed = true })
  | some q ↦ (do
    cleared ← clear q c.store
    ok (record c { is_closed = true; queue = some cleared.0; store = cleared.1 }))
]

module _ (accepts : PacketData → Bool) where
  -- One round of `writeLoop` on the oldest frame: one that cannot be encrypted is skipped, and the
  -- loop ends where `WritePacket` returns an error.
  abbrev pub write_secured : Secured → ConnectionBridge → ConnectionBridge
  write_secured (secured frame) b = record b {
    conn = conn_write frame b.conn;
    writing = not b.conn.is_closed && accepts frame;
  }
  write_secured (unsecured e) b = b

  abbrev pub write_oldest : List PacketData → ConnectionBridge → ConnectionBridge
  write_oldest [] b = b
  write_oldest (frame ∷ rest) b =
      write_secured (encrypt_body b.codec frame) (record b { write_ch = rest })

  unfoldable pub write_round : ConnectionBridge → ConnectionBridge
  unfolding encrypt_body conn_write
  write_round b = if b.writing then write_oldest b.write_ch b else b

abbrev pub response_to : PacketData → List ℕ → PacketData
response_to request body = new_response_packet request.opcode request.seq body request.flags

unfoldable pub write_response : PacketData → Reply → ConnectionBridge → ConnectionBridge
unfolding write_packet
write_response request (reply_packet p) b = write_packet p b
write_response request (reply_bytes body) b = write_packet (response_to request body) b
write_response request no_reply b = write_packet (response_to request []) b
write_response request reply_other b = b

-- The connection as the dispatch leaves it.
abbrev pub with_conn : Option Connection → ConnectionBridge → ConnectionBridge
with_conn none b = b
with_conn (some c) b = record b { conn = c }

-- The bridge when its connection is closed.
abbrev pub close_bridge_conn : ConnectionBridge → Result ConnectionBridge
close_bridge_conn b = do c ← close_connection b.conn; ok (record b { conn = c })

-- The frame behind the pointer after the dispatch: filters and handlers see it through the context.
abbrev pub seen : PacketData → Option MessageContext → PacketData
seen frame none = frame
seen frame (some ctx) = elim ctx.frame [ none ↦ frame | some f ↦ f ]

module _ (text : BridgeError → List ℕ) where
  unfoldable pub write_error_response :
      PacketData → BridgeError → ConnectionBridge → ConnectionBridge
  unfolding conn_write
  write_error_response request e b =
      if not (packet_requires_ack request)
      then b
      else record b { conn = conn_write (response_to request (text e)) b.conn }

  unfoldable pub handle_fatal_error :
      PacketData → BridgeError → ConnectionBridge → Result ConnectionBridge
  unfolding write_error_response close_connection
  handle_fatal_error request e b = close_bridge_conn (write_error_response request e b)

  -- `resp != nil`
  abbrev pub write_reply : PacketData → Reply → ConnectionBridge → ConnectionBridge
  write_reply request no_reply b = b
  write_reply request (reply_packet p) b = write_response request (reply_packet p) b
  write_reply request (reply_bytes body) b = write_response request (reply_bytes body) b
  write_reply request reply_other b = write_response request reply_other b

  abbrev pub after_context :
      PacketData → Option MessageContext → ConnectionBridge → ConnectionBridge
  after_context request none b = b
  after_context request (some ctx) b =
      if packet_requires_ack request then write_reply request ctx.reply b else b

  abbrev pub answer :
      PacketData → Option Failure → Option MessageContext → ConnectionBridge → ConnectionBridge
  answer request (some e) ctx b = write_error_response request (dispatch_failed e) b
  answer request none ctx b = after_context request ctx b

  abbrev pub after_dispatch : PacketData → Dispatched → ConnectionBridge → ConnectionBridge
  after_dispatch request r b =
      answer (seen request r.context) r.failure r.context (with_conn r.conn b)

  abbrev pub handle_secured : PacketData → Secured → ConnectionBridge → Result ConnectionBridge
  handle_secured frame (unsecured e) b = handle_fatal_error frame e b
  handle_secured frame (secured plain) b = do
    r ← dispatch b.dispatcher (some b.conn) (some plain)
    ok (after_dispatch plain r b)

  unfoldable pub handle_frame : PacketData → ConnectionBridge → Result ConnectionBridge
  unfolding decrypt_body handle_fatal_error write_response
  handle_frame frame b = handle_secured frame (decrypt_body b.codec frame) b

  -- One round of `readLoop` on what `Decode` returned, where `stopped` says whether `stopCh` is
  -- closed: whether it goes on, and the bridge. `out_of_fuel` is no outcome of the source.
  unfoldable pub read_round : Bool → Outcome → ConnectionBridge → Result (Bool × ConnectionBridge)
  unfolding handle_frame
  read_round true outcome b = ok (false, b)
  read_round false (packet frame d) b = do b' ← handle_frame frame b; ok (true, b')
  read_round false (io_error e d) b = ok (false, b)
  read_round false crash b = panic
  read_round false out_of_fuel b = ok (true, b)
