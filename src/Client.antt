-- ===== src/Client.antt =====
-- client/client.go: a client on one connection. Each function is what one goroutine does between
-- two points where another one may come in. `Send` is cut in two where it waits; the text that
-- `WrapError` puts before an error is left out, and so are `Dial`, the read loop's signal and the
-- lock of `Close`.

pub mod Frames
pub mod Reachable
pub mod Requests
use proto_q.Prelude.{
  ℕ, ◌+◌, Bool, true, false, Option, none, some, List, [], ◌∷◌, ◌==◌, ◌||◌, if◌then◌else◌,
}
use proto_q.Errors.{Error, conn_closed, Result, ok, err, panic, ◌>>=◌}
use proto_q.Flags.{set_opcode_len, set_seq_len}
use proto_q.Packet.{PacketData, new_request_packet, new_notification_packet, is_response_packet}
use proto_q.Stream.{ReadError, eof, failed, add64}
use proto_q.Decoder.{Outcome, packet, io_error, crash, out_of_fuel}
use proto_q.Seq.{
  SeqManager, new_seq_manager, default_seq_len, allocate, enqueue, remove, resolve, close_manager,
  pending_count, Waited, response, failure,
}
use proto_q.Connection
use proto_q.Connection.{Conn, Done, new_conn, write_packet}

abbrev pub default_opcode_len : ℕ
default_opcode_len = 2

pub record Client : Type 0 where
  pub conn : Conn
  pub seq_mgr : SeqManager
  pub op_len : ℕ
  pub number_len : ℕ
  pub use_crc : Bool
  pub requests_sent : ℕ
  pub responses_received : ℕ
  pub notifications_sent : ℕ

abbrev pub ClientOption : Type 0
ClientOption = Client → Client

unfoldable pub with_client_opcode_len : ℕ → ClientOption
with_client_opcode_len n c = record c { op_len = n }

unfoldable pub with_client_seq_len : ℕ → ClientOption
with_client_seq_len n c = record c { number_len = n }

unfoldable pub with_client_crc : Bool → ClientOption
with_client_crc enable c = record c { use_crc = enable }

unfoldable pub apply_options : List ClientOption → Client → Client
apply_options [] c = c
apply_options (opt ∷ opts) c = apply_options opts (opt c)

unfoldable pub new_client : List ClientOption → Result Client
unfolding apply_options
new_client opts = do
  conn ← new_conn (some false)
  let c = apply_options opts (record {
    conn = conn;
    seq_mgr = new_seq_manager default_seq_len;
    op_len = default_opcode_len;
    number_len = default_seq_len;
    use_crc = true;
    requests_sent = 0;
    responses_received = 0;
    notifications_sent = 0;
  })
  ok (record c { seq_mgr = new_seq_manager c.number_len })

unfoldable pub request_frame : ℕ → ℕ → List ℕ → Client → PacketData
request_frame opcode seq body c =
    let frame = new_request_packet opcode seq body true c.use_crc in
    record frame { flags = set_seq_len (set_opcode_len frame.flags c.op_len) c.number_len }

unfoldable pub notification_frame : ℕ → List ℕ → Client → PacketData
notification_frame opcode body c =
    let frame = new_notification_packet opcode body c.use_crc in
    record frame { flags = set_opcode_len frame.flags c.op_len }

-- A call's error, if any, the number that it took, 0 for none, and the client afterwards.
pub record Started : Type 0 where
  pub seq : ℕ
  pub error : Option Error
  pub client : Client

module _ (crc32_ieee : List ℕ → ℕ) (raw_write : List ℕ → ℕ × Option Error) where
  abbrev pub request_written : ℕ → Client → Done → Result Started
  request_written seq c done = elim done.error [
    | none ↦ ok (record {
      seq = seq;
      error = none;
      client = record c { conn = done.conn; requests_sent = add64 c.requests_sent 1 };
    })
    | some e ↦ (do
      sm ← remove seq c.seq_mgr
      ok (record {
        seq = seq;
        error = some e;
        client = record c { conn = done.conn; seq_mgr = sm };
      }))
  ]

  abbrev pub request_numbered : ℕ → List ℕ → ℕ → ℕ → SeqManager → Client → Result Started
  request_numbered opcode body pr seq sm c =
      let frame = request_frame opcode seq body c in
      write_packet crc32_ieee raw_write frame c.conn
      >>= request_written seq (record c { seq_mgr = enqueue pr seq frame sm })

  abbrev pub request_allocated : ℕ → List ℕ → ℕ → ℕ × SeqManager → Client → Result Started
  request_allocated opcode body pr allocated c =
      if allocated.0 == 0
      then ok (record {
        seq = 0;
        error = some conn_closed;
        client = record c { seq_mgr = allocated.1 };
      })
      else request_numbered opcode body pr allocated.0 allocated.1 c

  -- `SendRequest` up to its wait; `pr` is the pointer of the new pending request.
  unfoldable pub start_request : ℕ → List ℕ → ℕ → Client → Result Started
  unfolding allocate
  start_request opcode body pr c =
      if c.conn.closed
      then ok (record { seq = 0; error = some conn_closed; client = c })
      else request_allocated opcode body pr (allocate c.seq_mgr) c

  abbrev pub notification_written : Client → Done → Result Started
  notification_written c done = elim done.error [
    | none ↦ ok (record {
      seq = 0;
      error = none;
      client = record c { conn = done.conn; notifications_sent = add64 c.notifications_sent 1 };
    })
    | some e ↦ ok (record { seq = 0; error = some e; client = record c { conn = done.conn } })
  ]

  unfoldable pub send_notification : ℕ → List ℕ → Client → Result Started
  send_notification opcode body c =
      if c.conn.closed
      then ok (record { seq = 0; error = some conn_closed; client = c })
      else write_packet crc32_ieee raw_write (notification_frame opcode body c) c.conn
        >>= notification_written c

  unfoldable pub retransmit : PacketData → Client → Result Done
  retransmit frame c = write_packet crc32_ieee raw_write frame c.conn

-- `SendRequest` from what `WaitForResponse` returned on: the response or the error.
unfoldable pub finish_request : ℕ → Waited → Client → Result (Waited × Client)
finish_request seq (response frame) c =
    ok (response frame, record c { responses_received = add64 c.responses_received 1 })
finish_request seq (failure e) c = do
  sm ← remove seq c.seq_mgr
  ok (failure e, record c { seq_mgr = sm })

-- One round of `readLoop` on what `Decode` returned: whether it goes on, and the client.
-- `out_of_fuel` is no outcome of the source.
abbrev pub ends : ReadError → Bool
ends eof = true
ends failed = false

unfoldable pub read_round : Outcome → Client → Result (Bool × Client)
read_round (packet frame d) c =
    if is_response_packet frame
    then (do
      resolved ← resolve frame.seq frame c.seq_mgr
      ok (true, record c { seq_mgr = resolved.1 }))
    else ok (true, c)
read_round (io_error e d) c = if ends e || c.conn.closed then ok (false, c) else ok (true, c)
read_round crash c = panic
read_round out_of_fuel c = ok (true, c)

-- `raw_close` is the error of closing the socket.
unfoldable pub close_client : Option Error → Client → Result (Option Error × Client)
unfolding close_manager Connection.close
close_client raw_close c = if c.conn.closed then ok (none, c) else (do
  sm ← close_manager c.seq_mgr
  done ← Connection.close raw_close c.conn
  ok (done.error, record c { seq_mgr = sm; conn = done.conn }))

pub record ClientStats : Type 0 where
  pub requests : ℕ
  pub responses : ℕ
  pub notifications : ℕ
  pub pending : ℕ

unfoldable pub stats : Client → ClientStats
unfolding pending_count
stats c = record {
  requests = c.requests_sent;
  responses = c.responses_received;
  notifications = c.notifications_sent;
  pending = pending_count c.seq_mgr;
}
