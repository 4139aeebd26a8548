-- ===== src/MessageServer.antt =====
-- server/message_server.go: its registers and its connections. A bridge is known by a number, its
-- pointer. `Serve` and `ServeConn` are cut where they wait for the bridge's loops. `client_of`
-- numbers the names of the clients.
pub mod Names
pub mod Restoring
use proto_q.Prelude.{
  ℕ, zero, suc, ◌+◌, ◌*◌, ◌/◌, ◌%◌, ◌^◌, Bool, true, false, Option, none, some, List, [], ◌∷◌, ◌++◌,
  ◌==◌, if◌then◌else◌, Map, find, erase, put, length,
}
use proto_q.Errors.{Result, ok, err, panic, ◌>>=◌}
use proto_q.Stream.{add64}
use proto_q.Connection.{Conn, new_conn_with_id, tcp}
use proto_q.Dispatch.{MessageHandler, negotiate_filter}
use proto_q.Packet.{PacketData}
use proto_q.Bridge.{BridgeError, ConnectionBridge}
use proto_q.Bridge.Serving.{Serving, Turn, start_serving, serve}
use proto_q.Register.{
  BeanRegister, Bean, filter_bean, new_bean_register, register_bean, register_message_handler,
  add_connection, remove_connection,
}

pub record MessageServer : Type 0 where
  pub beans : BeanRegister
  pub bridges : Map ℕ
  pub running : Bool
  pub conn_id_seq : ℕ

-- `negotiate_handler` and `heartbeat_handler` are the handlers of the two built-in messages.
unfoldable pub new_message_server : MessageHandler → MessageHandler → MessageServer
unfolding new_bean_register register_bean register_message_handler
new_message_server negotiate_handler heartbeat_handler =
    let filtered = register_bean (filter_bean negotiate_filter) new_bean_register in
    record {
      beans =
          register_message_handler 0x02 heartbeat_handler
            (register_message_handler 0x01 negotiate_handler filtered);
      bridges = [];
      running = false;
      conn_id_seq = 0;
    }

unfoldable pub connection_count : MessageServer → ℕ
connection_count s = length s.bridges

unfoldable pub set_running : Bool → MessageServer → MessageServer
set_running running s = record s { running = running }

-- The loop of `formatUint64`: `room` is the index `i`, and `buf[i:]` the digits so far.
unfoldable pub format_digits : ℕ → ℕ → List ℕ → Result (List ℕ)
format_digits zero v digits = if v == 0 then ok digits else panic
format_digits (suc room) v digits =
    let rest = format_digits room (v / 10) ((48 + v % 10) ∷ digits) in
    if v == 0 then ok digits else rest

unfoldable pub format_uint64 : ℕ → Result (List ℕ)
unfolding format_digits
format_uint64 v = if v == 0 then ok (48 ∷ []) else format_digits 20 v []

-- "conn-"
abbrev pub client_prefix : List ℕ
client_prefix = 99 ∷ 111 ∷ 110 ∷ 110 ∷ 45 ∷ []

unfoldable pub format_client_id : ℕ → Result (List ℕ)
unfolding format_uint64
format_client_id conn_id = do digits ← format_uint64 conn_id; ok (client_prefix ++ digits)

module _ (client_of : List ℕ → ℕ) where
  -- What `ServeConn` does before the bridge's loops run, for the connection behind `conn` with the
  -- number `id`.
  unfoldable pub attach : ℕ → ℕ → ℕ → MessageServer → Result MessageServer
  unfolding format_client_id add_connection
  attach bridge conn id s = do
    client ← format_client_id id
    ok (record s {
      beans = add_connection (client_of client) conn s.beans;
      bridges = put bridge conn s.bridges;
    })

  -- What it does when they have ended.
  unfoldable pub detach : ℕ → ℕ → MessageServer → Result MessageServer
  unfolding format_client_id remove_connection
  detach bridge id s = do
    client ← format_client_id id
    ok (record s {
      beans = remove_connection (client_of client) s.beans;
      bridges = erase bridge s.bridges;
    })

  -- `Serve` up to the bridge's loops; `conn` is the pointer of the new connection.
  unfoldable pub start_serve : ℕ → ℕ → MessageServer → Result (Conn × MessageServer)
  unfolding new_conn_with_id attach
  start_serve bridge conn s = do
    let id = add64 s.conn_id_seq 1
    c ← new_conn_with_id none id tcp
    s' ← attach bridge conn id (record s { conn_id_seq = id })
    ok (c, s')

-- `ServeConn` on a connection whose bridge is `b`: whether it still waits for `Decode`, the server,
-- and the bridge, where the write loop does `late` rounds before the connection is closed. It forgets the client's name and the bridge once `Serve` of the bridge returns.
module _ (client_of : List ℕ → ℕ) (text : BridgeError → List ℕ) (accepts : PacketData → Bool)
    (late : ℕ) where
  abbrev pub after_serve :
      ℕ → ℕ → MessageServer → Bool × Serving → Result (Bool × (MessageServer × Serving))
  after_serve bridge id s r =
      if r.0
      then ok (true, (s, r.1))
      else (do s' ← detach client_of bridge id s; ok (false, (s', r.1)))

  unfoldable pub serve_conn :
      List Turn
      → ℕ
      → ℕ
      → ℕ
      → ConnectionBridge
      → MessageServer
      → Result (Bool × (MessageServer × Serving))
  unfolding attach detach serve
  serve_conn turns bridge conn id b s = do
    s1 ← attach client_of bridge conn id s
    r ← serve text accepts late turns (start_serving b)
    after_serve bridge id s1 r
