-- ===== src/Server.antt =====
-- server/server.go: the handlers and the connections of a server, and the loop of one connection.
-- A connection is known by a number, its pointer. A handler is given the context of its connection
-- and returns it as it leaves it. Each `go` statement is a `Task` that somebody runs later. The
-- listener, the locks and the waiting are left out.
pub mod Frames
pub mod Rounds
pub mod Table
use proto_q.Prelude.{
  ℕ, ◌+◌, ◌%◌, ◌^◌, Bool, true, false, not, Option, none, some, List, [], ◌∷◌, ◌++◌, ◌==◌, ◌||◌,
  if◌then◌else◌, Map, find, erase, put, length,
}
use proto_q.Errors.{Error, Result, ok, err, panic, ◌>>=◌}
use proto_q.Flags.{set_opcode_len}
use proto_q.Packet.{PacketData, new_response_packet, is_request_packet, packet_requires_ack}
use proto_q.Stream.{ReadError, eof, failed, add64}
use proto_q.Decoder.{Outcome, packet, io_error, crash, out_of_fuel}
use proto_q.Connection
use proto_q.Connection.{Conn, Done, Value, text, other_value, string_value, new_conn, write_packet}
use proto_q.Client.{default_opcode_len}

pub record ConnContext : Type 0 where
  pub conn : Conn
  pub id : ℕ
  pub metadata : Map Value

-- What a handler returns; `error` is the text of its error.
pub record Answer : Type 0 where
  pub body : List ℕ
  pub error : Option (List ℕ)
  pub context : ConnContext

abbrev pub ConnHandler : Type 0
ConnHandler = ConnContext → ℕ → List ℕ → Answer

abbrev pub Hook : Type 0
Hook = Option (ConnContext → ConnContext)

pub record Server : Type 0 where
  pub handlers : Map ConnHandler
  pub op_len : ℕ
  pub on_connect : Hook
  pub on_close : Hook
  pub conns : Map ConnContext
  pub cancelled : Bool
  pub running : Bool

abbrev pub ServerOption : Type 0
ServerOption = Server → Server

unfoldable pub with_server_opcode_len : ℕ → ServerOption
with_server_opcode_len n s = record s { op_len = n }

unfoldable pub with_on_connect : Hook → ServerOption
with_on_connect hook s = record s { on_connect = hook }

unfoldable pub with_on_close : Hook → ServerOption
with_on_close hook s = record s { on_close = hook }

unfoldable pub apply_options : List ServerOption → Server → Server
apply_options [] s = s
apply_options (opt ∷ opts) s = apply_options opts (opt s)

unfoldable pub new_server : List ServerOption → Server
unfolding apply_options
new_server opts = apply_options opts (record {
  handlers = [];
  op_len = default_opcode_len;
  on_connect = none;
  on_close = none;
  conns = [];
  cancelled = false;
  running = false;
})

unfoldable pub handle : ℕ → ConnHandler → Server → Server
handle opcode handler s = record s { handlers = put opcode handler s.handlers }

unfoldable pub lookup_handler : ℕ → Server → Option ConnHandler
lookup_handler opcode s = find opcode s.handlers

unfoldable pub new_conn_context : ℕ → Server → Result ConnContext
unfolding new_conn
new_conn_context id s = do
  conn ← new_conn (some s.cancelled)
  ok (record { conn = conn; id = id; metadata = [] })

abbrev pub run_hook : Hook → ConnContext → ConnContext
run_hook none ctx = ctx
run_hook (some hook) ctx = hook ctx

-- What `Accept` returned: a socket, whose context gets the pointer `p`, or an error.
pub data Accepted : Type 0 where
  socket : ℕ → Accepted
  temporary_error : Accepted
  lasting_error : Accepted

-- Where a round of the accept loop leaves it: going on with its counter, returning nil, or
-- returning an error.
pub data Accepting : Type 0 where
  accepting : ℕ → Server → Accepting
  accept_ended : Bool → Accepting

-- `stopped` says whether the context that `ListenAndServe` was given is done.
unfoldable pub accept_round : Bool → Accepted → ℕ → Server → Result Accepting
unfolding new_conn_context
accept_round stopped (socket p) conn_id s = do
  let id = add64 conn_id 1
  ctx ← new_conn_context id s
  let s1 = record s { conns = put p ctx s.conns }
  ok (accepting id (record s1 { conns = put p (run_hook s.on_connect ctx) s1.conns }))
accept_round stopped temporary_error conn_id s =
    if stopped || s.cancelled then ok (accept_ended true) else ok (accepting conn_id s)
accept_round stopped lasting_error conn_id s =
    if stopped || s.cancelled then ok (accept_ended true) else ok (accept_ended false)

-- What one round of `serve` leaves to a new goroutine.
pub data Task : Type 0 where
  no_task : Task
  answer_request : PacketData → ConnHandler → Task
  run_only : PacketData → ConnHandler → Task

-- One round of `serve`: whether it goes on, its task, and the context.
pub record Served : Type 0 where
  pub goes_on : Bool
  pub task : Task
  pub context : ConnContext

abbrev pub goes : Task → ConnContext → Served
goes task ctx = record { goes_on = true; task = task; context = ctx }

abbrev pub ends : ReadError → Bool
ends eof = true
ends failed = false

abbrev pub response_frame : PacketData → List ℕ → Server → PacketData
response_frame request body s =
    let resp = new_response_packet request.opcode request.seq body request.flags in
    record resp { flags = set_opcode_len resp.flags s.op_len }

module _ (crc32_ieee : List ℕ → ℕ) (raw_write : List ℕ → ℕ × Option Error) where
  -- The error of the write is dropped.
  abbrev pub respond : PacketData → List ℕ → Server → ConnContext → Result ConnContext
  respond request body s ctx = do
    done ← write_packet crc32_ieee raw_write (response_frame request body s) ctx.conn
    ok (record ctx { conn = done.conn })

  -- `message` is the text of the error.
  unfoldable pub send_error_response :
      PacketData → List ℕ → Server → ConnContext → Result ConnContext
  send_error_response request message s ctx = respond request message s ctx

  abbrev pub answer_body : Answer → List ℕ
  answer_body a = elim a.error [
    | none ↦ a.body
    | some message ↦ if length a.body == 0 then message else a.body
  ]

  unfoldable pub handle_request :
      PacketData → ConnHandler → Server → ConnContext → Result ConnContext
  handle_request frame handler s ctx =
      let answer = handler ctx frame.opcode frame.body in
      respond frame (answer_body answer) s answer.context

  unfoldable pub run_task : Task → Server → ConnContext → Result ConnContext
  unfolding handle_request
  run_task no_task s ctx = ok ctx
  run_task (answer_request frame handler) s ctx = handle_request frame handler s ctx
  run_task (run_only frame handler) s ctx = ok (handler ctx frame.opcode frame.body).context

  -- `unknown` is the text of the error for an operation code without a handler.
  unfoldable pub serve_frame : (ℕ → List ℕ) → PacketData → Server → ConnContext → Result Served
  unfolding lookup_handler send_error_response
  serve_frame unknown frame s ctx =
      if not (is_request_packet frame)
      then ok (goes no_task ctx)
      else elim (lookup_handler frame.opcode s) [
        | none ↦
            if packet_requires_ack frame
            then (do
              ctx' ← send_error_response frame (unknown frame.opcode) s ctx
              ok (goes no_task ctx'))
            else ok (goes no_task ctx)
        | some handler ↦
            if packet_requires_ack frame
            then ok (goes (answer_request frame handler) ctx)
            else ok (goes (run_only frame handler) ctx)
      ]

  -- One round on what `Decode` returned; `out_of_fuel` is no outcome of the source.
  unfoldable pub serve_round : (ℕ → List ℕ) → Outcome → Server → ConnContext → Result Served
  unfolding serve_frame
  serve_round unknown (packet frame d) s ctx = serve_frame unknown frame s ctx
  serve_round unknown (io_error e d) s ctx = ok (record {
    goes_on = not (ends e || (ctx.conn.cancelled || s.cancelled));
    task = no_task;
    context = ctx;
  })
  serve_round unknown crash s ctx = panic
  serve_round unknown out_of_fuel s ctx = ok (goes no_task ctx)

-- `raw_close` is the error of closing the socket.
unfoldable pub cleanup : Option Error → ℕ → ConnContext → Server → Result (ConnContext × Server)
unfolding Connection.close
cleanup raw_close p ctx s = do
  let ctx1 = run_hook s.on_close ctx
  done ← Connection.close raw_close ctx1.conn
  ok (record ctx1 { conn = done.conn }, record s { conns = erase p s.conns })

unfoldable pub close_context : Option Error → ConnContext → Result (Option Error × ConnContext)
unfolding Connection.close
close_context raw_close ctx = do
  done ← Connection.close raw_close ctx.conn
  ok (done.error, record ctx { conn = done.conn })

-- The loop of `Shutdown` over its copy of the table, whose entries stay until their `cleanup`.
unfoldable pub close_contexts : (ℕ → Option Error) → Map ConnContext → Result (Map ConnContext)
unfolding close_context
close_contexts raw_close [] = ok []
close_contexts raw_close ((p, ctx) ∷ m) = do
  closed ← close_context (raw_close p) ctx
  rest ← close_contexts raw_close m
  ok ((p, closed.1) ∷ rest)

unfoldable pub shutdown : (ℕ → Option Error) → Server → Result Server
unfolding close_contexts
shutdown raw_close s = do
  conns ← close_contexts raw_close s.conns
  ok (record s { cancelled = true; conns = conns })

unfoldable pub set_metadata : ℕ → Value → ConnContext → ConnContext
set_metadata key v ctx = record ctx { metadata = put key v ctx.metadata }

unfoldable pub get_metadata : ℕ → ConnContext → Option Value
get_metadata key ctx = find key ctx.metadata

unfoldable pub get_string : ℕ → ConnContext → Option (List ℕ)
unfolding get_metadata
get_string key ctx = string_value (get_metadata key ctx)

unfoldable pub active_conns : Server → ℕ
active_conns s = length s.conns

unfoldable pub is_running : Server → Bool
is_running s = s.running
