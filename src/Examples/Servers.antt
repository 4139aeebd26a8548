-- ===== src/Examples/Servers.antt =====
-- The servers' tables, names and built-in handlers at concrete inputs.
use proto_q.Prelude.{
  ℕ, ◌+◌, ◌≡◌, refl, true, false, none, some, Option, List, [], ◌∷◌, length, find,
}
use proto_q.Errors.{ok}
use proto_q.Flags.{is_response}
use proto_q.Packet.{PacketData, is_response_packet}
use proto_q.Stream.{add64}
use proto_q.Queue.{new_message_queue}
use proto_q.Dispatch.{Connection, message_id}
use proto_q.Bridge.{BridgeError, ConnectionBridge, handle_frame}
use proto_q.Connection.{new_conn}
use proto_q.Server.{
  ConnContext, Server, accept_round, accepting, socket, active_conns, new_conn_context, cleanup,
}
use proto_q.Server.Table.{cleanup-accept_round}
use proto_q.Register.{BeanRegister}
use proto_q.MessageServer.{MessageServer, format_digits, format_uint64, format_client_id}
use proto_q.Negotiation.{NegotiateRequest, NegotiateResponse, handle_heartbeat}
use proto_q.Negotiation.Accepting.{noted, handle_frame-handle_heartbeat}
use proto_q.Errors.{panic, ◌>>=◌}
use proto_q.Stream.{Decoder, new_decoder, eof}
use proto_q.Decoder.{io_error}
use proto_q.Bridge.{write_round}
use proto_q.Queue.Wiring.{empty-IsWired}
use proto_q.Bridge.Serving.{
  Serving, Turn, decodes, turn, IsServedOut, start_serving, push, handle_all, serve, serve-ends,
}
use proto_q.MessageServer.{serve_conn}
use proto_q.MessageServer.Restoring.{serve_conn-restores}
use proto_q.Prelude.{Bool, map, ◌++◌, ap, ◌∙◌}
use proto_q.Examples.Exchanges.{fresh_conn, some_server}

abbrev new_context : ConnContext
new_context = record { conn = record fresh_conn { id = 0 }; id = 5; metadata = [] }

new_context_lem : new_conn_context (add64 4 1) some_server ≡ ok new_context
unfolding new_conn_context new_conn new_message_queue
new_context_lem = refl

cleanup-accept_round_example :
    (s' : Server) × (closed : ConnContext) × (accept_round false (socket 9) 4 some_server
      ≡ ok (accepting 5 s'))
    × (find 9 s'.conns ≡ some new_context)
    × (active_conns s' ≡ active_conns some_server + 1)
    × (cleanup none 9 new_context s' ≡ ok (closed, some_server))
    × (closed.conn.closed ≡ true)
unfolding find
cleanup-accept_round_example =
    cleanup-accept_round false 9 4 none some_server new_context refl new_context_lem refl

abbrev name_12 : List ℕ
name_12 = 99 ∷ 111 ∷ 110 ∷ 110 ∷ 45 ∷ 49 ∷ 50 ∷ []

name_12_lem : format_client_id 12 ≡ ok name_12
unfolding format_client_id format_uint64 format_digits
name_12_lem = refl

abbrev empty_beans : BeanRegister
empty_beans = record {
  codecs = [];
  filters = [];
  messages = record { filters = []; handlers = [] };
  events = [];
  connections = [];
}

abbrev idle_server : MessageServer
idle_server = record { beans = empty_beans; bridges = []; running = true; conn_id_seq = 12 }

abbrev plain_request : NegotiateRequest
plain_request = record { version = 1; encryption = 4; auth = none }

abbrev always_plain : List ℕ → Option NegotiateRequest
always_plain body = some plain_request

abbrev short_json : NegotiateResponse → Option (List ℕ)
short_json response = some (response.session_id ∷ [])

abbrev same_name : ℕ → ℕ
same_name n = n

abbrev open_peer : Connection
open_peer = record {
  is_closed = false;
  codec_type = none;
  queue = some new_message_queue;
  store = [];
  last_heartbeat = none;
  written = [];
}

abbrev negotiation : PacketData
negotiation = record { flags = 0x6a; opcode = 0x01; seq = 7; body = 123 ∷ [] }

abbrev heartbeat : PacketData
heartbeat = record { flags = 0x4a; opcode = 0x02; seq = 8; body = [] }

abbrev error_texts : BridgeError → List ℕ
error_texts e = []

abbrev heartbeat_bridge : ConnectionBridge
heartbeat_bridge = record {
  conn = open_peer;
  codec = none;
  dispatcher = record { filters = []; handlers = (2, handle_heartbeat 50) ∷ [] };
  write_ch = [];
  writing = true;
}

handle_frame-handle_heartbeat_example :
    handle_frame error_texts heartbeat heartbeat_bridge ≡ ok (noted 50 heartbeat_bridge)
unfolding is_response_packet is_response message_id find
handle_frame-handle_heartbeat_example =
    handle_frame-handle_heartbeat error_texts 50 heartbeat heartbeat_bridge refl refl refl refl refl

heartbeat_handled :
    (b : ConnectionBridge)
    → b.conn.is_closed ≡ false
    → b.dispatcher ≡ heartbeat_bridge.dispatcher
    → handle_frame error_texts heartbeat b ≡ ok (noted 50 b)
unfolding is_response_packet is_response message_id find
heartbeat_handled b is_open same =
    handle_frame-handle_heartbeat error_texts 50 heartbeat b refl refl is_open
      (ap (λ d. d.filters) same) (ap (λ d. find 2 d.handlers) same)

abbrev accepts_all : PacketData → Bool
accepts_all f = true

-- Two heartbeats, and a round of the write loop between them.
abbrev heartbeats : List (Option PacketData)
heartbeats = some heartbeat ∷ none ∷ some heartbeat ∷ []

heartbeats_handled :
    handle_all error_texts accepts_all heartbeats heartbeat_bridge
    ≡ ok (noted 50 (noted 50 heartbeat_bridge))
unfolding handle_all write_round
heartbeats_handled =
    ap (λ r. r >>= handle_all error_texts accepts_all (none ∷ some heartbeat ∷ []))
      (heartbeat_handled heartbeat_bridge refl refl)
    ∙ ap (λ r. r >>= handle_all error_texts accepts_all [])
        (heartbeat_handled (noted 50 heartbeat_bridge) refl refl)

abbrev some_decoder : Decoder
some_decoder = new_decoder []

abbrev turns : List Turn
turns =
    map (turn error_texts accepts_all some_decoder) heartbeats
    ++ (decodes (io_error eof some_decoder) ∷ [])

serve-ends_example :
    (s : Serving) × (serve error_texts accepts_all 1 turns (start_serving heartbeat_bridge)
      ≡ ok (false, s))
    × IsServedOut error_texts accepts_all new_message_queue (noted 50 (noted 50 heartbeat_bridge)) s
    × ((frame : PacketData) → push frame s ≡ panic)
    × (serve error_texts accepts_all 0 (decodes (io_error eof some_decoder) ∷ []) s ≡ panic)
unfolding new_message_queue
serve-ends_example =
    serve-ends error_texts accepts_all 1 0 heartbeats eof some_decoder [] [] heartbeat_bridge
      (noted 50 (noted 50 heartbeat_bridge)) new_message_queue heartbeats_handled refl refl
      (empty-IsWired [])

serve_conn-restores_example :
    (r : Serving) × (serve_conn length error_texts accepts_all 1 turns 3 8 12 heartbeat_bridge
        idle_server
      ≡ ok (false, (idle_server, r)))
    × IsServedOut error_texts accepts_all new_message_queue (noted 50 (noted 50 heartbeat_bridge)) r
unfolding find new_message_queue
serve_conn-restores_example =
    serve_conn-restores length error_texts accepts_all 1 heartbeats eof some_decoder 3 8 12 name_12
      heartbeat_bridge (noted 50 (noted 50 heartbeat_bridge)) new_message_queue idle_server
      name_12_lem refl refl heartbeats_handled refl refl (empty-IsWired [])
