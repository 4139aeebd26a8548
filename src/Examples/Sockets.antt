-- ===== src/Examples/Sockets.antt =====
-- WebSocket frames and the calls of a connection at concrete inputs.
use proto_q.Prelude.{
  ℕ, ◌≡◌, ◌≢◌, refl, arith, none, some, Option, List, [], ◌∷◌, ◌++◌, true, false, find,
}
use proto_q.Errors.{Error, ok}
use proto_q.Flags.{
  validate, requires_ack, is_response, has_body_len, opcode_len, seq_len, crc_len, set_dir,
  set_requires_ack, set_body_len, set_opcode_len, set_seq_len, set_crc_len,
}
use proto_q.Packet.{field_len, new_request_packet, write_at, copy_at, slice, put_uint_n}
use proto_q.Encoder.{put_crc, encode_valid, encode}
use proto_q.Queue.{new_message_queue}
use proto_q.Queue.Refinement.{
  Call, put_call, take_call, get_call, run_calls, spec_run, run_calls-spec_run,
}
use proto_q.Connection.{Conn, next_send_seq, send}
use proto_q.Connection.Sending.{IsSent, IsUndone, send-outcomes}
use proto_q.WebSocket.{
  WsConn, WsError, again, returned, ws_header, ws_binary_frame, ws_write, ws_read,
}
use proto_q.WebSocket.Reading.{ws_read-ws_write}
use proto_q.WebSocket.Ending.{ws_read-ends}
use proto_q.WebSocket.Oversize.{ws_read-oversize}
use proto_q.Examples.Exchanges.{no_crc32, accepting_socket, fresh_conn}

abbrev pub quiet_socket : List ℕ → Option WsError
quiet_socket bytes = none

abbrev pub ws_conn : List ℕ → WsConn
ws_conn stream = record { stream = stream; written = []; closed = false }

ws_read-ws_write_example :
    (frame : List ℕ) × (ws_write quiet_socket (1 ∷ 2 ∷ []) (ws_conn [])
      ≡ (2, (none, record (ws_conn []) { written = [] ++ (frame ∷ []) })))
    × (ws_read 1000 quiet_socket 1
          (0 ∷ 0 ∷ 0 ∷ [])
          (record (ws_conn []) { stream = frame ++ (5 ∷ []) })
        ≡ returned 2 none (1 ∷ 2 ∷ 0 ∷ []) (record (ws_conn []) { stream = 5 ∷ [] }))
ws_read-ws_write_example =
    ws_read-ws_write 1000 quiet_socket (1 ∷ 2 ∷ []) (5 ∷ []) (0 ∷ 0 ∷ 0 ∷ []) 0 (ws_conn [])
      (ws_conn []) (omega arith) (omega arith) (omega arith) refl

-- A pong, an unknown frame and half a header.
ws_read-ends_example :
    ws_read 1000 quiet_socket 4 (0 ∷ []) (ws_conn (138 ∷ 0 ∷ 131 ∷ 1 ∷ 7 ∷ 130 ∷ []))
    ≢ again (ws_conn [])
ws_read-ends_example =
    ws_read-ends 1000 quiet_socket (0 ∷ []) 4 (ws_conn (138 ∷ 0 ∷ 131 ∷ 1 ∷ 7 ∷ 130 ∷ []))
      (ws_conn []) (omega arith)

ws_read-oversize_example :
    ws_read 1000 quiet_socket 1 (0 ∷ []) (record (ws_conn []) {
      stream = (ws_header ws_binary_frame 3 ++ (1 ∷ 2 ∷ 3 ∷ [])) ++ (5 ∷ []);
    })
    ≡ returned 3 none (1 ∷ []) (record (ws_conn []) { stream = 5 ∷ [] })
ws_read-oversize_example =
    ws_read-oversize 1000 quiet_socket 0 (1 ∷ 2 ∷ 3 ∷ []) (5 ∷ []) (0 ∷ []) (ws_conn [])
      (omega arith) (omega arith)

-- The request with number 1 of a body of one byte.
abbrev pub first_request : List ℕ
first_request = 81 ∷ 106 ∷ 0 ∷ 5 ∷ 1 ∷ 1 ∷ 0 ∷ 1 ∷ 4 ∷ 0 ∷ 0 ∷ 0 ∷ []

first_seq : (next_send_seq 0).0 ≡ 1
unfolding next_send_seq
first_seq = refl

first_request_lem :
    encode no_crc32 (new_request_packet 0x0101 (next_send_seq 0).0 (4 ∷ []) true false)
    ≡ ok first_request
unfolding encode encode_valid put_crc has_body_len opcode_len seq_len crc_len validate requires_ack
    is_response write_at copy_at slice put_uint_n new_request_packet field_len set_dir next_send_seq
    set_requires_ack set_body_len set_opcode_len set_seq_len set_crc_len
first_request_lem = refl

send-outcomes_example :
    ((accepting_socket first_request).1 ≡ none
      → (c' : Conn) × (send no_crc32 accepting_socket 0x0101 (4 ∷ []) 2 0 fresh_conn
          ≡ ok
              (record { channel = some 2; error = none; conn = c'; counter = (next_send_seq 0).1 }))
        × IsSent (next_send_seq 0).0 2 first_request fresh_conn c')
    × ((e : Error)
        → (accepting_socket first_request).1 ≡ some e
        → (c' : Conn) × (send no_crc32 accepting_socket 0x0101 (4 ∷ []) 2 0 fresh_conn
            ≡ ok (record {
              channel = none;
              error = some e;
              conn = c';
              counter = (next_send_seq 0).1;
            }))
          × IsUndone 2 first_request fresh_conn c')
unfolding find
send-outcomes_example =
    send-outcomes no_crc32 accepting_socket 0x0101 2 0 (4 ∷ []) first_request fresh_conn refl refl
      first_request_lem

abbrev some_calls : List Call
some_calls = put_call 7 1 ∷ put_call 7 2 ∷ get_call 7 ∷ take_call 7 ∷ take_call 7 ∷ []

run_calls-spec_run_example :
    run_calls some_calls new_message_queue ≡ spec_run some_calls (λ i. none)
run_calls-spec_run_example = run_calls-spec_run some_calls
