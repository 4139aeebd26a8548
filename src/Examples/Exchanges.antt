-- ===== src/Examples/Exchanges.antt =====
-- A client and a server at concrete inputs.
use proto_q.Prelude.{
  ℕ, ◌≤◌, ◌≡◌, refl, arith, true, false, Option, none, List, [], ◌∷◌, ◌++◌, length, find, inl,
}
use proto_q.Errors.{Error, ok}
use proto_q.Flags.{
  validate, requires_ack, is_response, has_body_len, opcode_len, seq_len, crc_len, set_dir,
  set_requires_ack, set_body_len, set_opcode_len, set_seq_len, set_crc_len,
}
use proto_q.Packet.{
  PacketData, field_len, new_request_packet, new_response_packet, write_at, copy_at, slice,
  put_uint_n,
}
use proto_q.Encoder.{put_crc, encode_valid, encode}
use proto_q.Encoder.Encodable.{IsEncodable}
use proto_q.Stream.{new_decoder}
use proto_q.Stream.Ready.{pending}
use proto_q.Decoder.Position.{IsBetween}
use proto_q.Seq.{new_seq_manager, allocate, default_retry_timeout}
use proto_q.Connection.{Conn, tcp, new_conn}
use proto_q.Client
use proto_q.Client.{Client, new_client, request_frame}
use proto_q.Client.Reachable.{Reachable, created, Reachable-IsEncodable}
use proto_q.Queue.{new_message_queue}
use proto_q.Client.Frames.{IsNumbering, IsSendable}
use proto_q.Server.{ConnContext, Answer, Server, response_frame}
use proto_q.Exchange.{exchange-IsExchanged, IsExchanged}

abbrev pub no_crc32 : List ℕ → ℕ
no_crc32 bytes = 0

abbrev pub accepting_socket : List ℕ → ℕ × Option Error
accepting_socket bytes = (length bytes, none)

abbrev pub fresh_conn : Conn
fresh_conn = record {
  closed = false;
  cancelled = false;
  raw_closed = false;
  sent = [];
  id = 1;
  conn_type = tcp;
  props = [];
  msg_queue = record { pending = []; count = 0 };
  store = [];
  codec = none;
}

-- A client without checksums that is to hand out number 7.
abbrev some_client : Client
some_client = record {
  conn = fresh_conn;
  seq_mgr = record {
    next = 7;
    pending = [];
    closed = false;
    seq_len = 2;
    retry_timeout = default_retry_timeout;
    requests = [];
  };
  op_len = 2;
  number_len = 2;
  use_crc = false;
  requests_sent = 0;
  responses_received = 0;
  notifications_sent = 0;
}

abbrev some_context : ConnContext
some_context = record { conn = fresh_conn; id = 1; metadata = [] }

-- A handler that answers with the body and a byte more.
abbrev echo : ConnContext → ℕ → List ℕ → Answer
echo ctx opcode body = record { body = body ++ (9 ∷ []); error = none; context = ctx }

abbrev pub some_server : Server
some_server = record {
  handlers = (0x0101, echo) ∷ [];
  op_len = 2;
  on_connect = none;
  on_close = none;
  conns = [];
  cancelled = false;
  running = true;
}

abbrev unknown_text : ℕ → List ℕ
unknown_text opcode = 63 ∷ []

abbrev some_request : PacketData
some_request = request_frame 0x0101 7 (1 ∷ 2 ∷ []) some_client

abbrev some_reply : PacketData
some_reply = response_frame some_request (1 ∷ 2 ∷ 9 ∷ []) some_server

abbrev sent_bytes : List ℕ
sent_bytes = 81 ∷ 106 ∷ 0 ∷ 6 ∷ 1 ∷ 1 ∷ 0 ∷ 7 ∷ 1 ∷ 2 ∷ 0 ∷ 0 ∷ []

abbrev back_bytes : List ℕ
back_bytes = 81 ∷ 170 ∷ 0 ∷ 7 ∷ 1 ∷ 1 ∷ 0 ∷ 7 ∷ 1 ∷ 2 ∷ 9 ∷ 0 ∷ []

request_lem : encode no_crc32 some_request ≡ ok sent_bytes
unfolding encode encode_valid put_crc has_body_len opcode_len seq_len crc_len validate requires_ack
    is_response write_at copy_at slice put_uint_n request_frame new_request_packet field_len set_dir
    set_requires_ack set_body_len set_opcode_len set_seq_len set_crc_len
request_lem = refl

reply_lem : encode no_crc32 some_reply ≡ ok back_bytes
unfolding encode encode_valid put_crc has_body_len opcode_len seq_len crc_len validate requires_ack
    is_response write_at copy_at slice put_uint_n request_frame new_request_packet field_len set_dir
    set_requires_ack set_body_len set_opcode_len set_seq_len set_crc_len new_response_packet
reply_lem = refl

some_client-IsNumbering : IsNumbering some_client
some_client-IsNumbering = record {
  ready = record { positive = omega arith; fits = omega arith };
  same = refl;
  either = inl refl;
}

some_client-IsSendable : IsSendable 0x0101 (1 ∷ 2 ∷ []) some_client
some_client-IsSendable = record { opcode_fits = omega arith; body_fits = omega arith }

one_read-IsBetween :
    (bytes : List ℕ)
    → length bytes ≤ 4096
    → IsBetween (bytes ++ []) 0 (new_decoder (record { bytes = bytes; error = none } ∷ []))
unfolding new_decoder pending
one_read-IsBetween bytes small = record {
  idle = record {
    state = refl;
    place = refl;
    same = refl;
    room = (omega arith, inl refl);
    calm = ((refl, small), tt);
    frames = refl;
    reached = omega arith;
  };
  no_body = refl;
}

-- The client that `NewClient` makes without options.
abbrev first_client : Client
first_client = record some_client {
  conn = record fresh_conn { id = 0 };
  seq_mgr = record some_client.seq_mgr { next = 1 };
  use_crc = true;
}

first_client-Reachable : Reachable no_crc32 accepting_socket first_client
unfolding new_client Client.apply_options new_conn new_seq_manager new_message_queue
first_client-Reachable = created [] first_client refl

Reachable-IsEncodable_example :
    IsEncodable (request_frame 0x0101 (allocate first_client.seq_mgr).0 (1 ∷ 2 ∷ []) first_client)
Reachable-IsEncodable_example =
    Reachable-IsEncodable no_crc32 accepting_socket 0x0101 (1 ∷ 2 ∷ []) first_client
      first_client-Reachable (inl refl) refl
      (record { opcode_fits = omega arith; body_fits = omega arith })

exchange-IsExchanged_example :
    IsExchanged no_crc32 accepting_socket accepting_socket unknown_text 0x0101 1
      (1 ∷ 2 ∷ [])
      echo
      some_client
      some_server
      some_context
      sent_bytes
      back_bytes
      (new_decoder (record { bytes = sent_bytes; error = none } ∷ []))
      (new_decoder (record { bytes = back_bytes; error = none } ∷ []))
unfolding find allocate
exchange-IsExchanged_example =
    exchange-IsExchanged no_crc32 accepting_socket accepting_socket unknown_text 0x0101 1
      (1 ∷ 2 ∷ []) echo some_client some_server some_context 0 0 sent_bytes back_bytes [] []
      (new_decoder (record { bytes = sent_bytes; error = none } ∷ []))
      (new_decoder (record { bytes = back_bytes; error = none } ∷ [])) some_client-IsNumbering refl
      refl some_client-IsSendable refl refl (omega arith) (omega arith) request_lem reply_lem refl
      refl (one_read-IsBetween sent_bytes (omega arith))
      (one_read-IsBetween back_bytes (omega arith))
