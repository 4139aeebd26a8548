-- ===== src/Examples/Closings.antt =====
-- What closing does to a manager and to a connection that have a pending request.
use proto_q.Prelude.{ℕ, ◌≡◌, refl, true, false, Option, none, some, [], ◌∷◌, find, put, erase}
use proto_q.Errors.{Error, conn_closed, ok}
use proto_q.Flags.{
  validate, requires_ack, is_response, has_body_len, opcode_len, seq_len, crc_len, set_dir,
  set_requires_ack, set_body_len, set_opcode_len, set_seq_len, set_crc_len,
}
use proto_q.Packet.{PacketData, field_len, new_request_packet, write_at, copy_at, slice, put_uint_n}
use proto_q.Encoder.{put_crc, encode_valid, encode}
use proto_q.Queue.{MessageQueue, Store, new_message_queue, put_channel, complete}
use proto_q.Queue.Closing.{IsCleared}
use proto_q.Connection.{
  Conn, Done, Sent, empty_channel, new_conn, new_conn_with_id, next_send_seq, write_packet, send,
  close,
}
use proto_q.Seq.{
  SeqManager, PendingRequest, new_seq_manager, next_after, allocate, enqueue, close_manager,
  wait_for_response, failure,
}
use proto_q.Seq.Reachable.{Reachable, start, later, allocates, enqueues, Reachable-close_manager}
use proto_q.Connection.Reachable.{ConnReachable, created, stepped, sends, Reachable-close}
use proto_q.Examples.Exchanges.{no_crc32, accepting_socket, fresh_conn}
use proto_q.Examples.Pending.{pulse}
use proto_q.Examples.Sockets.{first_request}

-- A manager that gave its first number to a request.
abbrev busy : SeqManager
busy = enqueue 1 1 pulse (allocate (new_seq_manager 2)).1

no_request : find 1 (allocate (new_seq_manager 2)).1.requests ≡ none
unfolding find allocate new_seq_manager next_after
no_request = refl

busy-Reachable : Reachable 2 busy
busy-Reachable = later (later start allocates) (enqueues 1 1 pulse no_request)

Reachable-close_manager_example :
    (sm' : SeqManager) × (close_manager busy ≡ ok sm')
    × Reachable 2 sm'
    × (sm'.pending ≡ [])
    × ((allocate sm').0 ≡ 0)
    × ((seq pr : ℕ)
        → find seq busy.pending ≡ some pr
        → (r : PendingRequest) × (find pr sm'.requests ≡ some r)
          × (wait_for_response none r ≡ failure conn_closed ∷ []))
Reachable-close_manager_example = Reachable-close_manager busy-Reachable

-- The connection after the first `Send`.
abbrev sent_conn : Conn
sent_conn = record fresh_conn {
  msg_queue = record { pending = (1, 2) ∷ []; count = 1 };
  store = (2, empty_channel) ∷ [];
  sent = first_request ∷ [];
}

abbrev first_sent : Sent
first_sent = record { channel = some 2; error = none; conn = sent_conn; counter = 1 }

fresh_conn-Reachable : ConnReachable no_crc32 accepting_socket fresh_conn
unfolding new_conn_with_id new_conn new_message_queue
fresh_conn-Reachable = created (some false) 1 0 fresh_conn refl

first_sends : send no_crc32 accepting_socket 0x0101 (4 ∷ []) 2 0 fresh_conn ≡ ok first_sent
unfolding send write_packet put_channel put erase encode encode_valid put_crc has_body_len
    opcode_len seq_len crc_len validate requires_ack is_response write_at copy_at slice put_uint_n
    new_request_packet field_len set_dir next_send_seq set_requires_ack set_body_len set_opcode_len
    set_seq_len set_crc_len
first_sends = refl

nothing_2 : find 2 fresh_conn.store ≡ none
unfolding find
nothing_2 = refl

Reachable-close_example :
    ((seq : ℕ) (frame : PacketData)
      → (r : MessageQueue × Store) × (complete seq frame sent_conn.msg_queue sent_conn.store ≡ ok r)
        × (find seq r.0.pending ≡ none))
    × ((raw_close : Option Error)
        → sent_conn.closed ≡ false
        → (d : Done) × (close raw_close sent_conn ≡ ok d)
          × (d.conn.closed ≡ true)
          × (d.error ≡ raw_close)
          × (d.conn.msg_queue ≡ new_message_queue)
          × IsCleared sent_conn.msg_queue.pending sent_conn.store d.conn.store)
Reachable-close_example = Reachable-close no_crc32 accepting_socket sent_conn (
    stepped fresh_conn sent_conn fresh_conn-Reachable
      (sends 0x0101 (4 ∷ []) 2 0 fresh_conn first_sent nothing_2 first_sends))
