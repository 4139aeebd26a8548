-- ===== src/Examples/Wires.antt =====
-- Two frames over a WebSocket connection.
use proto_q.Prelude.{ℕ, ◌≡◌, refl, arith, ◌≤◌, List, [], ◌∷◌, length, replicate, length-replicate}
use proto_q.Errors.{ok}
use proto_q.Stream.{Decoder, new_decoder, read_buffer_size}
use proto_q.Decoder.Position.{IsBetween}
use proto_q.Decoder.Sequence.{Reads, count_up}
use proto_q.WebSocket.{WsConn}
use proto_q.WebSocket.Streams.{joined, encode_each, write_each, read_calls, decode-write_each}
use proto_q.Examples.Frames.{no_crc32, asked, wire, wire_lem, asked-IsEncodable}
use proto_q.Examples.Sockets.{quiet_socket, ws_conn}

each_lem : encode_each no_crc32 (asked ∷ asked ∷ []) ≡ ok (wire ∷ wire ∷ [])
unfolding encode_each
each_lem = rw (encode_each, wire_lem) refl

-- The other side, with what the first wrote.
abbrev peer : WsConn
peer = ws_conn (joined (write_each 5000 quiet_socket (wire ∷ wire ∷ []) (ws_conn [])).written)

abbrev buffer : List ℕ
buffer = replicate 4096 0

buffer-length : read_buffer_size ≤ length buffer
buffer-length = omega (arith, length-replicate {A = ℕ} 4096 0)

decode-write_each_example :
    (d' : Decoder) × Reads no_crc32
      (new_decoder (read_calls 5000 quiet_socket 1 2 buffer peer))
      (asked ∷ asked ∷ [])
      d'
    × IsBetween [] (count_up 0 (asked ∷ asked ∷ [])) d'
decode-write_each_example =
    decode-write_each no_crc32 5000 quiet_socket 0 buffer (asked ∷ asked ∷ []) (wire ∷ wire ∷ [])
      (ws_conn []) peer (λ bytes. refl) (omega arith) buffer-length
      (asked-IsEncodable, (asked-IsEncodable, tt)) each_lem (omega arith, (omega arith, tt)) refl
      refl
