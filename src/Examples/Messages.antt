-- ===== src/Examples/Messages.antt =====
-- Dispatching and the bridge at concrete inputs.
use proto_q.Prelude.{
  Bool, ℕ, ◌<◌, ◌≡◌, refl, arith, true, false, Option, none, some, List, [], ◌∷◌, ◌++◌, ◌==◌, subst,
  length, find, put,
}
use proto_q.Errors.{ok}
use proto_q.Flags.{
  is_response, requires_ack, crc_len, seq_len, set_dir, set_requires_ack, set_body_len,
  set_opcode_len, set_seq_len, set_crc_len,
}
use proto_q.Packet.{
  PacketData, is_response_packet, packet_requires_ack, new_response_packet, field_len,
}
use proto_q.Queue.{MessageQueue, Channel, put_channel, registered}
use proto_q.Dispatch.{
  Connection, MessageContext, Handled, replied, MessageDispatcher, dispatch, message_id,
}
use proto_q.Dispatch.Chain.{dispatch-put_channel}
use proto_q.Bridge.{Codec, BridgeError, ConnectionBridge, secured, decrypt_body, encrypt_body}
use proto_q.Bridge.Ordering.{outs, run_events-outs}
use proto_q.Bridge.Outbox.{
  Outbox, Request, IsServed, Event, reads, writes, run_events, run_outbox, at, Sealed,
  run_events-run_outbox,
}
use proto_q.Bridge.Replies.{decrypt_body-encrypt_body}

-- An acknowledged request with opcode 0x0105, and a response.
abbrev request : PacketData
request = record { flags = 0x6a; opcode = 0x0105; seq = 7; body = 1 ∷ [] }

abbrev answered : PacketData
answered = record { flags = 0xa2; opcode = 0x0105; seq = 7; body = 9 ∷ [] }

abbrev idle_channel : Channel
idle_channel = record { sent = []; room = 1; is_closed = false }

abbrev peer : Option ℕ → Connection
peer codec = record {
  is_closed = false;
  codec_type = codec;
  queue = none;
  store = (2, idle_channel) ∷ [];
  last_heartbeat = none;
  written = [];
}

abbrev gone_peer : Connection
gone_peer = record (peer none) { is_closed = true }

abbrev echo : MessageContext → Handled
echo ctx = replied (some (4 ∷ [])) ctx

abbrev echoing : MessageDispatcher
echoing = record { filters = []; handlers = (5, echo) ∷ [] }

request-IsRequest : is_response_packet request ≡ false
unfolding is_response_packet is_response
request-IsRequest = refl

abbrev empty_queue : MessageQueue
empty_queue = record { pending = []; count = 0 }

answered-IsResponse : is_response_packet answered ≡ true
unfolding is_response_packet is_response
answered-IsResponse = refl

absent_7 : find 7 empty_queue.pending ≡ none
unfolding find
absent_7 = refl

channel_2 : find 2 (peer none).store ≡ some idle_channel
unfolding find
channel_2 = refl

dispatch-put_channel_example :
    (q1 : MessageQueue) × (put_channel 7 2 0 empty_queue ≡ registered q1)
    × (dispatch echoing (some (record (peer none) { queue = some q1 })) (some answered)
        ≡ ok (record {
          context = none;
          failure = none;
          conn = some (record (peer none) {
            queue = some empty_queue;
            store =
                put 2 (record idle_channel { sent = answered ∷ []; room = 0 }) (peer none).store;
          });
        }))
dispatch-put_channel_example =
    dispatch-put_channel echoing (peer none) answered empty_queue 2 idle_channel answered-IsResponse
      absent_7 channel_2 refl (omega arith)

-- A codec that puts a zero in front.
abbrev strip : List ℕ → Option (List ℕ)
strip [] = none
strip (x ∷ xs) = some xs

abbrev framing : Codec
framing = record { encrypt = λ plain. some (0 ∷ plain); decrypt = strip }

strip-encrypt :
    (plain cipher : List ℕ)
    → framing.encrypt plain ≡ some cipher
    → framing.decrypt cipher ≡ some plain
strip-encrypt plain cipher e =
    let eq : 0 ∷ plain ≡ cipher = cc in subst (λ c. strip c ≡ some plain) eq refl

encrypt_nonempty :
    (plain cipher : List ℕ)
    → framing.encrypt plain ≡ some cipher
    → 0 < length plain
    → 0 < length cipher
encrypt_nonempty plain cipher e h =
    let eq : 0 ∷ plain ≡ cipher = cc in subst (λ c. 0 < length c) eq (omega arith)

encrypted : encrypt_body (some framing) request ≡ secured (record request { body = 0 ∷ 1 ∷ [] })
unfolding encrypt_body message_id
encrypted = refl

decrypt_body-encrypt_body_example :
    decrypt_body (some framing) (record request { body = 0 ∷ 1 ∷ [] }) ≡ secured request
decrypt_body-encrypt_body_example =
    decrypt_body-encrypt_body framing request (record request { body = 0 ∷ 1 ∷ [] }) strip-encrypt
      encrypt_nonempty encrypted

abbrev bridge : ConnectionBridge
bridge = record {
  conn = peer none;
  codec = some framing;
  dispatcher = echoing;
  write_ch = [];
  writing = true;
}

abbrev no_text : BridgeError → List ℕ
no_text e = []

abbrev coded : PacketData
coded = record request { body = 0 ∷ 1 ∷ [] }

decrypted : decrypt_body (some framing) coded ≡ secured request
unfolding decrypt_body message_id
decrypted = refl

asks : packet_requires_ack request ≡ true
unfolding packet_requires_ack requires_ack
asks = refl

echo_there : find (message_id request) echoing.handlers ≡ some echo
unfolding find message_id
echo_there = refl

-- A request, a round of the write loop, and another request: the second response waits.
abbrev served : Request
served = record {
  frame = coded;
  plain = request;
  handler = echo;
  body = 4 ∷ [];
  out = record { flags = 0xaa; opcode = 0x0105; seq = 7; body = 0 ∷ 4 ∷ [] };
}

served-IsServed : IsServed bridge served
unfolding encrypt_body new_response_packet message_id crc_len set_crc_len set_body_len set_seq_len
    seq_len set_opcode_len field_len set_requires_ack set_dir
served-IsServed = record {
  decrypts = decrypted;
  request = request-IsRequest;
  ack = asks;
  passed = λ w. tt;
  there = echo_there;
  replies = λ w. refl;
  encrypts = refl;
}

abbrev two_requests : List Event
two_requests = reads served ∷ writes ∷ reads served ∷ []

-- A socket that takes frames with an empty body only.
abbrev picky : PacketData → Bool
picky f = length f.body == 0

abbrev moving_outbox : Outbox
moving_outbox = record { waiting = []; gone = []; moving = true }

run_events-run_outbox_example :
    (ch' : List PacketData) × (run_events no_text picky two_requests (at bridge [] moving_outbox)
      ≡ ok (at bridge ch' (run_outbox picky two_requests moving_outbox)))
    × Sealed bridge ch' (run_outbox picky two_requests moving_outbox).waiting
run_events-run_outbox_example =
    run_events-run_outbox no_text picky bridge refl two_requests [] moving_outbox
      (served-IsServed, (omega arith, (served-IsServed, tt))) (omega arith)

abbrev takes_all : PacketData → Bool
takes_all f = true

run_events-outs_example :
    (b' : ConnectionBridge) × (waiting : List PacketData) × (run_events no_text takes_all
        two_requests bridge
      ≡ ok b')
    × Sealed bridge b'.write_ch waiting
    × (b'.conn.written ++ waiting ≡ [] ++ outs two_requests)
run_events-outs_example =
    run_events-outs no_text takes_all bridge two_requests refl refl
      (served-IsServed, (omega arith, (served-IsServed, tt))) (omega arith)
