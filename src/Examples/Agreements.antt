-- ===== src/Examples/Agreements.antt =====
-- A negotiation and a heartbeat at concrete inputs.
use proto_q.Prelude.{ℕ, ◌≡◌, refl, arith, true, false, Option, none, some, List, [], ◌∷◌}
use proto_q.Dispatch.{Connection, MessageContext, replied}
use proto_q.Connection.{Conn, text, get_property}
use proto_q.Negotiation.{
  NegotiateRequest, NegotiateResponse, NegotiateOption, default_negotiator, negotiate_request,
  apply_options, with_negotiate_encryption, key_codec_type, agreed, client_negotiate,
}
use proto_q.Negotiation.Agreeing.{
  answered_body, serve_negotiation, promised, client_negotiate-handle_negotiate,
}
use proto_q.Heartbeat.{
  HeartbeatLoopConfig, HeartbeatEvent, tick, tick_stopped, lost, beat, run_heartbeat,
  start_heartbeat,
}
use proto_q.Heartbeat.Losing.{HasMissing, start_heartbeat-HasMissing}
use proto_q.Examples.Exchanges.{fresh_conn}

-- JSON of requests that differ in their encryption, and of responses that differ in their session.
abbrev write_request : NegotiateRequest → Option (List ℕ)
write_request request = some (request.encryption ∷ [])

abbrev request_of : List ℕ → Option NegotiateRequest
request_of [] = none
request_of (encryption ∷ rest) = some (record { version = 1; encryption = encryption; auth = none })

abbrev write_response : NegotiateResponse → Option (List ℕ)
write_response response = some (response.session_id ∷ [])

abbrev response_of : List ℕ → Option NegotiateResponse
response_of [] = none
response_of (session ∷ rest) =
    some (record { accepted = true; server_version = 1; session_id = session; reason = 0 })

abbrev session_name : ℕ → ℕ
session_name n = n

abbrev text_of : ℕ → List ℕ
text_of n = n ∷ []

abbrev closed_queue : Connection
closed_queue = record {
  is_closed = false;
  codec_type = none;
  queue = none;
  store = [];
  last_heartbeat = none;
  written = [];
}

-- The encryption numbered 4.
abbrev wishes : List NegotiateOption
wishes = with_negotiate_encryption 4 ∷ []

abbrev wished : NegotiateRequest
wished = record { version = 1; encryption = 4; auth = none }

wishes_lem : negotiate_request 9 wishes ≡ wished
unfolding negotiate_request apply_options with_negotiate_encryption
wishes_lem = refl

client_negotiate-handle_negotiate_example :
    (client' : Conn) × (ctx : MessageContext) × (client_negotiate write_request response_of 9
        text_of
        (λ opcode sent. answered_body (
          serve_negotiation request_of write_response session_name 1 2 default_negotiator
            write_request response_of 9 text_of 0 closed_queue sent))
        wishes
        fresh_conn
      ≡ agreed
          (promised request_of write_response session_name 1 2 default_negotiator write_request
            response_of 9 text_of
            (negotiate_request 9 wishes)
            0)
          client')
    × (get_property key_codec_type client'
        ≡ some (text (text_of (negotiate_request 9 wishes).encryption)))
    × (serve_negotiation request_of write_response session_name 1 2 default_negotiator write_request
          response_of 9 text_of 0 closed_queue
          (4 ∷ [])
        ≡ replied (some (1 ∷ [])) ctx)
    × (ctx.conn
        ≡ some (record closed_queue { codec_type = some (negotiate_request 9 wishes).encryption }))
unfolding negotiate_request apply_options with_negotiate_encryption default_negotiator
client_negotiate-handle_negotiate_example =
    client_negotiate-handle_negotiate request_of write_response session_name 1 2 default_negotiator
      write_request response_of 9 text_of wishes 0 closed_queue fresh_conn (4 ∷ []) (1 ∷ []) refl
      refl (omega arith) refl refl refl

abbrev two_misses : HeartbeatLoopConfig
two_misses = record { interval = 30; timeout = 5; max_missed = 2; on_lost = false }

-- A miss, an answer, a miss, and a miss while the loop is stopped.
abbrev ticks : List HeartbeatEvent
ticks = tick false ∷ tick true ∷ tick false ∷ tick_stopped false ∷ []

ticks-lost : start_heartbeat (some two_misses) ticks ≡ lost two_misses
unfolding start_heartbeat run_heartbeat beat
ticks-lost = refl

start_heartbeat-HasMissing_example : HasMissing ticks 2
start_heartbeat-HasMissing_example =
    start_heartbeat-HasMissing two_misses ticks (omega arith) ticks-lost
