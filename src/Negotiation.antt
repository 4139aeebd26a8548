-- ===== src/Negotiation.antt =====
-- basic/message (negotiate_payload.go, handler/negotiate.go, handler/heartbeat.go, client.go): the
-- negotiation, and the server's side of the heartbeat. A text is known by
-- a number, 0 for the empty one. JSON is a parameter: what `Unmarshal` and `Marshal` return, none
-- for an error. The time in the server's response is left out.
pub mod Accepting
pub mod Agreeing
use proto_q.Prelude.{
  ℕ, zero, suc, ◌+◌, ◌*◌, Bool, true, false, not, Option, none, some, List, [], ◌∷◌, length, ltb,
  leb, ◌==◌, ◌&&◌, if◌then◌else◌, Map, put,
}
use proto_q.Errors.{Result, ok, panic}
use proto_q.Packet.{PacketData}
use proto_q.Stream.{add64}
use proto_q.Dispatch.{
  Connection, MessageContext, Handled, replied, failed, Reply, reply_bytes, set_reply,
}
use proto_q.Opcodes.{opcode_negotiate}
use proto_q.Connection.{Conn, text, other_value, set_property}

abbrev pub proto_version : ℕ
proto_version = 1

-- `extra` may be the nil map, which reads like an empty one.
pub record AuthInfo : Type 0 where
  pub token : ℕ
  pub extra : Map ℕ

pub record NegotiateRequest : Type 0 where
  pub version : ℕ
  pub encryption : ℕ
  pub auth : Option AuthInfo

abbrev pub NegotiateOption : Type 0
NegotiateOption = NegotiateRequest → NegotiateRequest

abbrev pub no_auth : AuthInfo
no_auth = record { token = 0; extra = [] }

-- `r.Auth`, made where it is nil.
abbrev pub some_auth : NegotiateRequest → AuthInfo
some_auth r = elim r.auth [ none ↦ no_auth | some a ↦ a ]

unfoldable pub with_auth : ℕ → NegotiateOption
with_auth token r = record r { auth = some (record (some_auth r) { token = token }) }

unfoldable pub with_negotiate_encryption : ℕ → NegotiateOption
with_negotiate_encryption encryption r = record r { encryption = encryption }

unfoldable pub with_negotiate_extra : ℕ → ℕ → NegotiateOption
with_negotiate_extra key value r =
    let a = some_auth r in record r { auth = some (record a { extra = put key value a.extra }) }

unfoldable pub apply_options : List NegotiateOption → NegotiateRequest → NegotiateRequest
apply_options [] r = r
apply_options (opt ∷ opts) r = apply_options opts (opt r)

-- The request that `Negotiate` makes; `none_text` is the number of the text "none".
unfoldable pub negotiate_request : ℕ → List NegotiateOption → NegotiateRequest
unfolding apply_options
negotiate_request none_text opts =
    apply_options opts (record { version = proto_version; encryption = none_text; auth = none })

pub record NegotiateResponse : Type 0 where
  pub accepted : Bool
  pub server_version : ℕ
  pub session_id : ℕ
  pub reason : ℕ

abbrev pub Negotiator : Type 0
Negotiator = NegotiateRequest → NegotiateResponse

unfoldable pub default_negotiator : Negotiator
default_negotiator request = record {
  accepted = true;
  server_version = proto_version;
  session_id = 0;
  reason = 0;
}

-- The handler's negotiator, the default one where none is given.
unfoldable pub new_negotiate_payload_handler : Option Negotiator → Negotiator
unfolding default_negotiator
new_negotiate_payload_handler none = default_negotiator
new_negotiate_payload_handler (some negotiator) = negotiator

-- The errors of the handler: no frame, a failed negotiation, a response that cannot be written.
abbrev pub err_no_frame : ℕ
err_no_frame = 1

abbrev pub err_negotiate_failed : ℕ
err_negotiate_failed = 2

abbrev pub err_marshal : ℕ
err_marshal = 3

-- What `Handle` returns, the session that it sets on the connection, if any, and its counter.
pub record Negotiated : Type 0 where
  pub handled : Handled
  pub session : Option ℕ
  pub session_seq : ℕ

-- The connection's encryption is set; a nil connection panics in the source, and `Dispatch` gives
-- none.
abbrev pub set_codec_type : ℕ → MessageContext → MessageContext
set_codec_type encryption ctx = elim ctx.conn [
  | none ↦ ctx
  | some c ↦ record ctx { conn = some (record c { codec_type = some encryption }) }
]

-- `unmarshal` and `marshal` are JSON, `session_name` numbers the text of a session's counter, and
-- `invalid` and `missing` are the reasons of a refusal.
module _ (unmarshal : List ℕ → Option NegotiateRequest)
    (marshal : NegotiateResponse → Option (List ℕ)) (session_name : ℕ → ℕ) (invalid missing : ℕ)
    (negotiator : Negotiator) where
  -- A body is dropped by `Dispatch` where there is an error, so only the error is kept.
  abbrev pub rejected : ℕ → MessageContext → ℕ → Negotiated
  rejected reason ctx seq = record {
    handled = failed err_negotiate_failed ctx;
    session = none;
    session_seq = seq;
  }

  abbrev pub named : NegotiateResponse → ℕ → NegotiateResponse
  named response seq =
      if response.session_id == 0
      then record response { session_id = session_name (add64 seq 1) }
      else response

  abbrev pub next_seq : NegotiateResponse → ℕ → ℕ
  next_seq response seq = if response.session_id == 0 then add64 seq 1 else seq

  abbrev pub send_accepted : NegotiateResponse → Option (List ℕ) → ℕ → MessageContext → Negotiated
  send_accepted response none seq ctx = record {
    handled = failed err_marshal ctx;
    session = some response.session_id;
    session_seq = seq;
  }
  send_accepted response (some body) seq ctx = record {
    handled = replied (some body) (set_reply (reply_bytes body) ctx);
    session = some response.session_id;
    session_seq = seq;
  }

  abbrev pub send_refused : Option (List ℕ) → ℕ → MessageContext → Negotiated
  send_refused none seq ctx = record {
    handled = failed err_marshal ctx;
    session = none;
    session_seq = seq;
  }
  send_refused (some body) seq ctx = record {
    handled = failed err_negotiate_failed (set_reply (reply_bytes body) ctx);
    session = none;
    session_seq = seq;
  }

  abbrev pub negotiate : NegotiateRequest → ℕ → MessageContext → Negotiated
  negotiate request seq ctx =
      let response = negotiator request in
      if response.accepted
      then (let response' = named response seq in
          send_accepted response' (marshal response') (next_seq response seq)
            (set_codec_type request.encryption ctx))
      else send_refused (marshal response) seq ctx

  abbrev pub negotiate_body : List ℕ → ℕ → MessageContext → Negotiated
  negotiate_body body seq ctx =
      if length body == 0 then rejected missing ctx seq else elim (unmarshal body) [
        | none ↦ rejected invalid ctx seq
        | some request ↦ negotiate request seq ctx
      ]

  -- `Handle` of `NegotiatePayloadHandler`, whose counter is `seq`.
  unfoldable pub handle_negotiate : ℕ → MessageContext → Negotiated
  handle_negotiate seq ctx = elim ctx.frame [
    | none ↦ record { handled = failed err_no_frame ctx; session = none; session_seq = seq }
    | some frame ↦ negotiate_body frame.body seq ctx
  ]

-- `Handle` of `HeartbeatPayloadHandler` at the time `now`.
unfoldable pub handle_heartbeat : ℕ → MessageContext → Handled
handle_heartbeat now ctx = elim ctx.conn [
  | none ↦ replied none ctx
  | some c ↦ replied none (record ctx { conn = some (record c { last_heartbeat = some now }) })
]

-- The keys of a connection's properties.
abbrev pub key_codec_type : ℕ
key_codec_type = 0

abbrev pub key_session_id : ℕ
key_session_id = 1

-- `Negotiate` of the client from the response on; the texts are the values.
unfoldable pub accept_response : ℕ → (ℕ → List ℕ) → NegotiateResponse → Conn → Bool × Conn
unfolding set_property
accept_response encryption text_of response c =
    if not response.accepted
    then (false, c)
    else (let c1 = set_property key_codec_type (text (text_of encryption)) c in
        (
          true,
          if not (response.session_id == 0)
              then set_property key_session_id (text (text_of response.session_id)) c1
              else c1,
        ))

-- How `Negotiate` of the client ends: with a response, which it may refuse with
-- `ErrNegotiateFailed`, or with an error of JSON or of `SendRequest`.
pub data Agreement : Type 0 where
  agreed : NegotiateResponse → Conn → Agreement
  refused : NegotiateResponse → Conn → Agreement
  not_sent : Conn → Agreement

abbrev pub agreement : NegotiateResponse → Bool × Conn → Agreement
agreement response r = if r.0 then agreed response r.1 else refused response r.1

-- `marshal` and `unmarshal` are JSON, none for an error; `send_request` is the body that
-- `SendRequest` of the client returns for an opcode and a body, none for an error.
module _ (marshal : NegotiateRequest → Option (List ℕ))
    (unmarshal : List ℕ → Option NegotiateResponse) (none_text : ℕ) (text_of : ℕ → List ℕ)
    (send_request : ℕ → List ℕ → Option (List ℕ)) where
  abbrev pub receive_response : ℕ → Option (List ℕ) → Conn → Agreement
  receive_response encryption none c = not_sent c
  receive_response encryption (some body) c = elim (unmarshal body) [
    | none ↦ not_sent c
    | some response ↦ agreement response (accept_response encryption text_of response c)
  ]

  unfoldable pub client_negotiate : List NegotiateOption → Conn → Agreement
  unfolding negotiate_request accept_response
  client_negotiate opts c =
      let request = negotiate_request none_text opts in
      elim (marshal request) [
        | none ↦ not_sent c
        | some body ↦ receive_response request.encryption (send_request opcode_negotiate body) c
      ]

  -- `MustNegotiate` panics on every error.
  unfoldable pub must_negotiate : List NegotiateOption → Conn → Result (NegotiateResponse × Conn)
  unfolding client_negotiate
  must_negotiate opts c = elim (client_negotiate opts c) [
    | agreed response c' ↦ ok (response, c')
    | refused response c' ↦ panic
    | not_sent c' ↦ panic
  ]
