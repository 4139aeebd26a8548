-- ===== src/Negotiation/Agreeing.antt =====
-- `Negotiate` of the client in basic/message/client.go with the handler of the server in
-- basic/message/handler/negotiate.go.
use proto_q.Prelude.{
  ℕ, ◌<◌, ◌≡◌, refl, ap, ◌∙◌, arith, Bool, Bool-cases, inl, inr, true, false, not, Option, none,
  some, List, length, ◌==◌, if◌then◌else◌, find-put_same, find-put_other,
}
use proto_q.Packet.{PacketData}
use proto_q.Dispatch.{Connection, MessageContext, Handled, replied, failed}
use proto_q.Dispatch.Chain.{started}
use proto_q.Connection.{Conn, text, set_property, get_property}
use proto_q.Negotiation.{
  NegotiateRequest, NegotiateResponse, NegotiateOption, Negotiator, negotiate_request, named,
  handle_negotiate, accept_response, key_codec_type, key_session_id, agreed, receive_response,
  client_negotiate,
}
use proto_q.Negotiation.Accepting.{handle_negotiate-negotiate_filter}

-- The body with which the handler answers, if it does not fail.
abbrev pub answered_body : Handled → Option (List ℕ)
answered_body (replied body ctx) = body
answered_body (failed e ctx) = none

accept_response-agreed :
    (encryption : ℕ) (text_of : ℕ → List ℕ) (response : NegotiateResponse) (c : Conn)
    → response.accepted ≡ true
    → (c' : Conn) × (accept_response encryption text_of response c ≡ (true, c'))
      × (get_property key_codec_type c' ≡ some (text (text_of encryption)))
unfolding accept_response get_property set_property
accept_response-agreed encryption text_of response c accepted =
    let v = text (text_of encryption) in
    let c1 = set_property key_codec_type v c in
    let c2 = set_property key_session_id (text (text_of response.session_id)) c1 in
    let agrees : (c' : Conn)
        → (if not (response.session_id == 0) then c2 else c1) ≡ c'
        → accept_response encryption text_of response c ≡ (true, c') =
      λ c' e.
        ap
          (λ (b : Bool).
            if not b then (false, c) else (true, if not (response.session_id == 0) then c2 else c1))
          accepted
        ∙ ap (λ t. (true, t)) e in
    elim (Bool-cases (response.session_id == 0)) [
      | inl e ↦ (
        c1,
        agrees c1 (ap (λ (b : Bool). if not b then c2 else c1) e),
        find-put_same key_codec_type v c.props,
      )
      | inr e ↦ (
        c2,
        agrees c2 (ap (λ (b : Bool). if not b then c2 else c1) e),
        find-put_other key_codec_type key_session_id _ c1.props (omega arith)
            ∙ find-put_same key_codec_type v c.props,
      )
    ]

module _ (read_request : List ℕ → Option NegotiateRequest)
    (write_response : NegotiateResponse → Option (List ℕ)) (session_name : ℕ → ℕ)
    (invalid missing : ℕ) (negotiator : Negotiator)
    (write_request : NegotiateRequest → Option (List ℕ))
    (read_response : List ℕ → Option NegotiateResponse) (none_text : ℕ) (text_of : ℕ → List ℕ) where
  -- The answer of the server with the session's counter `seq`, on the connection `c`.
  abbrev pub serve_negotiation : ℕ → Connection → List ℕ → Handled
  serve_negotiation seq c body =
      (handle_negotiate read_request write_response session_name invalid missing negotiator seq
        (started c (record { flags = 0x6a; opcode = 1; seq = 1; body = body }))).handled

  -- The response that the server is to send.
  abbrev pub promised : NegotiateRequest → ℕ → NegotiateResponse
  promised request seq =
      named read_request write_response session_name invalid missing negotiator (negotiator request)
        seq

  named-accepted :
      (request : NegotiateRequest) (seq : ℕ)
      → (negotiator request).accepted ≡ true
      → (promised request seq).accepted ≡ true
  named-accepted request seq accepts = elim (Bool-cases ((negotiator request).session_id == 0)) [
    | inl e ↦ rw (named, e) accepts
    | inr e ↦ rw (named, e) accepts
  ]

  -- A client negotiates with any options, and its `SendRequest` returns what the server's handler
  -- answers to its body. If JSON gives back the request and the response that it wrote, and the
  -- server's negotiator accepts the request, then `Negotiate` succeeds with the server's response,
  -- and both sides have agreed: the client's connection has the encryption that its options ask
  -- for as its codec type, and so has the server's.
  pub client_negotiate-handle_negotiate :
      (opts : List NegotiateOption) (seq : ℕ) (c : Connection) (client : Conn) (body reply : List ℕ)
      → write_request (negotiate_request none_text opts) ≡ some body
      → read_request body ≡ some (negotiate_request none_text opts)
      → 0 < length body
      → (negotiator (negotiate_request none_text opts)).accepted ≡ true
      → write_response (promised (negotiate_request none_text opts) seq) ≡ some reply
      → read_response reply ≡ some (promised (negotiate_request none_text opts) seq)
      → (client' : Conn) × (ctx : MessageContext) × (client_negotiate write_request read_response
            none_text text_of
            (λ opcode sent. answered_body (serve_negotiation seq c sent))
            opts
            client
          ≡ agreed (promised (negotiate_request none_text opts) seq) client')
        × (get_property key_codec_type client'
            ≡ some (text (text_of (negotiate_request none_text opts).encryption)))
        × (serve_negotiation seq c body ≡ replied (some reply) ctx)
        × (ctx.conn
            ≡ some (record c { codec_type = some (negotiate_request none_text opts).encryption }))
  unfolding client_negotiate
  client_negotiate-handle_negotiate opts seq c client body reply writes reads filled accepts answers
        returns =
      let request = negotiate_request none_text opts in
      let frame : PacketData = record { flags = 0x6a; opcode = 1; seq = 1; body = body } in
      let (ctx, handles, connected, _) =
        handle_negotiate-negotiate_filter read_request write_response session_name invalid missing
          negotiator seq reply request c frame frame filled reads accepts answers in
      let (client', agrees, has_type) =
        accept_response-agreed request.encryption text_of (promised request seq) client
          (named-accepted request seq accepts) in
      let answer : answered_body (serve_negotiation seq c body) ≡ some reply =
        ap answered_body handles in
      (
        client',
        ctx,
        rw (client_negotiate, writes, receive_response, answer, returns, agrees) refl,
        has_type,
        handles,
        connected,
      )
