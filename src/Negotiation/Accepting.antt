-- ===== src/Negotiation/Accepting.antt =====
-- What an accepted negotiation opens, and what a heartbeat is answered with.
use proto_q.Prelude.{
  ℕ, ◌<◌, ◌≡◌, refl, ap, ◌∙◌, arith, Bool-cases, inl, inr, true, false, Option, none, some, List,
  [], length, find, ◌==◌,
}
use proto_q.Errors.{Result, ok, ◌>>=◌}
use proto_q.Packet.{PacketData, is_response_packet, packet_requires_ack}
use proto_q.Dispatch.{
  Connection, MessageContext, new_message_context, replied, passes, negotiate_filter, dispatched,
  Dispatched, message_id, run_handler, set_reply, reply_bytes,
}
use proto_q.Dispatch.Chain.{started, handled, dispatch-run_handler}
use proto_q.Bridge.{
  BridgeError, ConnectionBridge, Secured, secured, decrypt_body, handle_frame, handle_secured,
  after_dispatch,
}
use proto_q.Negotiation.{
  NegotiateRequest, NegotiateResponse, Negotiator, handle_negotiate, handle_heartbeat,
  set_codec_type, named,
}

-- A negotiation whose body is not empty and can be read, that the negotiator accepts, with a
-- response that JSON can hold: the handler returns the response with a session, and the connection
-- has the request's encryption, so that every later message passes the negotiation filter.
pub handle_negotiate-negotiate_filter :
    (unmarshal : List ℕ → Option NegotiateRequest) (marshal : NegotiateResponse → Option (List ℕ))
    (session_name : ℕ → ℕ) (invalid missing : ℕ) (negotiator : Negotiator) (seq : ℕ) (body : List ℕ)
    (request : NegotiateRequest) (c : Connection) (frame later : PacketData)
    → 0 < length frame.body
    → unmarshal frame.body ≡ some request
    → (negotiator request).accepted ≡ true
    → marshal
        (named unmarshal marshal session_name invalid missing negotiator (negotiator request) seq)
      ≡ some body
    → (ctx : MessageContext) × ((handle_negotiate unmarshal marshal session_name invalid missing
          negotiator seq
          (started c frame)).handled
        ≡ replied (some body) ctx)
      × (ctx.conn ≡ some (record c { codec_type = some request.encryption }))
      × (negotiate_filter (started (record c { codec_type = some request.encryption }) later)
          ≡ passes (started (record c { codec_type = some request.encryption }) later))
unfolding handle_negotiate negotiate_filter new_message_context
handle_negotiate-negotiate_filter unmarshal marshal session_name invalid missing negotiator seq body
      request c frame later some_body parses accepts writes =
    let agreed = record c { codec_type = some request.encryption } in
    let passes_later : negotiate_filter (started agreed later) ≡ passes (started agreed later) =
      elim (Bool-cases (message_id later == 0x01)) [
        | inl first ↦ rw (negotiate_filter, first) refl
        | inr other ↦ rw (negotiate_filter, other) refl
      ] in
    let any : (length frame.body == 0) ≡ false = ground arith in
    (
      set_reply (reply_bytes body) (set_codec_type request.encryption (started c frame)),
      rw (handle_negotiate, any, parses, writes, accepts) refl,
      refl,
      passes_later,
    )

-- The bridge whose connection has noted the time of a heartbeat.
abbrev pub noted : ℕ → ConnectionBridge → ConnectionBridge
noted now b = record b { conn = record b.conn { last_heartbeat = some now } }

-- A request without a body, on an open connection without filters, for whose opcode the built-in
-- heartbeat handler is registered: whether it wants an acknowledgement or not, the connection notes
-- the time of the heartbeat, and the rest of the bridge is left as it is, so that nothing is sent
-- for it.
pub handle_frame-handle_heartbeat :
    (error_text : BridgeError → List ℕ) (now : ℕ) (frame : PacketData) (b : ConnectionBridge)
    → length frame.body ≡ 0
    → is_response_packet frame ≡ false
    → b.conn.is_closed ≡ false
    → b.dispatcher.filters ≡ []
    → find (message_id frame) b.dispatcher.handlers ≡ some (handle_heartbeat now)
    → handle_frame error_text frame b ≡ ok (noted now b)
unfolding handle_frame decrypt_body handle_heartbeat run_handler new_message_context
handle_frame-handle_heartbeat error_text now frame b empty asks is_open bare there =
    let plain : decrypt_body b.codec frame ≡ secured frame = rw (decrypt_body, empty) refl in
    let runs = dispatch-run_handler b.dispatcher b.conn frame asks is_open (rw bare tt) in
    let silent : handled b.dispatcher b.conn frame ≡ (started (noted now b).conn frame, none) =
      rw (run_handler, there) refl in
    ap (λ (t : Secured). handle_secured error_text frame t b) plain
    ∙ (ap (λ (r : Result Dispatched). r >>= (λ r'. ok (after_dispatch error_text frame r' b))) runs
        ∙ (ap (λ o. ok (after_dispatch error_text frame (dispatched o) b)) silent ∙ no_answer))
  where
    no_answer :
        ok (after_dispatch error_text frame (dispatched (started (noted now b).conn frame, none)) b)
        ≡ ok (noted now b)
    no_answer = elim (Bool-cases (packet_requires_ack frame)) [
      | inl acked ↦ rw acked refl
      | inr unacked ↦ rw unacked refl
    ]
