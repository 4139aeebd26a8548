-- ===== src/Bridge/Replies.antt =====
-- What the bridge of conn/bridge.go sends for a frame, and its encryption.
use proto_q.Prelude.{
  ℕ, ◌||◌, subst, ◌<◌, ◌≡◌, inl, inr, refl, ap, sym, ◌∙◌, arith, Bool, true, false, none, some,
  Option-cases, Bool-cases, List, [], ◌∷◌, ◌++◌, All, ◌==◌, lt→ltb, length, find,
}
use proto_q.Errors.{ok}
use proto_q.Packet.{PacketData, packet_requires_ack, is_response_packet, new_response_packet}
use proto_q.Dispatch.{
  new_message_context, reply_bytes, passes, dispatched, message_id, replied, run_handler,
  MessageHandler, set_reply,
}
use proto_q.Dispatch.Chain.{started, handled, dispatch-run_handler}
use proto_q.Bridge.{
  Codec, BridgeError, codec_failed, ConnectionBridge, secured, unsecured, is_plain, decrypt_body,
  encrypt_body, write_packet, response_to, write_response, handle_frame,
}

stays_coded :
    (n m : ℕ) (is_negotiation : Bool)
    → ((n == 0) || is_negotiation) ≡ false
    → (0 < n → 0 < m)
    → ((m == 0) || is_negotiation) ≡ false
stays_coded n m is_negotiation h keeps = ground arith

-- Of a codec whose `Decrypt` undoes its `Encrypt`, and whose `Encrypt` makes no body empty: a frame
-- that `encryptBody` accepts is what `decryptBody` makes of its result.
pub decrypt_body-encrypt_body :
    (codec : Codec) (frame sent : PacketData)
    → ((plain cipher : List ℕ)
        → codec.encrypt plain ≡ some cipher
        → codec.decrypt cipher ≡ some plain)
    → ((plain cipher : List ℕ)
        → codec.encrypt plain ≡ some cipher
        → 0 < length plain
        → 0 < length cipher)
    → encrypt_body (some codec) frame ≡ secured sent
    → decrypt_body (some codec) sent ≡ secured frame
unfolding decrypt_body encrypt_body message_id
decrypt_body-encrypt_body codec frame sent undoes keeps e = elim (Bool-cases (is_plain frame)) [
  | inl plain ↦
      let same : secured frame ≡ secured sent = sym (rw plain refl) ∙ e in
      let eq : frame ≡ sent = cc in
      subst (λ s. decrypt_body (some codec) s ≡ secured frame) eq (rw plain refl)
  | inr coded ↦ elim (Option-cases (codec.encrypt frame.body)) [
    | inl fails ↦
        let bad : unsecured (codec_failed (message_id frame)) ≡ secured sent =
          rw (coded, fails) at e in
        absurd (cc bad)
    | inr (cipher, makes) ↦
        let same : secured (record frame { body = cipher }) ≡ secured sent =
          rw (coded, makes) at e in
        let eq : record frame { body = cipher } ≡ sent = cc in
        let filled : is_plain (record frame { body = cipher }) ≡ false =
          stays_coded (length frame.body) (length cipher) _ coded (keeps frame.body cipher makes) in
        subst (λ s. decrypt_body (some codec) s ≡ secured frame) eq
          (rw (filled, undoes frame.body cipher makes) refl)
  ]
]

pub write_packet-room :
    (frame : PacketData) (b : ConnectionBridge)
    → length b.write_ch < 64
    → write_packet frame b ≡ record b { write_ch = b.write_ch ++ (frame ∷ []) }
unfolding write_packet
write_packet-room frame b room = rw (lt→ltb (length b.write_ch) 64 room) refl

module _ (text : BridgeError → List ℕ) where
  -- The handler's body is put into the channel as the response, if there is room.
  pub handle_frame-write_packet :
      (frame plain : PacketData) (b : ConnectionBridge) (h : MessageHandler) (body : List ℕ)
      → decrypt_body b.codec frame ≡ secured plain
      → is_response_packet plain ≡ false
      → packet_requires_ack plain ≡ true
      → b.conn.is_closed ≡ false
      → All (λ f. f (started b.conn plain) ≡ passes (started b.conn plain)) b.dispatcher.filters
      → find (message_id plain) b.dispatcher.handlers ≡ some h
      → h (started b.conn plain) ≡ replied (some body) (started b.conn plain)
      → handle_frame text frame b ≡ ok (write_packet (response_to plain body) b)
  unfolding handle_frame write_response run_handler new_message_context
  handle_frame-write_packet frame plain b h body decrypts request ack is_open all there replies =
      let handles : handled b.dispatcher b.conn plain
          ≡ (set_reply (reply_bytes body) (started b.conn plain), none) =
        rw (run_handler, there, replies) refl in
      let dispatches =
        dispatch-run_handler b.dispatcher b.conn plain request is_open all
        ∙ ap (λ o. ok (dispatched o)) handles in
      rw (decrypts, dispatches, ack) refl

  -- A request that asks for an acknowledgement, arrives while fewer than 64 frames wait to be
  -- written, and meets an open connection, filters that call the rest of the chain, and a handler
  -- that returns a body and leaves the context as it is: the one frame put into the channel is
  -- the response to it, with its opcode and its number, that `NewResponsePacket` builds; nothing
  -- else of the bridge changes.
  pub handle_frame-replied :
      (frame plain : PacketData) (b : ConnectionBridge) (h : MessageHandler) (body : List ℕ)
      → decrypt_body b.codec frame ≡ secured plain
      → is_response_packet plain ≡ false
      → packet_requires_ack plain ≡ true
      → b.conn.is_closed ≡ false
      → All (λ f. f (started b.conn plain) ≡ passes (started b.conn plain)) b.dispatcher.filters
      → find (message_id plain) b.dispatcher.handlers ≡ some h
      → h (started b.conn plain) ≡ replied (some body) (started b.conn plain)
      → length b.write_ch < 64
      → handle_frame text frame b
        ≡ ok (record b {
          write_ch =
              b.write_ch ++ (new_response_packet plain.opcode plain.seq body plain.flags ∷ []);
        })
  handle_frame-replied frame plain b h body decrypts request ack is_open all there replies room =
      handle_frame-write_packet frame plain b h body decrypts request ack is_open all there replies
      ∙ ap (λ x. ok x) (write_packet-room (response_to plain body) b room)
