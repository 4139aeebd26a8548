-- ===== src/Bridge/Outbox.antt =====
-- The channel between the two loops of conn/bridge.go, in any order of their rounds.
use proto_q.Prelude.{
  ℕ, suc, ◌≤◌, ◌≡◌, refl, ap, ◌∙◌, arith, Bool, true, false, Bool-cases, inl, inr, ltb,
  if◌then◌else◌, List, [], ◌∷◌, ◌++◌, length, All, find, some,
}
use proto_q.Errors.{Result, ok, ◌>>=◌}
use proto_q.Packet.{PacketData, packet_requires_ack, is_response_packet}
use proto_q.Dispatch.{Connection, MessageHandler, passes, replied, message_id}
use proto_q.Dispatch.Chain.{started}
use proto_q.Bridge.{
  BridgeError, ConnectionBridge, secured, decrypt_body, encrypt_body, write_packet, write_round,
  response_to, handle_frame, conn_write,
}
use proto_q.Bridge.Replies.{handle_frame-write_packet}

-- A request on its way through the bridge: as it arrives, decrypted, its handler, the handler's
-- body, and the response as it leaves.
pub record Request : Type 0 where
  pub frame : PacketData
  pub plain : PacketData
  pub handler : MessageHandler
  pub body : List ℕ
  pub out : PacketData

-- The bridge's connection when other frames were given to its socket.
abbrev pub wrote : ConnectionBridge → List PacketData → Connection
wrote b written = record b.conn { written = written }

-- Whatever was written before, the bridge's filters call the rest of the chain with the context as
-- it is, and the handler returns the body and leaves the context as it is; the response can be
-- encrypted.
pub record IsServed (b : ConnectionBridge) (r : Request) : Type 0 where
  pub decrypts : decrypt_body b.codec r.frame ≡ secured r.plain
  pub request : is_response_packet r.plain ≡ false
  pub ack : packet_requires_ack r.plain ≡ true
  pub passed :
      (w : List PacketData)
      → All
          (λ f. f (started (wrote b w) r.plain) ≡ passes (started (wrote b w) r.plain))
          b.dispatcher.filters
  pub there : find (message_id r.plain) b.dispatcher.handlers ≡ some r.handler
  pub replies :
      (w : List PacketData)
      → r.handler (started (wrote b w) r.plain)
        ≡ replied (some r.body) (started (wrote b w) r.plain)
  pub encrypts : encrypt_body b.codec (response_to r.plain r.body) ≡ secured r.out

-- A round of `readLoop` with a request, or a round of `writeLoop`, which waits while the channel
-- is empty, and of which there is none once the loop has ended.
pub data Event : Type 0 where
  reads : Request → Event
  writes : Event

abbrev pub IsServedEvent : ConnectionBridge → Event → Type 0
IsServedEvent b (reads r) = IsServed b r
IsServedEvent b writes = 0 ≤ 0

module _ (text : BridgeError → List ℕ) (accepts : PacketData → Bool) where
  unfoldable pub run_events : List Event → ConnectionBridge → Result ConnectionBridge
  run_events [] b = ok b
  run_events (reads r ∷ events) b = do b' ← handle_frame text r.frame b; run_events events b'
  run_events (writes ∷ events) b = run_events events (write_round accepts b)

-- The specification: a queue of at most 64 responses, which drops what does not fit, what has left
-- it, and whether anything leaves it any more.
pub record Outbox : Type 0 where
  pub waiting : List PacketData
  pub gone : List PacketData
  pub moving : Bool

abbrev pub put_out : PacketData → Outbox → Outbox
put_out out o = record o {
  waiting = if ltb (length o.waiting) 64 then o.waiting ++ (out ∷ []) else o.waiting;
}

-- The first response that the socket does not take is the last to leave.
abbrev pub take_first : (PacketData → Bool) → List PacketData → Outbox → Outbox
take_first accepts [] o = o
take_first accepts (out ∷ rest) o = record {
  waiting = rest;
  gone = o.gone ++ (out ∷ []);
  moving = accepts out;
}

abbrev pub take_out : (PacketData → Bool) → Outbox → Outbox
take_out accepts o = if o.moving then take_first accepts o.waiting o else o

unfoldable pub run_outbox : (PacketData → Bool) → List Event → Outbox → Outbox
run_outbox accepts [] o = o
run_outbox accepts (reads r ∷ events) o = run_outbox accepts events (put_out r.out o)
run_outbox accepts (writes ∷ events) o = run_outbox accepts events (take_out accepts o)

-- Each of the waiting responses is what `encryptBody` makes of the frame in the channel.
abbrev pub Sealed : ConnectionBridge → List PacketData → List PacketData → Type 0
Sealed b [] [] = 0 ≤ 0
Sealed b [] (out ∷ outs) = 1 ≤ 0
Sealed b (f ∷ fs) [] = 1 ≤ 0
Sealed b (f ∷ fs) (out ∷ outs) = (encrypt_body b.codec f ≡ secured out) × Sealed b fs outs

Sealed-append :
    (b : ConnectionBridge) (fs outs : List PacketData) (f out : PacketData)
    → Sealed b fs outs
    → encrypt_body b.codec f ≡ secured out
    → Sealed b (fs ++ (f ∷ [])) (outs ++ (out ∷ []))
Sealed-append b [] [] f out h e = (e, omega arith)
Sealed-append b [] (x ∷ xs) f out h e = absurd (omega (arith, h))
Sealed-append b (x ∷ xs) [] f out h e = absurd (omega (arith, h))
Sealed-append b (g ∷ fs) (x ∷ xs) f out h e = (h.0, Sealed-append b fs xs f out h.1 e)

Sealed-length :
    (b : ConnectionBridge) (fs outs : List PacketData) → Sealed b fs outs → length fs ≡ length outs
Sealed-length b [] [] h = refl
Sealed-length b [] (x ∷ xs) h = absurd (omega (arith, h))
Sealed-length b (x ∷ xs) [] h = absurd (omega (arith, h))
Sealed-length b (g ∷ fs) (x ∷ xs) h = ap suc (Sealed-length b fs xs h.1)

-- The bridge with another channel, other frames written, and its write loop running or not.
abbrev pub at : ConnectionBridge → List PacketData → Outbox → ConnectionBridge
at b ch o = record b { conn = wrote b o.gone; write_ch = ch; writing = o.moving }

write_packet-put_out :
    (b : ConnectionBridge) (ch : List PacketData) (o : Outbox) (f out : PacketData)
    → Sealed b ch o.waiting
    → encrypt_body b.codec f ≡ secured out
    → (ch' : List PacketData) × (write_packet f (at b ch o) ≡ at b ch' (put_out out o))
      × Sealed b ch' (put_out out o).waiting
unfolding write_packet
write_packet-put_out b ch o f out sealed e =
    let same = ap (λ n. ltb n 64) (Sealed-length b ch o.waiting sealed) in
    elim (Bool-cases (ltb (length o.waiting) 64)) [
      | inl room ↦ (
        ch ++ (f ∷ []),
        rw (same, room) refl,
        rw room (Sealed-append b ch o.waiting f out sealed e),
      )
      | inr full ↦ (ch, rw (same, full) refl, rw full sealed)
    ]

module _ (accepts : PacketData → Bool) where
  write_round-take_out :
      (b : ConnectionBridge) (ch waiting gone : List PacketData) (moving : Bool)
      → b.conn.is_closed ≡ false
      → Sealed b ch waiting
      → (ch' : List PacketData) × (write_round accepts
            (at b ch (record { waiting = waiting; gone = gone; moving = moving }))
          ≡ at b ch'
              (take_out accepts (record { waiting = waiting; gone = gone; moving = moving })))
        × Sealed b ch'
            (take_out accepts (record { waiting = waiting; gone = gone; moving = moving })).waiting
  unfolding write_round conn_write
  write_round-take_out b ch waiting gone false is_open sealed = (ch, refl, sealed)
  write_round-take_out b [] [] gone true is_open sealed = ([], refl, sealed)
  write_round-take_out b [] (x ∷ xs) gone true is_open sealed = absurd (omega (arith, sealed))
  write_round-take_out b (f ∷ fs) [] gone true is_open sealed = absurd (omega (arith, sealed))
  write_round-take_out b (f ∷ fs) (x ∷ xs) gone true is_open sealed =
      (fs, rw (sealed.0, is_open) refl, sealed.1)

module _ (text : BridgeError → List ℕ) (accepts : PacketData → Bool) (b : ConnectionBridge)
    (is_open : b.conn.is_closed ≡ false) where
  -- On a bridge with an open connection, the rounds of `readLoop` with requests that are served
  -- and the rounds of `writeLoop`, in any order, return without a panic, and do with the channel
  -- and the connection what a queue of at most 64 responses does that drops what does not fit, and
  -- that nothing leaves any more after a response that the socket does not take: what is given to
  -- the socket is what leaves the queue, what waits in the channel is what waits in the queue,
  -- still to be encrypted, and `writeLoop` runs while the queue moves.
  pub run_events-run_outbox :
      (events : List Event) (ch : List PacketData) (o : Outbox)
      → All (IsServedEvent b) events
      → Sealed b ch o.waiting
      → (ch' : List PacketData) × (run_events text accepts events (at b ch o)
          ≡ ok (at b ch' (run_outbox accepts events o)))
        × Sealed b ch' (run_outbox accepts events o).waiting
  unfolding run_events run_outbox
  run_events-run_outbox [] ch o served sealed = (ch, refl, sealed)
  run_events-run_outbox (reads r ∷ events) ch o served sealed =
      let s = served.0 in
      let handles =
        handle_frame-write_packet text r.frame r.plain (at b ch o) r.handler r.body s.decrypts
          s.request s.ack is_open (s.passed o.gone) s.there (s.replies o.gone) in
      let f = response_to r.plain r.body in
      let (ch1, puts, sealed1) = write_packet-put_out b ch o f r.out sealed s.encrypts in
      let (ch', runs, end) = run_events-run_outbox events ch1 (put_out r.out o) served.1 sealed1 in
      (
        ch',
        ap (λ t. t >>= run_events text accepts events) (handles ∙ ap (λ t. ok t) puts) ∙ runs,
        end,
      )
  run_events-run_outbox (writes ∷ events) ch o served sealed =
      let (ch1, takes, sealed1) =
        write_round-take_out accepts b ch o.waiting o.gone o.moving is_open sealed in
      let (ch', runs, end) =
        run_events-run_outbox events ch1 (take_out accepts o) served.1 sealed1 in
      (ch', ap (run_events text accepts events) takes ∙ runs, end)
