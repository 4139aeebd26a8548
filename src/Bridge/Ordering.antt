-- ===== src/Bridge/Ordering.antt =====
-- The order of the responses of conn/bridge.go, in any order of the rounds of its two loops.
use proto_q.Prelude.{
  ℕ, ◌+◌, ◌≤◌, ◌≡◌, refl, ap, sym, ◌∙◌, arith, Bool, true, false, ltb, if◌then◌else◌, List, [], ◌∷◌,
  ◌++◌, append_assoc, append-nil, length, length-append, All,
}
use proto_q.Errors.{ok}
use proto_q.Packet.{PacketData}
use proto_q.Bridge.{BridgeError, ConnectionBridge}
use proto_q.Bridge.Outbox.{
  IsServedEvent, Event, reads, writes, run_events, Outbox, put_out, take_out, run_outbox, Sealed,
  at, run_events-run_outbox,
}

-- The responses to the requests, in the order of their arrival.
abbrev pub outs : List Event → List PacketData
outs [] = []
outs (reads r ∷ events) = r.out ∷ outs events
outs (writes ∷ events) = outs events

take_out-joined :
    (accepts : PacketData → Bool) (waiting gone : List PacketData) (moving : Bool)
    → let o : Outbox = record { waiting = waiting; gone = gone; moving = moving } in
      ((take_out accepts o).gone ++ (take_out accepts o).waiting ≡ gone ++ waiting)
      × (length (take_out accepts o).waiting ≤ length waiting)
take_out-joined accepts waiting gone false = (refl, omega arith)
take_out-joined accepts [] gone true = (refl, omega arith)
take_out-joined accepts (x ∷ xs) gone true = (append_assoc gone (x ∷ []) xs, omega arith)

run_outbox-outs :
    (accepts : PacketData → Bool) (events : List Event) (o : Outbox)
    → length o.waiting + length (outs events) ≤ 64
    → (run_outbox accepts events o).gone ++ (run_outbox accepts events o).waiting
      ≡ (o.gone ++ o.waiting) ++ outs events
unfolding run_outbox
run_outbox-outs accepts [] o few = sym (append-nil (o.gone ++ o.waiting))
run_outbox-outs accepts (reads r ∷ events) o few =
    let room : ltb (length o.waiting) 64 ≡ true = ground arith in
    let more = length-append o.waiting (r.out ∷ []) in
    let put : (put_out r.out o).waiting ≡ o.waiting ++ (r.out ∷ []) =
      ap (λ (t : Bool). if t then o.waiting ++ (r.out ∷ []) else o.waiting) room in
    run_outbox-outs accepts events (put_out r.out o) (omega (arith, ap length put, more, few))
    ∙ (ap (λ t. (o.gone ++ t) ++ outs events) put ∙ simp append_assoc)
run_outbox-outs accepts (writes ∷ events) o few =
    let (joined, fewer) = take_out-joined accepts o.waiting o.gone o.moving in
    run_outbox-outs accepts events (take_out accepts o) (omega (arith, few, fewer))
    ∙ ap (λ t. t ++ outs events) joined

module _ (text : BridgeError → List ℕ) (accepts : PacketData → Bool) where
  -- On a bridge with an open connection and an empty channel, at most 64 rounds of `readLoop` with
  -- requests that are served, and any number of rounds of `writeLoop` among them, return without a
  -- panic: what they give to the socket, whether it takes it or not, followed by what is left in
  -- the channel, still to be encrypted, are the responses to all of the requests, in the order in
  -- which these arrived.
  pub run_events-outs :
      (b : ConnectionBridge) (events : List Event)
      → b.conn.is_closed ≡ false
      → b.write_ch ≡ []
      → All (IsServedEvent b) events
      → length (outs events) ≤ 64
      → (b' : ConnectionBridge) × (waiting : List PacketData) × (run_events text accepts events b
          ≡ ok b')
        × Sealed b b'.write_ch waiting
        × (b'.conn.written ++ waiting ≡ b.conn.written ++ outs events)
  run_events-outs b events is_open empty served few =
      let o0 : Outbox = record { waiting = []; gone = b.conn.written; moving = b.writing } in
      let (ch', runs, sealed) =
        run_events-run_outbox text accepts b is_open events [] o0 served (omega arith) in
      let o = run_outbox accepts events o0 in
      let ordered = run_outbox-outs accepts events o0 (omega (arith, few)) in
      (
        at b ch' o,
        o.waiting,
        ap (λ t. run_events text accepts events (at b t o0)) empty ∙ runs,
        sealed,
        ordered ∙ ap (λ t. t ++ outs events) (append-nil b.conn.written),
      )
