-- ===== src/Dispatch/Chain.antt =====
-- Which frames reach a handler, and where responses go.
use proto_q.Prelude.{
  ℕ, ◌≡◌, refl, ap, sym, ◌∙◌, true, false, Option, none, some, List, [], ◌∷◌, ◌++◌, append-nil, All,
  ◌==◌, Map, find, put, ◌<◌, ◌-◌,
}
use proto_q.Errors.{ok}
use proto_q.Packet.{PacketData, is_response_packet}
use proto_q.Queue.{MessageQueue, Channel, put_channel, registered}
use proto_q.Queue.Counting.{complete-put_channel}
use proto_q.Dispatch.{
  Connection, MessageContext, new_message_context, Filter, passes, refuses, is_over, Outcome,
  do_filter, MessageHandler, MessageDispatcher, run_handler, Failure, negotiate_required,
  dispatched, dispatch, message_id, finish_waiting, negotiate_filter,
}

do_filter-passing :
    (before after : List Filter) (completed : MessageContext → Outcome) (ctx : MessageContext)
    → is_over ctx ≡ false
    → All (λ f. f ctx ≡ passes ctx) before
    → do_filter (before ++ after) completed ctx ≡ do_filter after completed ctx
unfolding do_filter
do_filter-passing [] after completed ctx goes_on all = refl
do_filter-passing (f ∷ fs) after completed ctx goes_on all =
    rw (goes_on, all.0) (do_filter-passing fs after completed ctx goes_on all.1)

do_filter-over :
    (filters : List Filter) (completed : MessageContext → Outcome) (ctx : MessageContext)
    → is_over ctx ≡ true
    → do_filter filters completed ctx ≡ (ctx, none)
unfolding do_filter
do_filter-over [] completed ctx over = rw over refl
do_filter-over (f ∷ fs) completed ctx over = rw over refl

do_filter-refused :
    (f : Filter) (filters : List Filter) (completed : MessageContext → Outcome)
    (ctx : MessageContext) (e : Failure)
    → is_over ctx ≡ false
    → f ctx ≡ refuses e ctx
    → do_filter (f ∷ filters) completed ctx ≡ (ctx, some e)
unfolding do_filter
do_filter-refused f filters completed ctx e goes_on stops = rw (goes_on, stops) refl

-- What a filter or a handler sees of a frame that is given to `Dispatch`.
abbrev pub started : Connection → PacketData → MessageContext
started c frame = new_message_context (some c) (some frame)

abbrev pub handled : MessageDispatcher → Connection → PacketData → Outcome
handled d c frame = run_handler d.handlers (message_id frame) (started c frame)

-- A request on an open connection whose filters all call the rest of the chain with the context as
-- it is: `Dispatch` returns what the handler of the opcode's lower byte makes of a fresh context,
-- or the error that there is none.
pub dispatch-run_handler :
    (d : MessageDispatcher) (c : Connection) (frame : PacketData)
    → is_response_packet frame ≡ false
    → c.is_closed ≡ false
    → All (λ f. f (started c frame) ≡ passes (started c frame)) d.filters
    → dispatch d (some c) (some frame) ≡ ok (dispatched (handled d c frame))
unfolding dispatch do_filter new_message_context
dispatch-run_handler d c frame request is_open all =
    let completed = run_handler d.handlers (message_id frame) in
    let chain = do_filter-passing d.filters [] completed (started c frame) is_open all in
    let last : do_filter [] completed (started c frame) ≡ handled d c frame = rw is_open refl in
    let whole : do_filter d.filters completed (started c frame) ≡ handled d c frame =
      ap (λ fs. do_filter fs completed (started c frame)) (sym (append-nil d.filters))
      ∙ chain
      ∙ last in
    rw (request, whole) refl

-- A request on a closed connection reaches no filter and no handler: no response and no error.
pub dispatch-closed :
    (d : MessageDispatcher) (c : Connection) (frame : PacketData)
    → is_response_packet frame ≡ false
    → c.is_closed ≡ true
    → dispatch d (some c) (some frame) ≡ ok (dispatched (started c frame, none))
unfolding dispatch do_filter new_message_context
dispatch-closed d c frame request closed =
    let over =
      do_filter-over d.filters (run_handler d.handlers (message_id frame)) (started c frame)
        closed in
    rw (request, over) refl

refuses_without_codec :
    (codec : Option ℕ) (id : ℕ) (ctx : MessageContext)
    → codec ≡ none
    → (elim codec [ none ↦ refuses (negotiate_required id) ctx | some v ↦ passes ctx ])
      ≡ refuses (negotiate_required id) ctx
refuses_without_codec none id ctx e = refl
refuses_without_codec (some v) id ctx e = absurd (cc e)

-- Behind filters that call the rest of the chain with the context as it is, `NegotiateFilter` keeps a request other than the
-- negotiation, on an open connection that has no codec type, from all later filters and from every
-- handler: `Dispatch` returns the negotiation error, with no response, and the connection
-- unchanged.
pub dispatch-negotiate_filter :
    (before after : List Filter) (handlers : Map MessageHandler) (c : Connection)
    (frame : PacketData)
    → is_response_packet frame ≡ false
    → c.is_closed ≡ false
    → c.codec_type ≡ none
    → (message_id frame == 0x01) ≡ false
    → All (λ f. f (started c frame) ≡ passes (started c frame)) before
    → dispatch
        (record { filters = before ++ (negotiate_filter ∷ after); handlers = handlers })
        (some c)
        (some frame)
      ≡ ok (dispatched (started c frame, some (negotiate_required (message_id frame))))
unfolding dispatch do_filter new_message_context negotiate_filter
dispatch-negotiate_filter before after handlers c frame request is_open no_codec other all =
    let completed = run_handler handlers (message_id frame) in
    let ctx = started c frame in
    let chain = do_filter-passing before (negotiate_filter ∷ after) completed ctx is_open all in
    let stops : negotiate_filter ctx ≡ refuses (negotiate_required (message_id frame)) ctx =
      rw other (refuses_without_codec c.codec_type (message_id frame) ctx no_codec) in
    let refused_here : do_filter (negotiate_filter ∷ after) completed ctx
        ≡ (ctx, some (negotiate_required (message_id frame))) =
      do_filter-refused negotiate_filter after completed ctx (negotiate_required (message_id frame))
        is_open stops in
    rw (request, chain ∙ refused_here) refl

-- A number that is not pending is put, without a limit, into a connection's queue with an open
-- channel that has room in its buffer or a receiver, and a response frame with that number is dispatched: without a panic, the frame is sent
-- on that channel, the queue is as before the number was put, and there is neither a context nor an
-- error.
pub dispatch-put_channel :
    (d : MessageDispatcher) (c : Connection) (frame : PacketData) (q : MessageQueue) (ch : ℕ)
    (waiting : Channel)
    → is_response_packet frame ≡ true
    → find frame.seq q.pending ≡ none
    → find ch c.store ≡ some waiting
    → waiting.is_closed ≡ false
    → 0 < waiting.room
    → (q1 : MessageQueue) × (put_channel frame.seq ch 0 q ≡ registered q1)
      × (dispatch d (some (record c { queue = some q1 })) (some frame)
          ≡ ok (record {
            context = none;
            failure = none;
            conn = some (record c {
              queue = some q;
              store =
                  put ch
                    (record waiting { sent = frame ∷ waiting.sent; room = waiting.room - 1 })
                    c.store;
            });
          }))
unfolding dispatch finish_waiting
dispatch-put_channel d c frame q ch waiting response fresh there is_open room =
    let (q1, registers, completes) =
      complete-put_channel frame.seq ch q frame waiting c.store fresh there is_open room in
    (q1, registers, rw (response, finish_waiting, completes) refl)
