-- ===== src/Dispatch.antt =====
-- basic/register (message_context.go, filter_chain.go, message_dispatcher.go) and
-- basic/filter/negotiate.go: a frame on its way through the filters to its handler.
-- A filter calls the rest of the chain at most once, and last: what it does is a `Decision`.
-- Handlers and filters are functions of the context, of its connection, to which they may write, and
-- of the frame behind its pointer; a handler's own errors are known by numbers.
pub mod Chain
use proto_q.Prelude.{
  ℕ, Bool, true, false, not, Option, none, some, List, [], ◌∷◌, ◌++◌, ◌==◌, if◌then◌else◌, bit_and,
  Map, find, put,
}
use proto_q.Errors.{Result, ok, err, panic, ◌>>=◌}
use proto_q.Packet.{PacketData, is_response_packet}
use proto_q.Queue.{MessageQueue, Store, complete}

-- What `Response` holds, by its dynamic type.
pub data Reply : Type 0 where
  no_reply : Reply
  reply_packet : PacketData → Reply
  reply_bytes : List ℕ → Reply
  reply_other : Reply

-- The errors of a dispatch, with the message's id.
pub data Failure : Type 0 where
  handler_missing : ℕ → Failure
  handler_failed : ℕ → ℕ → Failure
  negotiate_required : ℕ → Failure
  refused : ℕ → Failure

-- What the bridge, the filters and the handlers use of a connection. `codec_type` and
-- `last_heartbeat`, a time, are the properties of these names; `store` holds the channels that wait
-- in its queue; `written` lists the frames that `WritePacket` gave to the socket, oldest first.
pub record Connection : Type 0 where
  pub is_closed : Bool
  pub codec_type : Option ℕ
  pub queue : Option MessageQueue
  pub store : Store
  pub last_heartbeat : Option ℕ
  pub written : List PacketData

pub record MessageContext : Type 0 where
  pub conn : Option Connection
  pub frame : Option PacketData
  pub reply : Reply

unfoldable pub new_message_context : Option Connection → Option PacketData → MessageContext
new_message_context conn frame = record { conn = conn; frame = frame; reply = no_reply }

abbrev pub set_reply : Reply → MessageContext → MessageContext
set_reply r ctx = record ctx { reply = r }

-- What a filter does: call the rest of the chain, return nil without it, or return an error.
pub data Decision : Type 0 where
  passes : MessageContext → Decision
  blocks : MessageContext → Decision
  refuses : Failure → MessageContext → Decision

abbrev pub Filter : Type 0
Filter = MessageContext → Decision

abbrev pub Outcome : Type 0
Outcome = MessageContext × Option Failure

abbrev pub is_over : MessageContext → Bool
is_over ctx = elim ctx.conn [ none ↦ false | some c ↦ c.is_closed ]

-- `DoFilter` of the continuation whose filters are left.
unfoldable pub do_filter : List Filter → (MessageContext → Outcome) → MessageContext → Outcome
do_filter [] completed ctx = if is_over ctx then (ctx, none) else completed ctx
do_filter (f ∷ fs) completed ctx = if is_over ctx then (ctx, none) else elim (f ctx) [
  | passes c ↦ do_filter fs completed c
  | blocks c ↦ (c, none)
  | refuses e c ↦ (c, some e)
]

-- What a handler returns: the body of the response, which may be nil, or an error.
pub data Handled : Type 0 where
  replied : Option (List ℕ) → MessageContext → Handled
  failed : ℕ → MessageContext → Handled

abbrev pub MessageHandler : Type 0
MessageHandler = MessageContext → Handled

pub record MessageDispatcher : Type 0 where
  pub filters : List Filter
  pub handlers : Map MessageHandler

unfoldable pub new_message_dispatcher : MessageDispatcher
new_message_dispatcher = record { filters = []; handlers = [] }

unfoldable pub add_filter : Filter → MessageDispatcher → MessageDispatcher
add_filter f d = record d { filters = d.filters ++ (f ∷ []) }

unfoldable pub register_handler : ℕ → MessageHandler → MessageDispatcher → MessageDispatcher
register_handler id h d = record d { handlers = put id h d.handlers }

-- The lower byte of the opcode.
unfoldable pub message_id : PacketData → ℕ
message_id frame = bit_and frame.opcode 0xff

abbrev pub after_handler : ℕ → Handled → Outcome
after_handler id (replied none ctx) = (ctx, none)
after_handler id (replied (some body) ctx) = (set_reply (reply_bytes body) ctx, none)
after_handler id (failed e ctx) = (ctx, some (handler_failed id e))

-- The callback at the end of the chain.
unfoldable pub run_handler : Map MessageHandler → ℕ → MessageContext → Outcome
run_handler handlers id ctx = elim (find id handlers) [
  | none ↦ (ctx, some (handler_missing id))
  | some h ↦ after_handler id (h ctx)
]

-- The context and the error that `Dispatch` returns, and the connection afterwards.
pub record Dispatched : Type 0 where
  pub context : Option MessageContext
  pub failure : Option Failure
  pub conn : Option Connection

unfoldable pub finish_waiting : PacketData → Connection → Result Connection
finish_waiting frame c = elim c.queue [
  | none ↦ ok c
  | some q ↦ (do
    r ← complete frame.seq frame q c.store
    ok (record c { queue = some r.0; store = r.1 }))
]

abbrev pub dispatched : Outcome → Dispatched
dispatched o = record { context = some o.0; failure = o.1; conn = o.0.conn }

unfoldable pub dispatch :
    MessageDispatcher → Option Connection → Option PacketData → Result Dispatched
unfolding new_message_context do_filter run_handler finish_waiting
dispatch d none frame = ok (record { context = none; failure = none; conn = none })
dispatch d (some c) none = ok (record { context = none; failure = none; conn = some c })
dispatch d (some c) (some frame) =
    if is_response_packet frame
    then (do
      c' ← finish_waiting frame c
      ok (record { context = none; failure = none; conn = some c' }))
    else ok (
        dispatched (
          do_filter d.filters (run_handler d.handlers (message_id frame))
            (new_message_context (some c) (some frame))))

abbrev pub negotiate_frame : PacketData → Filter
negotiate_frame frame ctx =
    let id = message_id frame in
    if id == 0x01 then passes ctx else elim ctx.conn [
      | none ↦ passes ctx
      | some c ↦ elim c.codec_type [
        | none ↦ refuses (negotiate_required id) ctx
        | some codec ↦ passes ctx
      ]
    ]

-- `NegotiateFilter`
unfoldable pub negotiate_filter : Filter
negotiate_filter ctx = elim ctx.frame [ none ↦ passes ctx | some frame ↦ negotiate_frame frame ctx ]
