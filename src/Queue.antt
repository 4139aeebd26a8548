-- ===== src/Queue.antt =====
-- message_queue.go: the queue of the requests that wait for an acknowledgement. A channel that a
-- caller made is known by a number, its identity, and its state is kept in `Store`. A send on a
-- closed channel and a second close panic. The counter is an `int`; it never falls below the number
-- of the entries (`Queue.Counting`), so it is a natural number.
pub mod Wiring
pub mod Closing
pub mod Counting
pub mod Refinement
use proto_q.Prelude.{
  ℕ, zero, suc, ◌+◌, ◌-◌, Bool, true, false, Option, none, some, List, [], ◌∷◌, ltb, leb, ◌&&◌,
  if◌then◌else◌, Map, find, erase, put,
}
use proto_q.Errors.{Result, blocks, ok, err, panic, ◌>>=◌}
use proto_q.Packet.{PacketData}

-- A channel of frames: what was sent, last first, how many more frames its buffer and the receivers
-- that wait will take, and whether it is closed.
pub record Channel : Type 0 where
  pub sent : List PacketData
  pub room : ℕ
  pub is_closed : Bool

-- The channels by their identity; a missing one is the nil channel.
abbrev pub Store : Type 0
Store = Map Channel

pub record MessageQueue : Type 0 where
  pub pending : Map ℕ
  pub count : ℕ

unfoldable pub new_message_queue : MessageQueue
new_message_queue = record { pending = []; count = 0 }

-- The outcome of `Put`.
pub data PutResult : Type 0 where
  registered : MessageQueue → PutResult
  queue_full : ℕ → ℕ → PutResult

-- A capacity of 0 is no limit.
unfoldable pub put_channel : ℕ → ℕ → ℕ → MessageQueue → PutResult
put_channel seq ch capacity q =
    if ltb 0 capacity && leb capacity q.count
    then queue_full q.count capacity
    else registered (record { pending = put seq ch q.pending; count = q.count + 1 })

abbrev pub get : ℕ → MessageQueue → Option ℕ
get seq q = find seq q.pending

-- `ch <- frame` waits while nobody takes the frame.
unfoldable pub send : PacketData → ℕ → Channel → Store → Result Store
send frame ch c s =
    if c.is_closed
    then panic
    else if ltb 0 c.room
    then ok (put ch (record c { sent = frame ∷ c.sent; room = c.room - 1 }) s)
    else err blocks

-- `close(ch)`
unfoldable pub close : ℕ → Channel → Store → Result Store
close ch c s = if c.is_closed then panic else ok (put ch (record c { is_closed = true }) s)

-- What `Complete` and `CompleteError` do under the lock.
unfoldable pub take_channel : ℕ → MessageQueue → Option ℕ × MessageQueue
take_channel seq q = elim (find seq q.pending) [
  | none ↦ (none, q)
  | some ch ↦ (some ch, record { pending = erase seq q.pending; count = q.count - 1 })
]

-- The guard `ok && ch != nil`.
abbrev pub with_channel : Option ℕ → (ℕ → Channel → Store → Result Store) → Store → Result Store
with_channel none act s = ok s
with_channel (some ch) act s = elim (find ch s) [ none ↦ ok s | some c ↦ act ch c s ]

unfoldable pub complete : ℕ → PacketData → MessageQueue → Store → Result (MessageQueue × Store)
unfolding take_channel send
complete seq frame q s = do
  let taken = take_channel seq q
  s' ← with_channel taken.0 (send frame) s
  ok (taken.1, s')

unfoldable pub complete_error : ℕ → MessageQueue → Store → Result (MessageQueue × Store)
unfolding take_channel close
complete_error seq q s = do
  let taken = take_channel seq q
  s' ← with_channel taken.0 close s
  ok (taken.1, s')

-- The loop of `Clear`, in the order in which the map gives its entries. It has no guard: closing
-- the nil channel panics.
unfoldable pub close_all : Map ℕ → Store → Result Store
unfolding close
close_all [] s = ok s
close_all ((seq, ch) ∷ m) s = do
  s' ← elim (find ch s) [ none ↦ panic | some c ↦ close ch c s ]
  close_all m s'

unfoldable pub clear : MessageQueue → Store → Result (MessageQueue × Store)
unfolding close_all
clear q s = do s' ← close_all q.pending s; ok (record { pending = []; count = 0 }, s')
