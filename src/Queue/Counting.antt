-- ===== src/Queue/Counting.antt =====
-- `Count` of message_queue.go against the number of the entries.
use proto_q.Prelude.{
  ℕ, ◌+◌, ◌-◌, ◌≤◌, ◌<◌, ◌≡◌, ◌≢◌, ◌⊎◌, inl, inr, refl, ap, arith, true, false, none, some,
  Option-cases, ◌∷◌, length, ltb, leb, Map, find, erase, put, IsMap, put-IsMap, erase-IsMap,
  length-erase, erase-absent, find-put_same, find-put_other, erase-put, find-erase_same,
  find-erase_other, ◌&&◌, lt→ltb,
}
use proto_q.Queue.{
  MessageQueue, registered, queue_full, put_channel, take_channel, complete, send, with_channel,
  Channel, Store,
}
use proto_q.Packet.{PacketData}
use proto_q.Errors.{ok}

-- Each number is an entry at most once, and the counter is the number of the entries.
pub record IsCounted (q : MessageQueue) : Type 0 where
  pub once : IsMap q.pending
  pub counted : q.count ≡ length q.pending

-- The counter is no less than the number of the entries.
pub record IsBounded (q : MessageQueue) : Type 0 where
  pub once : IsMap q.pending
  pub bounded : length q.pending ≤ q.count

full-cases :
    (capacity count : ℕ)
    → ((0 < capacity) × (capacity ≤ count) × ((ltb 0 capacity && leb capacity count) ≡ true))
      ⊎ ((ltb 0 capacity && leb capacity count) ≡ false)
full-cases capacity count = ground arith

-- `Put` of a number that is not pending, in a queue whose counter is right: either the queue holds
-- as many entries as a positive capacity allows, and the error names both; or the counter is right
-- again, the channel is the number's, and every other number has the channel that it had.
pub put_channel-IsCounted :
    (seq ch : ℕ) (q : MessageQueue) (capacity : ℕ)
    → IsCounted q
    → find seq q.pending ≡ none
    → ((0 < capacity)
        × (capacity ≤ length q.pending)
        × (put_channel seq ch capacity q ≡ queue_full (length q.pending) capacity))
      ⊎ ((q' : MessageQueue) × (put_channel seq ch capacity q ≡ registered q')
          × IsCounted q'
          × (find seq q'.pending ≡ some ch)
          × ((other : ℕ) → other ≢ seq → find other q'.pending ≡ find other q.pending))
unfolding put_channel put
put_channel-IsCounted seq ch q capacity h fresh = elim (full-cases capacity q.count) [
  | inl full ↦ inl (full.0, omega (arith, full.1, h.counted), rw full.2 (rw h.counted refl))
  | inr free ↦ inr (
    record { pending = put seq ch q.pending; count = q.count + 1 },
    rw free refl,
    record {
      once = put-IsMap seq ch q.pending h.once;
      counted = rw (erase-absent seq q.pending fresh) (omega (arith, h.counted));
    },
    find-put_same seq ch q.pending,
    λ other differs. find-put_other other seq ch q.pending differs,
  )
]

-- `Put` of a number that is pending already, without a limit: the entry is replaced, and the
-- counter is then one more than the number of the entries.
pub put_channel-drift :
    (seq ch old : ℕ) (q : MessageQueue)
    → IsCounted q
    → find seq q.pending ≡ some old
    → (q' : MessageQueue) × (put_channel seq ch 0 q ≡ registered q')
      × (find seq q'.pending ≡ some ch)
      × (q'.count ≡ length q'.pending + 1)
unfolding put_channel put
put_channel-drift seq ch old q h there = (
  record { pending = put seq ch q.pending; count = q.count + 1 },
  refl,
  find-put_same seq ch q.pending,
  omega (arith, h.counted, length-erase seq old q.pending h.once there),
)

-- Taking an entry out, as `Complete` and `CompleteError` do first: a number that is not pending
-- changes nothing; otherwise its channel is handed out, the number is no longer pending, the others
-- keep their channels, and a counter that was right is right.
pub take_channel-IsCounted :
    (seq : ℕ) (q : MessageQueue)
    → IsCounted q
    → ((find seq q.pending ≡ none) × (take_channel seq q ≡ (none, q)))
      ⊎ ((ch : ℕ) × (q' : MessageQueue) × (find seq q.pending ≡ some ch)
          × (take_channel seq q ≡ (some ch, q'))
          × IsCounted q'
          × (find seq q'.pending ≡ none)
          × ((other : ℕ) → other ≢ seq → find other q'.pending ≡ find other q.pending))
unfolding take_channel
take_channel-IsCounted seq q h = elim (Option-cases (find seq q.pending)) [
  | inl e ↦ inl (e, rw (take_channel, e) refl)
  | inr (ch, e) ↦ inr (
    ch,
    record { pending = erase seq q.pending; count = q.count - 1 },
    e,
    rw (take_channel, e) refl,
    record {
      once = erase-IsMap seq q.pending h.once;
      counted = omega (arith, h.counted, length-erase seq ch q.pending h.once e);
    },
    find-erase_same seq q.pending,
    λ other differs. find-erase_other other seq q.pending differs,
  )
]

-- `Put`, without a limit, of a number that is not pending, with a channel that is open and has
-- room, and then `Complete` of the number: without a panic, the frame is sent on that channel alone, and the queue
-- has the entries and the counter that it had.
pub complete-put_channel :
    (seq ch : ℕ) (q : MessageQueue) (frame : PacketData) (c : Channel) (s : Store)
    → find seq q.pending ≡ none
    → find ch s ≡ some c
    → c.is_closed ≡ false
    → 0 < c.room
    → (q1 : MessageQueue) × (put_channel seq ch 0 q ≡ registered q1)
      × (complete seq frame q1 s
          ≡ ok (q, put ch (record c { sent = frame ∷ c.sent; room = c.room - 1 }) s))
unfolding put_channel complete take_channel send
complete-put_channel seq ch q frame c s fresh there is_open room =
    let q1 : MessageQueue = record { pending = put seq ch q.pending; count = q.count + 1 } in
    let taken : take_channel seq q1 ≡ (some ch, q) =
      rw (take_channel, find-put_same seq ch q.pending, erase-put seq ch q.pending fresh)
        (ap (λ (n : ℕ). (some ch, record q { count = n })) (omega arith)) in
    let after = put ch (record c { sent = frame ∷ c.sent; room = c.room - 1 }) s in
    let sent : with_channel (some ch) (send frame) s ≡ ok after =
      rw (with_channel, there, send, is_open, lt→ltb 0 c.room room) refl in
    (q1, refl, rw (complete, taken, sent) refl)

put-length : (seq ch : ℕ) (m : Map ℕ) → IsMap m → length (put seq ch m) ≤ length m + 1
unfolding put
put-length seq ch m h = elim (Option-cases (find seq m)) [
  | inl e ↦ rw (erase-absent seq m e) (omega arith)
  | inr (old, e) ↦ omega (arith, length-erase seq old m h e)
]

-- `Put`, of any number, and the first half of `Complete` and `CompleteError` never let the counter
-- fall below the number of the entries: it is never negative, and is decremented only when
-- positive.
pub put_take-IsBounded :
    (seq ch capacity : ℕ) (q : MessageQueue)
    → IsBounded q
    → ((put_channel seq ch capacity q ≡ queue_full q.count capacity)
        ⊎ ((q' : MessageQueue) × (put_channel seq ch capacity q ≡ registered q') × IsBounded q'))
      × IsBounded (take_channel seq q).1
      × (((take_channel seq q).0 ≢ none) → 0 < q.count)
unfolding put_channel take_channel
put_take-IsBounded seq ch capacity q h = (
  elim (full-cases capacity q.count) [
    | inl full ↦ inl (rw full.2 refl)
    | inr free ↦ inr (
      record { pending = put seq ch q.pending; count = q.count + 1 },
      rw free refl,
      record {
        once = put-IsMap seq ch q.pending h.once;
        bounded = omega (arith, put-length seq ch q.pending h.once, h.bounded);
      },
    )
  ],
  elim (Option-cases (find seq q.pending)) [
    | inl e ↦ rw (take_channel, e) h
    | inr (old, e) ↦
        rw (take_channel, e)
          (record {
            once = erase-IsMap seq q.pending h.once;
            bounded = omega (arith, h.bounded, length-erase seq old q.pending h.once e);
          })
  ],
  elim (Option-cases (find seq q.pending)) [
    | inl e ↦ rw (take_channel, e) (λ absent. absurd (absent refl))
    | inr (old, e) ↦ λ taken. omega (arith, h.bounded, length-erase seq old q.pending h.once e)
  ],
)
