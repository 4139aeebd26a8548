-- ===== src/Examples/Pending.antt =====
-- The acknowledgement queue and the sequence manager at concrete inputs.
use proto_q.Prelude.{
  ◌+◌, ◌≤◌, ◌<◌, ◌≡◌, refl, arith, true, false, Option, none, some, [], ◌∷◌, length, replicate,
  find, has_key, ◌&&◌, IsMap,
}
use proto_q.Errors.{Error, max_retries, ok, panic}
use proto_q.Packet.{PacketData}
use proto_q.Queue.{MessageQueue, registered, put_channel, Channel}
use proto_q.Queue.Counting.{IsCounted, IsBounded, put_channel-drift}
use proto_q.Seq.{
  take_request, settle, SeqManager, PendingRequest, allocate, next_after, resolve, expire,
  exhausted, give_up, retry_loop, try_send,
}
use proto_q.Seq.Numbers.{IsReady, limit, allocate-IsReady, allocate-pending}
use proto_q.Seq.Retry.{
  IsSettled, resolve-IsSettled, give_up-resolve, give_up-settle, retry_loop-gives_up,
}

abbrev one_waiting : MessageQueue
one_waiting = record { pending = (7, 1) ∷ []; count = 1 }

one_waiting-IsCounted : IsCounted one_waiting
unfolding IsMap find
one_waiting-IsCounted = record { once = (refl, tt); counted = refl }

one_waiting-IsBounded : IsBounded one_waiting
unfolding IsMap find
one_waiting-IsBounded = record { once = (refl, tt); bounded = omega arith }

fresh_8 : find 8 one_waiting.pending ≡ none
unfolding find
fresh_8 = refl

waits_7 : find 7 one_waiting.pending ≡ some 1
unfolding find
waits_7 = refl

put_channel-drift_example :
    (q' : MessageQueue) × (put_channel 7 2 0 one_waiting ≡ registered q')
    × (find 7 q'.pending ≡ some 2)
    × (q'.count ≡ length q'.pending + 1)
put_channel-drift_example = put_channel-drift 7 2 1 one_waiting one_waiting-IsCounted waits_7

abbrev pub pulse : PacketData
pulse = record { flags = 0x4a; opcode = 3; seq = 8; body = [] }

abbrev open_channel : Channel
open_channel = record { sent = []; room = 1; is_closed = false }

found_2 : find 2 ((2, open_channel) ∷ []) ≡ some open_channel
unfolding find
found_2 = refl

abbrev waiting : PendingRequest
waiting = record {
  seq = 8;
  frame = pulse;
  response_c = none;
  err_c = none;
  retries = 0;
  done = false;
}

abbrev waiting_last : PendingRequest
waiting_last = record waiting { retries = 3 }

abbrev manager : PendingRequest → SeqManager
manager r = record {
  next = 9;
  pending = (8, 1) ∷ [];
  closed = false;
  seq_len = 2;
  retry_timeout = 1000000000;
  requests = (1, r) ∷ [];
}

there_8 : (r : PendingRequest) → find 8 (manager r).pending ≡ some 1
unfolding find
there_8 r = refl

request_1 : (r : PendingRequest) → find 1 (manager r).requests ≡ some r
unfolding find
request_1 r = refl

allocate-IsReady_example :
    ((manager waiting).closed ≡ true → allocate (manager waiting) ≡ (0, manager waiting))
    × ((manager waiting).closed ≡ false
        → (0 < (allocate (manager waiting)).0)
          × ((allocate (manager waiting)).0 ≤ limit 2)
          × IsReady (allocate (manager waiting)).1)
allocate-IsReady_example =
    allocate-IsReady (manager waiting) (record { positive = omega arith; fits = omega arith })

allocate-pending_example :
    has_key (allocate (manager waiting)).0 (manager waiting).pending
    ≡ (has_key 9 (manager waiting).pending && has_key (next_after 2 9) (manager waiting).pending)
allocate-pending_example = allocate-pending (manager waiting) refl

resolve-IsSettled_example :
    (sm' : SeqManager) × (resolve 8 pulse (manager waiting) ≡ ok (true, sm'))
    × IsSettled 8 1 (record waiting { done = true; response_c = some pulse }) (manager waiting) sm'
resolve-IsSettled_example =
    resolve-IsSettled 8 1 pulse waiting (manager waiting) (there_8 waiting) (request_1 waiting) refl
      refl

give_up-resolve_example :
    ((expire 8 1 (manager waiting_last)).0 ≡ exhausted)
    × (sm' : SeqManager) × (resolve 8 pulse (expire 8 1 (manager waiting_last)).1 ≡ ok (true, sm'))
    × (give_up 8 1 max_retries sm' ≡ panic)
give_up-resolve_example =
    give_up-resolve 8 1 waiting_last (manager waiting_last) (there_8 waiting_last)
      (request_1 waiting_last) pulse refl refl refl

give_up-settle_example :
    ((expire 8 1 (manager waiting_last)).0 ≡ exhausted)
    × ((take_request 8 (expire 8 1 (manager waiting_last)).1).0 ≡ some 1)
    × (sm' : SeqManager) × (give_up 8 1 max_retries
          (take_request 8 (expire 8 1 (manager waiting_last)).1).1
        ≡ ok sm')
    × (settle pulse (take_request 8 (expire 8 1 (manager waiting_last)).1).0 sm' ≡ panic)
give_up-settle_example =
    give_up-settle 8 1 waiting_last (manager waiting_last) (there_8 waiting_last)
      (request_1 waiting_last) pulse refl refl

abbrev sends : PacketData → Option Error
sends frame = none

retry_loop-gives_up_example :
    (sm' : SeqManager) × (retry_loop (some sends) 4 8 1 (manager waiting)
      ≡ ok (record { goes_on = false; sent = replicate 3 pulse; after = sm' }))
    × IsSettled 8 1
        (record waiting { retries = 4; done = true; err_c = try_send max_retries none })
        (manager waiting)
        sm'
retry_loop-gives_up_example =
    retry_loop-gives_up sends 8 1 3 4 waiting (manager waiting) (there_8 waiting)
      (request_1 waiting) (omega arith) refl refl refl
