-- ===== src/Seq.antt =====
-- conn/seq.go: the numbers of requests, the pending requests, and their retransmission.
-- Each function is what one goroutine does between two points where another one may come in: a
-- section under the lock, or an operation on a channel; `resolve` is its two parts, `take_request`
-- and `settle`, one after the other. A pending request is known by a number, its
-- pointer, and is kept in `requests`. A timer fires when the environment says so.
pub mod Numbers
pub mod Ownership
pub mod Closing
pub mod Reachable
pub mod Retry
pub mod Steady
use proto_q.Prelude.{
  ℕ, zero, suc, ◌+◌, ◌-◌, ◌*◌, ◌%◌, ◌^◌, Bool, true, false, not, Option, none, some, List, [], ◌∷◌,
  ◌++◌, ltb, leb, ◌==◌, ◌&&◌, if◌then◌else◌, Map, find, erase, put, has_key, length,
}
use proto_q.Errors.{Error, conn_closed, max_retries, Result, ok, err, panic, ◌>>=◌}
use proto_q.Packet.{PacketData}

abbrev pub default_seq_len : ℕ
default_seq_len = 2

abbrev pub max_retries_count : ℕ
max_retries_count = 3

abbrev pub max_seq16 : ℕ
max_seq16 = 65535

abbrev pub max_seq32 : ℕ
max_seq32 = 2 ^ 32 - 1

-- In nanoseconds.
abbrev pub default_retry_timeout : ℕ
default_retry_timeout = 1000000000

-- `response_c` and `err_c` are channels with room for one value; `done` says whether the channel of
-- that name is closed.
pub record PendingRequest : Type 0 where
  pub seq : ℕ
  pub frame : PacketData
  pub response_c : Option PacketData
  pub err_c : Option Error
  pub retries : ℕ
  pub done : Bool

pub record SeqManager : Type 0 where
  pub next : ℕ
  pub pending : Map ℕ
  pub closed : Bool
  pub seq_len : ℕ
  pub retry_timeout : ℕ
  pub requests : Map PendingRequest

unfoldable pub new_seq_manager : ℕ → SeqManager
new_seq_manager seq_len = record {
  next = 1;
  pending = [];
  closed = false;
  seq_len = if not (seq_len == 2) && not (seq_len == 4) then default_seq_len else seq_len;
  retry_timeout = default_retry_timeout;
  requests = [];
}

-- `sm.next` is a uint32.
abbrev pub increment : ℕ → ℕ
increment n = (n + 1) % 2 ^ 32

unfoldable pub next_after : ℕ → ℕ → ℕ
next_after seq_len n =
    let m = if seq_len == 2 then increment n % max_seq16 else increment n % max_seq32 in
    if m == 0 then 1 else m

-- The number, 0 where the manager is closed, and the manager afterwards.
unfoldable pub allocate : SeqManager → ℕ × SeqManager
unfolding next_after
allocate sm =
    if sm.closed
    then (0, sm)
    else (let next = next_after sm.seq_len sm.next in
        if has_key sm.next sm.pending
        then (next, record sm { next = increment next })
        else (sm.next, record sm { next = next }))

abbrev pub new_pending_request : ℕ → PacketData → PendingRequest
new_pending_request seq frame = record {
  seq = seq;
  frame = frame;
  response_c = none;
  err_c = none;
  retries = 0;
  done = false;
}

-- `pr` is the pointer of the new request, whose goroutine starts.
unfoldable pub enqueue : ℕ → ℕ → PacketData → SeqManager → SeqManager
enqueue pr seq frame sm = record sm {
  pending = put seq pr sm.pending;
  requests = put pr (new_pending_request seq frame) sm.requests;
}

-- A change of the request behind a pointer.
abbrev pub update : ℕ → (PendingRequest → PendingRequest) → SeqManager → SeqManager
update pr f sm = elim (find pr sm.requests) [
  | none ↦ sm
  | some r ↦ record sm { requests = put pr (f r) sm.requests }
]

-- `close(pr.done)`
unfoldable pub close_done : ℕ → SeqManager → Result SeqManager
close_done pr sm = elim (find pr sm.requests) [
  | none ↦ panic
  | some r ↦
      if r.done
      then panic
      else ok (record sm { requests = put pr (record r { done = true }) sm.requests })
]

-- A send under `select` with `default`: a full channel keeps its value.
abbrev pub try_send {ℓ} : {A : Type ℓ} → A → Option A → Option A
try_send a none = some a
try_send a (some b) = some b

abbrev pub deliver : PacketData → PendingRequest → PendingRequest
deliver response r = record r { response_c = try_send response r.response_c }

abbrev pub fail_with : Error → PendingRequest → PendingRequest
fail_with e r = record r { err_c = try_send e r.err_c }

-- What `Resolve` and `Remove` do under the lock.
unfoldable pub take_request : ℕ → SeqManager → Option ℕ × SeqManager
take_request seq sm = (find seq sm.pending, record sm { pending = erase seq sm.pending })

-- What `Resolve` does after it has left the lock: other calls may have come in between.
unfoldable pub settle : PacketData → Option ℕ → SeqManager → Result (Bool × SeqManager)
unfolding close_done
settle response none sm = ok (false, sm)
settle response (some pr) sm = do
  sm1 ← close_done pr sm
  ok (true, update pr (deliver response) sm1)

-- A `Resolve` in which nothing comes between its two parts.
unfoldable pub resolve : ℕ → PacketData → SeqManager → Result (Bool × SeqManager)
unfolding take_request settle
resolve seq response sm = let taken = take_request seq sm in settle response taken.0 taken.1

unfoldable pub remove : ℕ → SeqManager → Result SeqManager
unfolding take_request close_done
remove seq sm =
    let taken = take_request seq sm in
    elim taken.0 [ none ↦ ok taken.1 | some pr ↦ close_done pr taken.1 ]

unfoldable pub pending_count : SeqManager → ℕ
pending_count sm = length sm.pending

-- The loop of `Close`, in the order in which the map gives its entries.
unfoldable pub close_requests : Map ℕ → SeqManager → Result SeqManager
unfolding close_done
close_requests [] sm = ok sm
close_requests ((seq, pr) ∷ m) sm = do
  sm1 ← close_done pr (record sm { pending = erase seq sm.pending })
  close_requests m (update pr (fail_with conn_closed) sm1)

unfoldable pub close_manager : SeqManager → Result SeqManager
unfolding close_requests
close_manager sm = close_requests sm.pending (record sm { closed = true })

-- The timeout of the attempt after `retry` retransmissions, in nanoseconds: far below 2 ^ 63.
unfoldable pub compute_timeout : ℕ → SeqManager → ℕ
compute_timeout retry sm = sm.retry_timeout * 2 ^ retry

-- Where a timer that fires leaves `retryLoop`: resolved, out of attempts, or to send again.
pub data Expiry : Type 0 where
  settled : Expiry
  exhausted : Expiry
  resend : PacketData → Expiry

-- The section that follows the timer. It asks for the number, not for the request.
unfoldable pub expire : ℕ → ℕ → SeqManager → Expiry × SeqManager
expire seq pr sm =
    if not (has_key seq sm.pending) then (settled, sm) else elim (find pr sm.requests) [
      | none ↦ (settled, sm)
      | some r ↦
          let sm' = record sm {
            requests = put pr (record r { retries = r.retries + 1 }) sm.requests;
          } in
          (if ltb max_retries_count (r.retries + 1) then exhausted else resend r.frame, sm')
    ]

-- The section that takes a failed request out, and the two steps that follow it.
abbrev pub forget : ℕ → SeqManager → SeqManager
forget seq sm = record sm { pending = erase seq sm.pending }

unfoldable pub give_up : ℕ → ℕ → Error → SeqManager → Result SeqManager
unfolding close_done
give_up seq pr e sm = do sm1 ← close_done pr (forget seq sm); ok (update pr (fail_with e) sm1)

-- One round of `retryLoop` whose timer fires: whether it goes on, the frames that it sent, and the
-- manager. `on_retransmit` is the callback, which may be nil, with the error that it returns.
pub record Round : Type 0 where
  pub goes_on : Bool
  pub sent : List PacketData
  pub after : SeqManager

abbrev pub join_rounds : Round → Result Round → Result Round
join_rounds r rest =
    if r.goes_on then (rest >>= (λ r'. ok (record r' { sent = r.sent ++ r'.sent }))) else ok r

module _ (on_retransmit : Option (PacketData → Option Error)) where
  abbrev pub retransmit : PacketData → Option Error × List PacketData
  retransmit frame = elim on_retransmit [
    | none ↦ (none, [])
    | some callback ↦ (callback frame, frame ∷ [])
  ]

  abbrev pub after_retransmit : ℕ → ℕ → Option Error → List PacketData → SeqManager → Result Round
  after_retransmit seq pr none sent sm = ok (record { goes_on = true; sent = sent; after = sm })
  after_retransmit seq pr (some e) sent sm = do
    sm1 ← give_up seq pr e sm
    ok (record { goes_on = false; sent = sent; after = sm1 })

  abbrev pub after_expiry : ℕ → ℕ → Expiry → SeqManager → Result Round
  after_expiry seq pr settled sm = ok (record { goes_on = false; sent = []; after = sm })
  after_expiry seq pr exhausted sm = do
    sm1 ← give_up seq pr max_retries sm
    ok (record { goes_on = false; sent = []; after = sm1 })
  after_expiry seq pr (resend frame) sm =
      let tried = retransmit frame in after_retransmit seq pr tried.0 tried.1 sm

  unfoldable pub retry_round : ℕ → ℕ → SeqManager → Result Round
  unfolding expire give_up
  retry_round seq pr sm = let expiry = expire seq pr sm in after_expiry seq pr expiry.0 expiry.1

  -- The loop of `retryLoop` while nobody resolves the request, on fuel: with none left it goes on.
  unfoldable pub retry_loop : ℕ → ℕ → ℕ → SeqManager → Result Round
  unfolding retry_round
  retry_loop zero seq pr sm = ok (record { goes_on = true; sent = []; after = sm })
  retry_loop (suc fuel) seq pr sm = do
    r ← retry_round seq pr sm
    let rest = retry_loop fuel seq pr r.after
    join_rounds r rest

-- What `WaitForResponse` may return: one choice for each channel that is ready, and none while it
-- waits. `cancelled` is the error of a context that is done.
pub data Waited : Type 0 where
  response : PacketData → Waited
  failure : Error → Waited

abbrev pub choice {ℓ} : {A : Type ℓ} → (A → Waited) → Option A → List Waited
choice f none = []
choice f (some a) = f a ∷ []

unfoldable pub wait_for_response : Option Error → PendingRequest → List Waited
wait_for_response cancelled r =
    choice response r.response_c ++ (choice failure r.err_c ++ choice failure cancelled)
