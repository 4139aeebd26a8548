-- ===== src/Seq/Retry.antt =====
-- How a pending request of conn/seq.go ends: by its response, or after the last retransmission.
use proto_q.Prelude.{
  ℕ, zero, suc, ◌+◌, ◌<◌, ◌≡◌, ◌≢◌, refl, ap, ◌∙◌, arith, true, false, Option, none, some, lt→ltb,
  le→ltb, [], ◌∷◌, replicate, find, put, has_key, find-put_same, find-erase_same, find-erase_other,
}
use proto_q.Errors.{Error, max_retries, ok, panic}
use proto_q.Packet.{PacketData}
use proto_q.Seq.{
  SeqManager, PendingRequest, settle, resolve, take_request, close_done, update, deliver, fail_with,
  try_send, forget, give_up, exhausted, resend, expire, retry_round, retry_loop,
}

abbrev pub set_request : ℕ → PendingRequest → SeqManager → SeqManager
set_request pr r sm = record sm { requests = put pr r sm.requests }

pub close_done-open :
    (pr : ℕ) (r : PendingRequest) (sm : SeqManager)
    → find pr sm.requests ≡ some r
    → r.done ≡ false
    → close_done pr sm ≡ ok (set_request pr (record r { done = true }) sm)
unfolding close_done
close_done-open pr r sm there is_open = rw (close_done, there, is_open) refl

pub close_done-closed :
    (pr : ℕ) (r : PendingRequest) (sm : SeqManager)
    → find pr sm.requests ≡ some r
    → r.done ≡ true
    → close_done pr sm ≡ panic
unfolding close_done
close_done-closed pr r sm there is_closed = rw (close_done, there, is_closed) refl

-- One more timer of the request has fired.
abbrev pub counted : ℕ → PendingRequest → SeqManager → SeqManager
counted pr r sm = set_request pr (record r { retries = r.retries + 1 }) sm

-- What becomes of a request that is open: the number `seq` is free, the others are as they were,
-- and the request behind `pr` is `r`.
pub record IsSettled (seq pr : ℕ) (r : PendingRequest) (before sm : SeqManager) : Type 0 where
  pub gone : find seq sm.pending ≡ none
  pub others : (other : ℕ) → other ≢ seq → find other sm.pending ≡ find other before.pending
  pub request : find pr sm.requests ≡ some r

pub resolve-taken :
    (seq pr : ℕ) (response : PacketData) (r : PendingRequest) (sm : SeqManager)
    → find seq sm.pending ≡ some pr
    → find pr sm.requests ≡ some r
    → r.done ≡ false
    → r.response_c ≡ none
    → resolve seq response sm
      ≡ ok (
        true,
        set_request pr
            (record r { done = true; response_c = some response })
            (set_request pr (record r { done = true }) (forget seq sm)),
      )
unfolding resolve settle take_request
resolve-taken seq pr response r sm there request is_open empty =
    let r1 : PendingRequest = record r { done = true } in
    let r2 : PendingRequest = record r { done = true; response_c = some response } in
    let sm1 = set_request pr r1 (forget seq sm) in
    let closed = close_done-open pr r (forget seq sm) request is_open in
    let updated : update pr (deliver response) sm1 ≡ set_request pr r2 sm1 =
      rw (update, find-put_same pr r1 sm.requests, empty) refl in
    rw (resolve, there, closed, updated) refl

-- `Resolve` of the number of a request that is open, and has no response yet, returns true without
-- a panic: the response is in the request's channel, the request is done, and its number alone is
-- no longer pending.
pub resolve-IsSettled :
    (seq pr : ℕ) (response : PacketData) (r : PendingRequest) (sm : SeqManager)
    → find seq sm.pending ≡ some pr
    → find pr sm.requests ≡ some r
    → r.done ≡ false
    → r.response_c ≡ none
    → (sm' : SeqManager) × (resolve seq response sm ≡ ok (true, sm'))
      × IsSettled seq pr (record r { done = true; response_c = some response }) sm sm'
resolve-IsSettled seq pr response r sm there request is_open empty = (
  _,
  resolve-taken seq pr response r sm there request is_open empty,
  record {
    gone = find-erase_same seq sm.pending;
    others = λ other differs. find-erase_other other seq sm.pending differs;
    request = find-put_same pr _ _;
  },
)

pub give_up-taken :
    (seq pr : ℕ) (e : Error) (r : PendingRequest) (sm : SeqManager)
    → find pr sm.requests ≡ some r
    → r.done ≡ false
    → give_up seq pr e sm
      ≡ ok (
          set_request pr
            (record r { done = true; err_c = try_send e r.err_c })
            (set_request pr (record r { done = true }) (forget seq sm)))
unfolding give_up
give_up-taken seq pr e r sm request is_open =
    let r1 : PendingRequest = record r { done = true } in
    let r2 : PendingRequest = record r { done = true; err_c = try_send e r.err_c } in
    let sm1 = set_request pr r1 (forget seq sm) in
    let closed = close_done-open pr r (forget seq sm) request is_open in
    let updated : update pr (fail_with e) sm1 ≡ set_request pr r2 sm1 =
      rw (update, find-put_same pr r1 sm.requests) refl in
    rw (give_up, closed, updated) refl

give_up-IsSettled :
    (seq pr : ℕ) (e : Error) (r : PendingRequest) (sm : SeqManager)
    → find pr sm.requests ≡ some r
    → r.done ≡ false
    → (sm' : SeqManager) × (give_up seq pr e sm ≡ ok sm')
      × IsSettled seq pr (record r { done = true; err_c = try_send e r.err_c }) sm sm'
give_up-IsSettled seq pr e r sm request is_open = (
  _,
  give_up-taken seq pr e r sm request is_open,
  record {
    gone = find-erase_same seq sm.pending;
    others = λ other differs. find-erase_other other seq sm.pending differs;
    request = find-put_same pr _ _;
  },
)

-- A `Resolve` that finds the channel of its request closed when it has left the lock.
settle-closed :
    (pr : ℕ) (response : PacketData) (sm : SeqManager) (r : PendingRequest)
    → find pr sm.requests ≡ some r
    → r.done ≡ true
    → settle response (some pr) sm ≡ panic
unfolding settle
settle-closed pr response sm r there done = rw (settle, close_done-closed pr r sm there done) refl

module _ (seq pr : ℕ) (r : PendingRequest) (sm : SeqManager) (there : find seq sm.pending ≡ some pr)
    (request : find pr sm.requests ≡ some r) where
  is_pending : has_key seq sm.pending ≡ true
  is_pending = rw (has_key, there) refl

  expire-resend : r.retries < 3 → expire seq pr sm ≡ (resend r.frame, counted pr r sm)
  unfolding expire
  expire-resend few = rw (expire, is_pending, request, le→ltb 3 (r.retries + 1) (omega arith)) refl

  expire-exhausted : r.retries ≡ 3 → expire seq pr sm ≡ (exhausted, counted pr r sm)
  unfolding expire
  expire-exhausted all =
      rw (expire, is_pending, request, lt→ltb 3 (r.retries + 1) (omega arith)) refl

  -- A request is pending, open and without a response, and was sent again three times. Its fourth
  -- timer fires, and `Resolve` of its number comes in before `retryLoop`
  -- takes the number out: `Resolve` returns true, and `retryLoop` then closes the request's closed
  -- channel, which panics.
  pub give_up-resolve :
      (response : PacketData)
      → r.retries ≡ 3
      → r.done ≡ false
      → r.response_c ≡ none
      → ((expire seq pr sm).0 ≡ exhausted)
        × (sm' : SeqManager) × (resolve seq response (expire seq pr sm).1 ≡ ok (true, sm'))
        × (give_up seq pr max_retries sm' ≡ panic)
  unfolding give_up
  give_up-resolve response all is_open empty =
      let expired = expire-exhausted all in
      let r1 : PendingRequest = record r { retries = r.retries + 1 } in
      let r2 : PendingRequest = record r1 { done = true; response_c = some response } in
      let (sm', resolved, settled) =
        resolve-IsSettled seq pr response r1 (counted pr r sm) there
          (find-put_same pr r1 sm.requests) is_open empty in
      (ap (λ p. p.0) expired, sm', rw expired resolved, panics sm' r2 settled.request refl)
    where
      panics :
          (sm' : SeqManager) (r' : PendingRequest)
          → find pr sm'.requests ≡ some r'
          → r'.done ≡ true
          → give_up seq pr max_retries sm' ≡ panic
      panics sm' r' there' done' =
          rw (give_up, close_done-closed pr r' (forget seq sm') there' done') refl

  -- A request is pending, open, and was sent again three times. Its fourth timer fires, `Resolve`
  -- of its number takes the request out and leaves the lock, and `retryLoop` gives the request up
  -- before `Resolve` goes on: `retryLoop` returns, and `Resolve` then closes the request's closed
  -- channel, which panics.
  pub give_up-settle :
      (response : PacketData)
      → r.retries ≡ 3
      → r.done ≡ false
      → ((expire seq pr sm).0 ≡ exhausted)
        × ((take_request seq (expire seq pr sm).1).0 ≡ some pr)
        × (sm' : SeqManager) × (give_up seq pr max_retries (take_request seq (expire seq pr sm).1).1
            ≡ ok sm')
        × (settle response (take_request seq (expire seq pr sm).1).0 sm' ≡ panic)
  unfolding take_request
  give_up-settle response all is_open =
      let expired = expire-exhausted all in
      let r1 : PendingRequest = record r { retries = r.retries + 1 } in
      let (sm', gives, settled) =
        give_up-IsSettled seq pr max_retries r1 (forget seq (counted pr r sm))
          (find-put_same pr r1 sm.requests) is_open in
      (
        ap (λ p. p.0) expired,
        rw expired there,
        sm',
        rw expired gives,
        rw (expired, there) (settle-closed pr response sm' _ settled.request refl),
      )

module _ (callback : PacketData → Option Error) (seq pr : ℕ) where
  resend_round :
      (r : PendingRequest) (sm : SeqManager)
      → find seq sm.pending ≡ some pr
      → find pr sm.requests ≡ some r
      → r.retries < 3
      → callback r.frame ≡ none
      → retry_round (some callback) seq pr sm
        ≡ ok (record { goes_on = true; sent = r.frame ∷ []; after = counted pr r sm })
  unfolding retry_round
  resend_round r sm there request few sends =
      rw (retry_round, expire-resend seq pr r sm there request few, sends) refl

  -- A pending, open request that nobody resolves, which was sent again `3 - n` times: where the
  -- callback does not fail, `retryLoop`, with a round for each of them and one more, sends its
  -- frame `n` times, and at the next timer takes the number, and no other, out, closes the
  -- request, and leaves `ErrMaxRetries` in its channel if that is empty.
  pub retry_loop-gives_up :
      (n fuel : ℕ) (r : PendingRequest) (sm : SeqManager)
      → find seq sm.pending ≡ some pr
      → find pr sm.requests ≡ some r
      → n < fuel
      → r.retries + n ≡ 3
      → r.done ≡ false
      → callback r.frame ≡ none
      → (sm' : SeqManager) × (retry_loop (some callback) fuel seq pr sm
          ≡ ok (record { goes_on = false; sent = replicate n r.frame; after = sm' }))
        × IsSettled seq pr
            (record r { retries = 4; done = true; err_c = try_send max_retries r.err_c })
            sm
            sm'
  unfolding retry_loop retry_round
  retry_loop-gives_up n zero r sm there request enough all is_open sends = absurd (omega arith)
  retry_loop-gives_up zero (suc fuel) r sm there request enough all is_open sends =
      let r1 : PendingRequest = record r { retries = r.retries + 1 } in
      let after = counted pr r sm in
      let expired = expire-exhausted seq pr r sm there request (omega (arith, all)) in
      let (sm', gives, settled) =
        give_up-IsSettled seq pr max_retries r1 after (find-put_same pr r1 sm.requests) is_open in
      (
        sm',
        rw (retry_loop, retry_round, expired, gives) refl,
        record {
          gone = settled.gone;
          others = settled.others;
          request =
              settled.request
              ∙ ap
                  (λ (k : ℕ).
                    some
                      (record r { retries = k; done = true; err_c = try_send max_retries r.err_c }))
                  (omega (arith, all));
        },
      )
  retry_loop-gives_up (suc n) (suc fuel) r sm there request enough all is_open sends =
      let r1 : PendingRequest = record r { retries = r.retries + 1 } in
      let after = counted pr r sm in
      let round = resend_round r sm there request (omega (arith, all)) sends in
      let (sm', gives, settled) =
        retry_loop-gives_up n fuel r1 after there (find-put_same pr r1 sm.requests)
          (omega (arith, enough)) (omega (arith, all)) is_open sends in
      (
        sm',
        rw (retry_loop, round, gives) refl,
        record { gone = settled.gone; others = settled.others; request = settled.request },
      )
