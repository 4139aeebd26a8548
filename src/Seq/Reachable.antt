-- ===== src/Seq/Reachable.antt =====
-- What a manager of conn/seq.go may become, in any order of its operations. Others may come in
-- between the section that follows a timer and what `retryLoop` does then; `Resolve` is one step
-- here, although it leaves the lock before it closes the request's channel.
use proto_q.Prelude.{
  ℕ, ◌≡◌, refl, sym, ap, ◌∙◌, subst, Bool, true, false, none, some, [], ◌∷◌, Bool-cases,
  Option-cases, inl, inr, find, IsMap, has_key, find-erase_same,
}
use proto_q.Errors.{Error, conn_closed, ok, panic, ok_injective}
use proto_q.Packet.{PacketData}
use proto_q.Seq.{
  SeqManager, PendingRequest, settle, new_seq_manager, allocate, enqueue, resolve, remove,
  take_request, forget, expire, give_up, close_manager, wait_for_response, failure,
}
use proto_q.Seq.Retry.{
  set_request, close_done-open, close_done-closed, resolve-taken, give_up-taken,
}
use proto_q.Seq.Ownership.{
  IsOwned, new_seq_manager-IsOwned, allocate-IsOwned, enqueue-IsOwned, forget-IsOwned,
  forget-IsFree, set_request-IsOwned, expire-IsOwned, settled_with, settled_with-IsOwned,
}
use proto_q.Seq.Closing.{IsClosed, close_manager-IsClosed}

-- A step that does not panic. A new request has a pointer that no request had; the loop of a
-- request is run with the request's own number.
pub data Step : SeqManager → SeqManager → Type 0 where
  allocates : {sm : SeqManager} → Step sm (allocate sm).1
  enqueues :
      {sm : SeqManager} (pr seq : ℕ) (frame : PacketData)
      → find pr sm.requests ≡ none
      → Step sm (enqueue pr seq frame sm)
  resolves :
      {sm sm' : SeqManager} (seq : ℕ) (response : PacketData) (found : Bool)
      → resolve seq response sm ≡ ok (found, sm')
      → Step sm sm'
  removes : {sm sm' : SeqManager} (seq : ℕ) → remove seq sm ≡ ok sm' → Step sm sm'
  expires :
      {sm : SeqManager} (pr : ℕ) (r : PendingRequest)
      → find pr sm.requests ≡ some r
      → Step sm (expire r.seq pr sm).1
  gives_up :
      {sm sm' : SeqManager} (pr : ℕ) (r : PendingRequest) (e : Error)
      → find pr sm.requests ≡ some r
      → give_up r.seq pr e sm ≡ ok sm'
      → Step sm sm'
  closes : {sm sm' : SeqManager} → close_manager sm ≡ ok sm' → Step sm sm'

pub data Reachable (n : ℕ) : SeqManager → Type 0 where
  start : Reachable n (new_seq_manager n)
  later : {sm sm' : SeqManager} → Reachable n sm → Step sm sm' → Reachable n sm'

-- `Resolve` of a manager whose requests are owned.
pub resolve-IsOwned :
    (seq : ℕ) (response : PacketData) (sm : SeqManager)
    → IsOwned sm
    → (sm' : SeqManager) × (resolve seq response sm ≡ ok (has_key seq sm.pending, sm'))
      × IsOwned sm'
      × (find seq sm'.pending ≡ none)
unfolding resolve settle take_request
resolve-IsOwned seq response sm h = elim (Option-cases (find seq sm.pending)) [
  | inl gone ↦
      let no : has_key seq sm.pending ≡ false = rw (has_key, gone) refl in
      let misses : resolve seq response sm ≡ ok (false, forget seq sm) = rw (resolve, gone) refl in
      (
        forget seq sm,
        misses ∙ ap (λ (b : Bool). ok (b, forget seq sm)) (sym no),
        forget-IsOwned seq sm h,
        find-erase_same seq sm.pending,
      )
  | inr (pr, there) ↦
      let (r, request, waits) = h.owned seq pr there in
      let yes : has_key seq sm.pending ≡ true = rw (has_key, there) refl in
      let r1 : PendingRequest = record r { done = true } in
      let r2 : PendingRequest = record r { done = true; response_c = some response } in
      let sm' = settled_with seq pr r1 r2 sm in
      (
        sm',
        resolve-taken seq pr response r sm there request waits.is_open waits.unanswered
            ∙ ap (λ (b : Bool). ok (b, sm')) (sym yes),
        settled_with-IsOwned seq pr r r1 r2 sm h request waits.numbered,
        find-erase_same seq sm.pending,
      )
]

pub remove-IsOwned :
    (seq : ℕ) (sm : SeqManager)
    → IsOwned sm
    → (sm' : SeqManager) × (remove seq sm ≡ ok sm') × IsOwned sm' × (find seq sm'.pending ≡ none)
unfolding remove take_request
remove-IsOwned seq sm h = elim (Option-cases (find seq sm.pending)) [
  | inl gone ↦ (
    forget seq sm,
    rw (remove, gone) refl,
    forget-IsOwned seq sm h,
    find-erase_same seq sm.pending,
  )
  | inr (pr, there) ↦
      let (r, request, waits) = h.owned seq pr there in
      let closed = close_done-open pr r (forget seq sm) request waits.is_open in
      (
        set_request pr (record r { done = true }) (forget seq sm),
        rw (remove, there, closed) refl,
        set_request-IsOwned pr _ (forget seq sm) (forget-IsOwned seq sm h)
            (forget-IsFree seq pr r sm h request waits.numbered),
        find-erase_same seq sm.pending,
      )
]

give_up-IsOwned :
    (pr : ℕ) (r : PendingRequest) (e : Error) (sm sm' : SeqManager)
    → IsOwned sm
    → find pr sm.requests ≡ some r
    → give_up r.seq pr e sm ≡ ok sm'
    → IsOwned sm'
unfolding give_up
give_up-IsOwned pr r e sm sm' h request gives = elim (Bool-cases r.done) [
  | inl closed ↦
      let fails : give_up r.seq pr e sm ≡ panic =
        rw (give_up, close_done-closed pr r (forget r.seq sm) request closed) refl in
      absurd (cc (gives, fails))
  | inr is_open ↦
      let taken = give_up-taken r.seq pr e r sm request is_open in
      let same = ok_injective (sym taken ∙ gives) in
      subst IsOwned same (settled_with-IsOwned r.seq pr r _ _ sm h request refl)
]

closed-IsOwned : (before sm : SeqManager) → IsClosed before sm → IsOwned sm
unfolding find IsMap
closed-IsOwned before sm closed = record {
  unique = subst IsMap (sym closed.nothing) tt;
  owned = λ seq pr there. absurd (cc (there, ap (find seq) closed.nothing));
}

Step-IsOwned : {sm sm' : SeqManager} → Step sm sm' → IsOwned sm → IsOwned sm'
Step-IsOwned {sm} allocates h = allocate-IsOwned sm h
Step-IsOwned {sm} (enqueues pr seq frame fresh) h = enqueue-IsOwned pr seq frame sm h fresh
Step-IsOwned {sm} (resolves seq response found runs) h =
    let (sm1, runs1, h1, _) = resolve-IsOwned seq response sm h in
    subst IsOwned (ap (λ p. p.1) (ok_injective (sym runs1 ∙ runs))) h1
Step-IsOwned {sm} (removes seq runs) h =
    let (sm1, runs1, h1, _) = remove-IsOwned seq sm h in
    subst IsOwned (ok_injective (sym runs1 ∙ runs)) h1
Step-IsOwned {sm} (expires pr r request) h = expire-IsOwned pr r sm h request
Step-IsOwned {sm} {sm'} (gives_up pr r e request runs) h =
    give_up-IsOwned pr r e sm sm' h request runs
Step-IsOwned {sm} (closes runs) h =
    let (sm1, runs1, closed) = close_manager-IsClosed sm h in
    subst IsOwned (ok_injective (sym runs1 ∙ runs)) (closed-IsOwned _ sm1 closed)

pub Reachable-IsOwned : {n : ℕ} {sm : SeqManager} → Reachable n sm → IsOwned sm
Reachable-IsOwned {n} start = new_seq_manager-IsOwned n
Reachable-IsOwned (later r step) = Step-IsOwned step (Reachable-IsOwned r)

-- In every manager that the operations may reach, `Close` returns without a panic: no number is
-- pending, every call of `WaitForResponse` for a request that was pending, and whose context is
-- not done, returns `ErrConnClosed`, and `Allocate` returns 0.
pub Reachable-close_manager :
    {n : ℕ} {sm : SeqManager}
    → Reachable n sm
    → (sm' : SeqManager) × (close_manager sm ≡ ok sm')
      × Reachable n sm'
      × (sm'.pending ≡ [])
      × ((allocate sm').0 ≡ 0)
      × ((seq pr : ℕ)
          → find seq sm.pending ≡ some pr
          → (r : PendingRequest) × (find pr sm'.requests ≡ some r)
            × (wait_for_response none r ≡ failure conn_closed ∷ []))
unfolding allocate wait_for_response
Reachable-close_manager {sm} r =
    let (sm', runs, closed) = close_manager-IsClosed sm (Reachable-IsOwned r) in
    (
      sm',
      runs,
      later r (closes runs),
      closed.nothing,
      rw (allocate, closed.closed) refl,
      λ seq pr there.
          let c = closed.cancelled seq pr there in
          (c.request, c.there, rw (wait_for_response, c.unanswered, c.failed) refl),
    )
