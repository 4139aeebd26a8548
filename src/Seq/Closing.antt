-- ===== src/Seq/Closing.antt =====
-- What `Close` of conn/seq.go does to every pending request.
use proto_q.Prelude.{
  ℕ, ◌≡◌, ◌≢◌, refl, sym, ap, ◌∙◌, subst, arith, true, none, some, [], ◌∷◌, ◌==◌, Bool-cases, inl,
  inr, Map, find, erase, IsMap, find-put_same, find-put_other, find-erase_other, find-erase-some,
  erase-absent,
}
use proto_q.Errors.{conn_closed, ok}
use proto_q.Seq.{
  SeqManager, PendingRequest, update, fail_with, forget, close_requests, close_manager,
}
use proto_q.Seq.Retry.{set_request, close_done-open}
use proto_q.Seq.Ownership.{
  IsOwned, IsWaiting, IsFree, settled_with, settled_with-IsOwned, forget-IsFree,
}

-- The request was cancelled: closed, with `ErrConnClosed` and nothing else in its channels.
pub record IsCancelled (pr : ℕ) (sm : SeqManager) : Type 0 where
  pub request : PendingRequest
  pub there : find pr sm.requests ≡ some request
  pub is_done : request.done ≡ true
  pub unanswered : request.response_c ≡ none
  pub failed : request.err_c ≡ some conn_closed

-- The manager after `Close`: no number is pending, each request that had one is cancelled, and the
-- others are as they were.
pub record IsClosed (before sm : SeqManager) : Type 0 where
  pub closed : sm.closed ≡ before.closed
  pub nothing : sm.pending ≡ []
  pub cancelled : (seq pr : ℕ) → find seq before.pending ≡ some pr → IsCancelled pr sm
  pub others : (pr : ℕ) → IsFree pr before → find pr sm.requests ≡ find pr before.requests

close_one :
    (seq pr : ℕ) (r : PendingRequest) (m : Map ℕ) (sm : SeqManager)
    → find pr sm.requests ≡ some r
    → IsWaiting seq r
    → close_requests ((seq, pr) ∷ m) sm
      ≡ close_requests m (
          settled_with seq pr
            (record r { done = true })
            (record r { done = true; err_c = some conn_closed })
            sm)
unfolding close_requests
close_one seq pr r m sm request waits =
    let r1 : PendingRequest = record r { done = true } in
    let r2 : PendingRequest = record r { done = true; err_c = some conn_closed } in
    let sm1 = set_request pr r1 (forget seq sm) in
    let closed = close_done-open pr r (forget seq sm) request waits.is_open in
    let updated : update pr (fail_with conn_closed) sm1 ≡ set_request pr r2 sm1 =
      rw (update, find-put_same pr r1 sm.requests, waits.unfailed) refl in
    rw (closed, updated) refl

pub close_requests-IsClosed :
    (m : Map ℕ) (sm : SeqManager)
    → sm.pending ≡ m
    → IsOwned sm
    → (sm' : SeqManager) × (close_requests m sm ≡ ok sm') × IsClosed sm sm'
unfolding close_requests find IsMap erase
close_requests-IsClosed [] sm e h = (
  sm,
  refl,
  record {
    closed = refl;
    nothing = e;
    cancelled = λ seq pr there. absurd (cc (there, ap (find seq) e));
    others = λ pr free. refl;
  },
)
close_requests-IsClosed ((seq, pr) ∷ m) sm e h =
    let same : (seq == seq) ≡ true = ground arith in
    let first : find seq ((seq, pr) ∷ m) ≡ some pr = rw same refl in
    let here : find seq sm.pending ≡ some pr = ap (find seq) e ∙ first in
    let absent : find seq m ≡ none = (subst IsMap e h.unique).0 in
    let rest : erase seq ((seq, pr) ∷ m) ≡ m = rw same (erase-absent seq m absent) in
    let (r, request, waits) = h.owned seq pr here in
    let r1 : PendingRequest = record r { done = true } in
    let r2 : PendingRequest = record r { done = true; err_c = some conn_closed } in
    let sm1 = settled_with seq pr r1 r2 sm in
    let (sm', runs, closed) =
      close_requests-IsClosed m sm1 (ap (erase seq) e ∙ rest)
        (settled_with-IsOwned seq pr r r1 r2 sm h request waits.numbered) in
    let free = forget-IsFree seq pr r sm h request waits.numbered in
    (
      sm',
      close_one seq pr r m sm request waits ∙ runs,
      record {
        closed = closed.closed;
        nothing = closed.nothing;
        cancelled = λ seq' pr' there. elim (Bool-cases (seq' == seq)) [
          | inl t ↦
              let is_seq : seq' ≡ seq = ground (arith, t) in
              let is_pr : pr ≡ pr' = cc (here, there, is_seq) in
              subst (λ (q : ℕ). IsCancelled q sm') is_pr
                (record {
                  request = r2;
                  there = closed.others pr free ∙ find-put_same pr r2 _;
                  is_done = refl;
                  unanswered = waits.unanswered;
                  failed = refl;
                })
          | inr f ↦
              let differs : seq' ≢ seq = λ is_seq. absurd (ground (arith, f, is_seq)) in
              closed.cancelled seq' pr' (find-erase_other seq' seq sm.pending differs ∙ there)
        ];
        others = λ pr' free'.
            let differs : pr' ≢ pr = λ is_pr. free' seq (here ∙ ap some (sym is_pr)) in
            closed.others pr'
              (λ seq' there. free' seq' (find-erase-some seq' seq pr' sm.pending there).0)
            ∙ (find-put_other pr' pr r2 _ differs ∙ find-put_other pr' pr r1 _ differs);
      },
    )

pub close_manager-IsClosed :
    (sm : SeqManager)
    → IsOwned sm
    → (sm' : SeqManager) × (close_manager sm ≡ ok sm') × IsClosed (record sm { closed = true }) sm'
unfolding close_manager
close_manager-IsClosed sm h =
    close_requests-IsClosed sm.pending (record sm { closed = true }) refl
      (record { unique = h.unique; owned = h.owned })
