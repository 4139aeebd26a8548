-- ===== src/Seq/Ownership.antt =====
-- Who owns a pending request of conn/seq.go: while its number is pending, the request behind it is
-- open, and nothing is in its channels.
use proto_q.Prelude.{
  ℕ, ◌≡◌, ◌≢◌, refl, sym, ap, ◌∙◌, subst, ◌+◌, arith, false, none, some, ◌==◌, Bool-cases, inl, inr,
  find, has_key, IsMap, find-put_same, find-put_other, find-erase-some, erase-IsMap, put-IsMap,
}
use proto_q.Packet.{PacketData}
use proto_q.Seq.{
  SeqManager, new_seq_manager, PendingRequest, allocate, enqueue, new_pending_request, expire,
  forget,
}
use proto_q.Seq.Retry.{set_request}

-- The request is open, has the number, and nothing was delivered to it.
pub record IsWaiting (seq : ℕ) (r : PendingRequest) : Type 0 where
  pub numbered : r.seq ≡ seq
  pub is_open : r.done ≡ false
  pub unanswered : r.response_c ≡ none
  pub unfailed : r.err_c ≡ none

pub record IsOwned (sm : SeqManager) : Type 0 where
  pub unique : IsMap sm.pending
  pub owned :
      (seq pr : ℕ)
      → find seq sm.pending ≡ some pr
      → (r : PendingRequest) × (find pr sm.requests ≡ some r) × IsWaiting seq r

-- No number leads to the request.
abbrev pub IsFree : ℕ → SeqManager → Type 0
IsFree pr sm = (seq : ℕ) → find seq sm.pending ≢ some pr

pub forget-IsOwned : (seq : ℕ) (sm : SeqManager) → IsOwned sm → IsOwned (forget seq sm)
forget-IsOwned seq sm h = record {
  unique = erase-IsMap seq sm.pending h.unique;
  owned = λ seq' pr there. h.owned seq' pr (find-erase-some seq' seq pr sm.pending there).0;
}

pub forget-IsFree :
    (seq pr : ℕ) (r : PendingRequest) (sm : SeqManager)
    → IsOwned sm
    → find pr sm.requests ≡ some r
    → r.seq ≡ seq
    → IsFree pr (forget seq sm)
forget-IsFree seq pr r sm h request numbered seq' there =
    let (there', differs) = find-erase-some seq' seq pr sm.pending there in
    let (r', request', waits) = h.owned seq' pr there' in
    differs (sym waits.numbered ∙ cc (request, request') ∙ numbered)

-- A request to which no number leads may change.
pub set_request-IsOwned :
    (pr : ℕ) (r : PendingRequest) (sm : SeqManager)
    → IsOwned sm
    → IsFree pr sm
    → IsOwned (set_request pr r sm)
set_request-IsOwned pr r sm h free = record {
  unique = h.unique;
  owned = λ seq pr' there.
      let (r', request, waits) = h.owned seq pr' there in
      (
        r',
        find-put_other pr' pr r sm.requests (λ same. free seq (there ∙ ap some same)) ∙ request,
        waits,
      );
}

pub new_seq_manager-IsOwned : (n : ℕ) → IsOwned (new_seq_manager n)
unfolding new_seq_manager find IsMap
new_seq_manager-IsOwned n = record { unique = tt; owned = λ seq pr there. absurd (cc there) }

pub allocate-IsOwned : (sm : SeqManager) → IsOwned sm → IsOwned (allocate sm).1
unfolding allocate
allocate-IsOwned sm h = elim (Bool-cases sm.closed) [
  | inl e ↦ rw (allocate, e) (record { unique = h.unique; owned = h.owned })
  | inr e ↦ elim (Bool-cases (has_key sm.next sm.pending)) [
    | inl taken ↦ rw (allocate, e, taken) (record { unique = h.unique; owned = h.owned })
    | inr free ↦ rw (allocate, e, free) (record { unique = h.unique; owned = h.owned })
  ]
]

-- The pointer of a new request is one that no request had.
pub enqueue-IsOwned :
    (pr seq : ℕ) (frame : PacketData) (sm : SeqManager)
    → IsOwned sm
    → find pr sm.requests ≡ none
    → IsOwned (enqueue pr seq frame sm)
unfolding enqueue
enqueue-IsOwned pr seq frame sm h fresh = record {
  unique = put-IsMap seq pr sm.pending h.unique;
  owned = λ seq' pr' there. elim (Bool-cases (seq' == seq)) [
    | inl e ↦
        let same : seq' ≡ seq = ground (arith, e) in
        let here : some pr' ≡ some pr = sym there ∙ rw same (find-put_same seq pr sm.pending) in
        let points : pr' ≡ pr = cc here in
        (
          new_pending_request seq frame,
          rw points (find-put_same pr (new_pending_request seq frame) sm.requests),
          record { numbered = sym same; is_open = refl; unanswered = refl; unfailed = refl },
        )
    | inr e ↦
        let differs : seq' ≢ seq = λ same. absurd (ground (arith, e, same)) in
        let (r, request, waits) =
          h.owned seq' pr' (sym (find-put_other seq' seq pr sm.pending differs) ∙ there) in
        let elsewhere : pr' ≢ pr = λ same. absurd (cc (request, fresh, same)) in
        (
          r,
          find-put_other pr' pr (new_pending_request seq frame) sm.requests elsewhere ∙ request,
          waits,
        )
  ];
}

-- A change of a request under which it waits on.
pub update-IsOwned :
    (pr : ℕ) (r r' : PendingRequest) (sm : SeqManager)
    → IsOwned sm
    → find pr sm.requests ≡ some r
    → ((seq : ℕ) → IsWaiting seq r → IsWaiting seq r')
    → IsOwned (set_request pr r' sm)
update-IsOwned pr r r' sm h request keeps = record {
  unique = h.unique;
  owned = λ seq pr' there.
      let (r1, request1, waits) = h.owned seq pr' there in
      elim (Bool-cases (pr' == pr)) [
        | inl e ↦
            let same : pr' ≡ pr = ground (arith, e) in
            let is_r : r1 ≡ r = cc (request1, request, same) in
            (
              r',
              rw same (find-put_same pr r' sm.requests),
              keeps seq (subst (λ (q : PendingRequest). IsWaiting seq q) is_r waits),
            )
        | inr e ↦
            let differs : pr' ≢ pr = λ same. absurd (ground (arith, e, same)) in
            (r1, find-put_other pr' pr r' sm.requests differs ∙ request1, waits)
      ];
}

pub expire-IsOwned :
    (pr : ℕ) (r : PendingRequest) (sm : SeqManager)
    → IsOwned sm
    → find pr sm.requests ≡ some r
    → IsOwned (expire r.seq pr sm).1
unfolding expire
expire-IsOwned pr r sm h request = elim (Bool-cases (has_key r.seq sm.pending)) [
  | inl e ↦
      rw (expire, e, request)
        (update-IsOwned pr r (record r { retries = r.retries + 1 }) sm h request
          (λ seq waits. record {
            numbered = waits.numbered;
            is_open = waits.is_open;
            unanswered = waits.unanswered;
            unfailed = waits.unfailed;
          }))
  | inr e ↦ rw (expire, e) h
]

-- The number is taken out, and then the request behind it changes twice.
abbrev pub settled_with : ℕ → ℕ → PendingRequest → PendingRequest → SeqManager → SeqManager
settled_with seq pr r1 r2 sm = set_request pr r2 (set_request pr r1 (forget seq sm))

pub settled_with-IsOwned :
    (seq pr : ℕ) (r r1 r2 : PendingRequest) (sm : SeqManager)
    → IsOwned sm
    → find pr sm.requests ≡ some r
    → r.seq ≡ seq
    → IsOwned (settled_with seq pr r1 r2 sm)
settled_with-IsOwned seq pr r r1 r2 sm h request numbered =
    let free = forget-IsFree seq pr r sm h request numbered in
    let once = set_request-IsOwned pr r1 (forget seq sm) (forget-IsOwned seq sm h) free in
    set_request-IsOwned pr r2 (set_request pr r1 (forget seq sm)) once free
