-- ===== src/Seq/Steady.antt =====
-- The operations of conn/seq.go that leave the next number and the field's length alone.
use proto_q.Prelude.{
  ℕ, zero, ◌≤◌, ◌≡◌, inl, inr, refl, sym, ◌∙◌, arith, subst, Bool, Bool-cases, true, false,
  Option-cases, [], ◌∷◌, Map, find, erase, has_key, if◌then◌else◌,
}
use proto_q.Errors.{Error, conn_closed, Result, ok, err, panic, ◌>>=◌}
use proto_q.Packet.{PacketData}
use proto_q.Seq.Numbers.{IsReady, allocate-IsReady}
use proto_q.Seq.{
  SeqManager, PendingRequest, allocate, update, close_done, take_request, deliver, fail_with,
  resolve, settle, remove, expire, forget, give_up, close_requests, close_manager,
}

-- Whatever a call returns without an error or a panic has the property.
abbrev pub Always : {A : Type 0} → (A → Type 0) → Result A → Type 0
Always P (ok a) = P a
Always P (err e) = zero ≤ zero
Always P panic = zero ≤ zero

pub Always-bind :
    {A B : Type 0} (P : A → Type 0) (Q : B → Type 0) (r : Result A) (f : A → Result B)
    → Always P r
    → ((a : A) → P a → Always Q (f a))
    → Always Q (r >>= f)
Always-bind P Q (ok a) f h next = next a h
Always-bind P Q (err e) f h next = omega arith
Always-bind P Q panic f h next = omega arith

pub Always-if :
    {A : Type 0} (P : A → Type 0) (b : Bool) (r r' : Result A)
    → Always P r
    → Always P r'
    → Always P (if b then r else r')
Always-if P true r r' h h' = h
Always-if P false r r' h h' = h'

pub Always-map :
    {A : Type 0} (P Q : A → Type 0) (r : Result A) → Always P r → ((a : A) → P a → Q a) → Always Q r
Always-map P Q (ok a) h f = f a h
Always-map P Q (err e) h f = omega arith
Always-map P Q panic h f = omega arith

pub Always-any : {A : Type 0} (P : A → Type 0) (r : Result A) → ((a : A) → P a) → Always P r
Always-any P (ok a) f = f a
Always-any P (err e) f = omega arith
Always-any P panic f = omega arith

pub Always-ok : {A : Type 0} (P : A → Type 0) (r : Result A) (a : A) → Always P r → r ≡ ok a → P a
Always-ok P r a h e = subst (λ (t : Result _). Always P t) e h

-- The next number and the field's length are as they were.
abbrev pub Same : SeqManager → SeqManager → Type 0
Same sm sm' = (sm'.next ≡ sm.next) × (sm'.seq_len ≡ sm.seq_len)

update-Same :
    (pr : ℕ) (f : PendingRequest → PendingRequest) (sm : SeqManager) → Same sm (update pr f sm)
update-Same pr f sm = elim (Option-cases (find pr sm.requests)) [
  | inl e ↦ rw (update, e) (refl, refl)
  | inr (r, e) ↦ rw (update, e) (refl, refl)
]

close_done-Same : (pr : ℕ) (sm : SeqManager) → Always (Same sm) (close_done pr sm)
unfolding close_done
close_done-Same pr sm = elim (Option-cases (find pr sm.requests)) [
  | inl e ↦ rw (close_done, e) (omega arith)
  | inr (r, e) ↦ rw (close_done, e) (Always-if (Same sm) r.done panic _ (omega arith) (refl, refl))
]

-- A manager that is ready, with the field's length of another.
abbrev pub Kept : SeqManager → SeqManager → Type 0
Kept sm sm' = IsReady sm' × (sm'.seq_len ≡ sm.seq_len)

pub Same-IsReady : (sm sm' : SeqManager) → Same sm sm' → IsReady sm → IsReady sm'
Same-IsReady sm sm' h r = record { positive = rw h.0 r.positive; fits = rw (h.0, h.1) r.fits }

allocate-seq_len : (sm : SeqManager) → (allocate sm).1.seq_len ≡ sm.seq_len
unfolding allocate
allocate-seq_len sm = elim (Bool-cases sm.closed) [
  | inl closed ↦ rw (allocate, closed) refl
  | inr is_open ↦ elim (Bool-cases (has_key sm.next sm.pending)) [
    | inl taken ↦ rw (allocate, is_open, taken) refl
    | inr free ↦ rw (allocate, is_open, free) refl
  ]
]

-- A later change that keeps both keeps them of the first manager too.
Same-trans : (a b c : SeqManager) → Same a b → Same b c → Same a c
Same-trans a b c h h' = (h'.0 ∙ h.0, h'.1 ∙ h.1)

pub resolve-Same :
    (seq : ℕ) (response : PacketData) (sm : SeqManager)
    → Always (λ (r : Bool × SeqManager). Same sm r.1) (resolve seq response sm)
unfolding resolve settle take_request
resolve-Same seq response sm = elim (Option-cases (find seq sm.pending)) [
  | inl e ↦ rw (resolve, e) (refl, refl)
  | inr (pr, e) ↦
      rw (resolve, e)
        (Always-bind (Same sm) _ (close_done pr (take_request seq sm).1) _
          (close_done-Same pr (take_request seq sm).1)
          (λ sm1 h.
            Same-trans sm sm1 (update pr (deliver response) sm1) h
              (update-Same pr (deliver response) sm1)))
]

pub remove-Same : (seq : ℕ) (sm : SeqManager) → Always (Same sm) (remove seq sm)
unfolding remove take_request
remove-Same seq sm = elim (Option-cases (find seq sm.pending)) [
  | inl e ↦ rw (remove, e) (refl, refl)
  | inr (pr, e) ↦ rw (remove, e) (close_done-Same pr (take_request seq sm).1)
]

pub expire-Same : (seq pr : ℕ) (sm : SeqManager) → Same sm (expire seq pr sm).1
unfolding expire
expire-Same seq pr sm = elim (Bool-cases (has_key seq sm.pending)) [
  | inl waits ↦ elim (Option-cases (find pr sm.requests)) [
    | inl e ↦ rw (expire, waits, e) (refl, refl)
    | inr (r, e) ↦ rw (expire, waits, e) (refl, refl)
  ]
  | inr gone ↦ rw (expire, gone) (refl, refl)
]

pub give_up-Same :
    (seq pr : ℕ) (e : Error) (sm : SeqManager) → Always (Same sm) (give_up seq pr e sm)
unfolding give_up
give_up-Same seq pr e sm =
    Always-bind (Same sm) (Same sm) (close_done pr (forget seq sm)) _
      (close_done-Same pr (forget seq sm))
      (λ sm1 h.
        Same-trans sm sm1 (update pr (fail_with e) sm1) h (update-Same pr (fail_with e) sm1))

close_requests-Same : (m : Map ℕ) (sm : SeqManager) → Always (Same sm) (close_requests m sm)
unfolding close_requests
close_requests-Same [] sm = (refl, refl)
close_requests-Same ((seq, pr) ∷ m) sm =
    let first : SeqManager = record sm { pending = erase seq sm.pending } in
    Always-bind (Same sm) (Same sm) (close_done pr first) _ (close_done-Same pr first) (λ sm1 h.
      let failed = update pr (fail_with conn_closed) sm1 in
      Always-map (Same failed) (Same sm) (close_requests m failed) (close_requests-Same m failed)
        (λ sm2 h2.
          Same-trans sm failed sm2
            (Same-trans sm sm1 failed h (update-Same pr (fail_with conn_closed) sm1)) h2))

pub close_manager-Same : (sm : SeqManager) → Always (Same sm) (close_manager sm)
unfolding close_manager
close_manager-Same sm = close_requests-Same sm.pending (record sm { closed = true })

ready_closed : (sm : SeqManager) → IsReady sm → (a : ℕ × SeqManager) → a ≡ (0, sm) → Kept sm a.1
ready_closed sm h a e = subst (λ (b : ℕ × SeqManager). Kept sm b.1) (sym e) (h, refl)

-- `Allocate` leaves the manager ready, and its field's length alone.
pub allocate-Kept : (sm : SeqManager) → IsReady sm → Kept sm (allocate sm).1
allocate-Kept sm h =
    let cases = allocate-IsReady sm h in
    elim (Bool-cases sm.closed) [
      | inl closed ↦ ready_closed sm h (allocate sm) (cases.0 closed)
      | inr is_open ↦ ((cases.1 is_open).2, allocate-seq_len sm)
    ]
