-- ===== src/Queue/Refinement.antt =====
-- message_queue.go refines a plain map from numbers to channels.
use proto_q.Prelude.{
  ℕ, ◌≡◌, ◌≢◌, refl, ap, sym, ◌∙◌, Bool-cases, Option-cases, inl, inr, false, Option, none, some,
  List, [], ◌∷◌, ◌==◌, ==_iff, if◌then◌else◌, find, erase, find-put_same, find-put_other,
  find-erase_same, find-erase_other, erase-absent, erase-absent,
}
use proto_q.Queue.{
  MessageQueue, PutResult, registered, queue_full, new_message_queue, put_channel, take_channel,
  get,
}

-- The calls of a client: `Put` without a limit, the first half of `Complete` and `CompleteError`,
-- and `Get`.
pub data Call : Type 0 where
  put_call : ℕ → ℕ → Call
  take_call : ℕ → Call
  get_call : ℕ → Call

abbrev pub after_put : PutResult → MessageQueue → MessageQueue
after_put (registered q) old = q
after_put (queue_full n capacity) old = old

-- The channels that the calls hand out, in order.
unfoldable pub run_calls : List Call → MessageQueue → List (Option ℕ)
unfolding put_channel take_channel
run_calls [] q = []
run_calls (put_call seq ch ∷ calls) q = run_calls calls (after_put (put_channel seq ch 0 q) q)
run_calls (take_call seq ∷ calls) q =
    (take_channel seq q).0 ∷ run_calls calls (take_channel seq q).1
run_calls (get_call seq ∷ calls) q = get seq q ∷ run_calls calls q

-- The specification: a queue is a function from numbers to channels.
abbrev pub Spec : Type 0
Spec = ℕ → Option ℕ

abbrev pub spec_set : ℕ → Option ℕ → Spec → Spec
spec_set seq ch m i = if i == seq then ch else m i

unfoldable pub spec_run : List Call → Spec → List (Option ℕ)
spec_run [] m = []
spec_run (put_call seq ch ∷ calls) m = spec_run calls (spec_set seq (some ch) m)
spec_run (take_call seq ∷ calls) m = m seq ∷ spec_run calls (spec_set seq none m)
spec_run (get_call seq ∷ calls) m = m seq ∷ spec_run calls m

abbrev Refines : MessageQueue → Spec → Type 0
Refines q m = (i : ℕ) → find i q.pending ≡ m i

not_same : (i seq : ℕ) → (i == seq) ≡ false → i ≢ seq
not_same i seq other same = absurd (cc (sym ((==_iff i seq).1 same) ∙ other))

put_channel-Refines :
    (seq ch : ℕ) (q : MessageQueue) (m : Spec)
    → Refines q m
    → Refines (after_put (put_channel seq ch 0 q) q) (spec_set seq (some ch) m)
unfolding put_channel
put_channel-Refines seq ch q m h i = elim (Bool-cases (i == seq)) [
  | inl same ↦ rw (same, (==_iff i seq).0 same) (find-put_same seq ch q.pending)
  | inr other ↦ rw other (find-put_other i seq ch q.pending (not_same i seq other) ∙ h i)
]

take_channel-none :
    (seq : ℕ) (q : MessageQueue)
    → ((take_channel seq q).0 ≡ find seq q.pending)
      × ((i : ℕ) → find i (take_channel seq q).1.pending ≡ find i (erase seq q.pending))
unfolding take_channel
take_channel-none seq q = elim (Option-cases (find seq q.pending)) [
  | inl e ↦
      (rw (take_channel, e) refl, λ i. rw (take_channel, e, erase-absent seq q.pending e) refl)
  | inr (ch, e) ↦ (rw (take_channel, e) refl, λ i. rw (take_channel, e) refl)
]

take_channel-Refines :
    (seq : ℕ) (q : MessageQueue) (m : Spec)
    → Refines q m
    → Refines (take_channel seq q).1 (spec_set seq none m)
take_channel-Refines seq q m h i = elim (Bool-cases (i == seq)) [
  | inl same ↦
      (take_channel-none seq q).1 i
      ∙ rw (same, (==_iff i seq).0 same) (find-erase_same seq q.pending)
  | inr other ↦
      (take_channel-none seq q).1 i
      ∙ rw other (find-erase_other i seq q.pending (not_same i seq other) ∙ h i)
]

run_calls-Refines :
    (calls : List Call) (q : MessageQueue) (m : Spec)
    → Refines q m
    → run_calls calls q ≡ spec_run calls m
unfolding run_calls spec_run
run_calls-Refines [] q m h = refl
run_calls-Refines (put_call seq ch ∷ calls) q m h =
    run_calls-Refines calls _ _ (put_channel-Refines seq ch q m h)
run_calls-Refines (take_call seq ∷ calls) q m h =
    let rest = run_calls-Refines calls _ _ (take_channel-Refines seq q m h) in
    let first = (take_channel-none seq q).0 ∙ h seq in
    ap (λ (c : Option ℕ). c ∷ run_calls calls (take_channel seq q).1) first
    ∙ ap (λ (cs : List (Option ℕ)). m seq ∷ cs) rest
run_calls-Refines (get_call seq ∷ calls) q m h =
    ap (λ (c : Option ℕ). c ∷ run_calls calls q) (h seq)
    ∙ ap (λ (cs : List (Option ℕ)). m seq ∷ cs) (run_calls-Refines calls q m h)

-- Of a new queue, any sequence of `Put` without a limit, taking a number out, and `Get` hands out
-- the same channels as of a function from numbers to channels that is nowhere defined at first.
pub run_calls-spec_run :
    (calls : List Call) → run_calls calls new_message_queue ≡ spec_run calls (λ i. none)
unfolding new_message_queue find
run_calls-spec_run calls = run_calls-Refines calls new_message_queue (λ i. none) (λ i. refl)
