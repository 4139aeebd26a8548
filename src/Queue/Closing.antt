-- ===== src/Queue/Closing.antt =====
-- What `Complete`, `CompleteError` and `Clear` of message_queue.go do to the channels.
use proto_q.Prelude.{
  ℕ, ◌≡◌, ◌≢◌, refl, sym, ap, ◌∙◌, subst, arith, true, none, some, [], ◌∷◌, ◌==◌, Option-cases, inl,
  inr, Map, find, erase, put, IsMap, find-put_same, find-put_other, find-erase_same,
  find-erase_other, find-erase-some, erase-absent, ℕ_discrete, lt→ltb, ◌-◌,
}
use proto_q.Errors.{Result, ok}
use proto_q.Packet.{PacketData}
use proto_q.Queue.{
  MessageQueue, new_message_queue, Channel, Store, send, close, take_channel, with_channel,
  complete, complete_error, close_all, clear,
}
use proto_q.Queue.Wiring.{IsWired, erase-IsWired, erase-unwired, put-IsWired}

-- What `Complete` and `CompleteError` leave: their own number is not pending.
pub record IsCompleted (seq : ℕ) (q : MessageQueue) (s : Store) : Type 0 where
  pub wired : IsWired q.pending s
  pub gone : find seq q.pending ≡ none

module _ (seq : ℕ) (q : MessageQueue) (s : Store) (h : IsWired q.pending s) where
  taken-missing :
      find seq q.pending ≡ none
      → (act : ℕ → Channel → Store → Result Store)
      → with_channel (take_channel seq q).0 act s ≡ ok s
  unfolding take_channel
  taken-missing absent act = rw (take_channel, absent) refl

  missing-IsCompleted : find seq q.pending ≡ none → IsCompleted seq (take_channel seq q).1 s
  unfolding take_channel
  missing-IsCompleted absent = rw (take_channel, absent) (record { wired = h; gone = absent })

  taken-IsCompleted :
      (ch : ℕ) (c : Channel)
      → find seq q.pending ≡ some ch
      → IsCompleted seq (take_channel seq q).1 (put ch c s)
  unfolding take_channel
  taken-IsCompleted ch c there =
      rw (take_channel, there)
        (record {
          wired =
              put-IsWired ch c (erase seq q.pending) s (erase-IsWired seq q.pending s h)
                (erase-unwired seq ch q.pending s h there);
          gone = find-erase_same seq q.pending;
        })

  -- `Complete` does not panic; nor does it touch the queue where the number is not pending.
  pub complete-IsCompleted :
      (frame : PacketData)
      → (q' : MessageQueue) × (s' : Store) × (complete seq frame q s ≡ ok (q', s'))
        × IsCompleted seq q' s'
  unfolding complete send
  complete-IsCompleted frame = elim (Option-cases (find seq q.pending)) [
    | inl absent ↦ (
      (take_channel seq q).1,
      s,
      rw (complete, taken-missing absent (send frame)) refl,
      missing-IsCompleted absent,
    )
    | inr (ch, there) ↦
        let (c, channel, is_open, room) = h.wired seq ch there in
        let s' = put ch (record c { sent = frame ∷ c.sent; room = c.room - 1 }) s in
        let sent : with_channel (take_channel seq q).0 (send frame) s ≡ ok s' =
          rw (take_channel, there, with_channel, channel, send, is_open, lt→ltb 0 c.room room)
            refl in
        (
          (take_channel seq q).1,
          s',
          rw (complete, sent) refl,
          taken-IsCompleted ch (record c { sent = frame ∷ c.sent; room = c.room - 1 }) there,
        )
  ]

  pub complete_error-IsCompleted :
      (q' : MessageQueue) × (s' : Store) × (complete_error seq q s ≡ ok (q', s'))
      × IsCompleted seq q' s'
  unfolding complete_error close
  complete_error-IsCompleted = elim (Option-cases (find seq q.pending)) [
    | inl absent ↦ (
      (take_channel seq q).1,
      s,
      rw (complete_error, taken-missing absent close) refl,
      missing-IsCompleted absent,
    )
    | inr (ch, there) ↦
        let (c, channel, is_open, _) = h.wired seq ch there in
        let s' = put ch (record c { is_closed = true }) s in
        let closed : with_channel (take_channel seq q).0 close s ≡ ok s' =
          rw (take_channel, there, with_channel, channel, close, is_open) refl in
        (
          (take_channel seq q).1,
          s',
          rw (complete_error, closed) refl,
          taken-IsCompleted ch (record c { is_closed = true }) there,
        )
  ]

-- Every channel of a pending request is closed, with what was sent on it, and the others are as
-- they were.
pub record IsCleared (m : Map ℕ) (s s' : Store) : Type 0 where
  pub closed :
      (seq ch : ℕ)
      → find seq m ≡ some ch
      → (c : Channel) × (find ch s ≡ some c) × (find ch s' ≡ some (record c { is_closed = true }))
  pub others : (ch : ℕ) → ((seq : ℕ) → find seq m ≢ some ch) → find ch s' ≡ find ch s

pub close_all-IsCleared :
    (m : Map ℕ) (s : Store)
    → IsWired m s
    → (s' : Store) × (close_all m s ≡ ok s') × IsCleared m s s'
unfolding close_all close find erase IsMap
close_all-IsCleared [] s h =
    (s, refl, record { closed = λ seq ch there. absurd (cc there); others = λ ch free. refl })
close_all-IsCleared ((seq, ch) ∷ m) s h =
    let same : (seq == seq) ≡ true = ground arith in
    let here : find seq ((seq, ch) ∷ m) ≡ some ch = rw same refl in
    let rest : erase seq ((seq, ch) ∷ m) ≡ m = rw same (erase-absent seq m h.unique.0) in
    let (c, channel, is_open, _) = h.wired seq ch here in
    let c1 : Channel = record c { is_closed = true } in
    let tail = subst (λ (t : Map ℕ). IsWired t s) rest (erase-IsWired seq ((seq, ch) ∷ m) s h) in
    let free : (other : ℕ) → find other m ≢ some ch =
      subst (λ (t : Map ℕ). (other : ℕ) → find other t ≢ some ch) rest
        (erase-unwired seq ch ((seq, ch) ∷ m) s h here) in
    let (s', runs, cleared) =
      close_all-IsCleared m (put ch c1 s) (put-IsWired ch c1 m s tail free) in
    (
      s',
      rw (channel, is_open) runs,
      record {
        closed = λ seq' ch' there. elim (ℕ_discrete seq' seq) [
          | yes e ↦
              let is_ch : ch' ≡ ch = cc (here, there, e) in
              (c, rw is_ch channel, rw is_ch (cleared.others ch free ∙ find-put_same ch c1 s))
          | no differs ↦
              let later : find seq' m ≡ some ch' =
                ap (find seq') (sym rest)
                ∙ (find-erase_other seq' seq ((seq, ch) ∷ m) differs ∙ there) in
              let (c', there', closes) = cleared.closed seq' ch' later in
              let elsewhere : ch' ≢ ch = λ e. free seq' (later ∙ ap some e) in
              (c', sym (find-put_other ch' ch c1 s elsewhere) ∙ there', closes)
        ];
        others = λ ch' free'.
            let elsewhere : ch' ≢ ch = λ e. free' seq (here ∙ ap some (sym e)) in
            cleared.others ch' (λ seq' there.
              free' seq'
                (find-erase-some seq' seq ch' ((seq, ch) ∷ m) (ap (find seq') rest ∙ there)).0)
            ∙ find-put_other ch' ch c1 s elsewhere;
      },
    )

pub clear-IsCleared :
    (q : MessageQueue) (s : Store)
    → IsWired q.pending s
    → (s' : Store) × (clear q s ≡ ok (new_message_queue, s')) × IsCleared q.pending s s'
unfolding clear new_message_queue
clear-IsCleared q s h =
    let (s', runs, cleared) = close_all-IsCleared q.pending s h in
    (s', rw (clear, runs) refl, cleared)
