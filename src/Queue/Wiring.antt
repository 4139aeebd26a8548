-- ===== src/Queue/Wiring.antt =====
-- The channels of the pending requests of message_queue.go.
use proto_q.Prelude.{
  ℕ, ◌≡◌, ◌≢◌, sym, ap, ◌∙◌, false, none, some, [], inl, inr, Map, find, erase, put, IsMap,
  find-put_same, find-put_other, find-erase-some, erase-IsMap, put-IsMap, ℕ_discrete, ◌⊎◌, ◌<◌,
}
use proto_q.Queue.{Channel, Store}

-- Every pending request has a channel of its own, which is open and has room.
pub record IsWired (m : Map ℕ) (s : Store) : Type 0 where
  pub unique : IsMap m
  pub wired :
      (seq ch : ℕ)
      → find seq m ≡ some ch
      → (c : Channel) × (find ch s ≡ some c) × (c.is_closed ≡ false) × (0 < c.room)
  pub apart : (seq other ch : ℕ) → find seq m ≡ some ch → find other m ≡ some ch → seq ≡ other

pub empty-IsWired : (s : Store) → IsWired [] s
unfolding find IsMap
empty-IsWired s = record {
  unique = tt;
  wired = λ seq ch there. absurd (cc there);
  apart = λ seq other ch there there'. absurd (cc there);
}

pub erase-IsWired : (seq : ℕ) (m : Map ℕ) (s : Store) → IsWired m s → IsWired (erase seq m) s
erase-IsWired seq m s h = record {
  unique = erase-IsMap seq m h.unique;
  wired = λ seq' ch there. h.wired seq' ch (find-erase-some seq' seq ch m there).0;
  apart = λ seq' other ch there there'.
      h.apart seq' other ch (find-erase-some seq' seq ch m there).0
        (find-erase-some other seq ch m there').0;
}

-- Once its number is taken out, no number leads to a channel.
pub erase-unwired :
    (seq ch : ℕ) (m : Map ℕ) (s : Store)
    → IsWired m s
    → find seq m ≡ some ch
    → (other : ℕ) → find other (erase seq m) ≢ some ch
erase-unwired seq ch m s h there other there' =
    let (left, differs) = find-erase-some other seq ch m there' in
    differs (h.apart other seq ch left there)

-- A channel to which no number leads may change.
pub put-IsWired :
    (ch : ℕ) (c : Channel) (m : Map ℕ) (s : Store)
    → IsWired m s
    → ((seq : ℕ) → find seq m ≢ some ch)
    → IsWired m (put ch c s)
put-IsWired ch c m s h free = record {
  unique = h.unique;
  wired = λ seq ch' there.
      let (c', there', is_open, room') = h.wired seq ch' there in
      (
        c',
        find-put_other ch' ch c s (λ same. free seq (there ∙ ap some same)) ∙ there',
        is_open,
        room',
      );
  apart = h.apart;
}

-- A new channel for a number, pending or not.
pub register-IsWired :
    (seq ch : ℕ) (c : Channel) (m : Map ℕ) (s : Store)
    → IsWired m s
    → find ch s ≡ none
    → c.is_closed ≡ false
    → 0 < c.room
    → IsWired (put seq ch m) (put ch c s)
register-IsWired seq ch c m s h fresh is_open room = record {
  unique = put-IsMap seq ch m h.unique;
  wired = λ seq' ch' there. elim (put-cases seq' ch' there) [
    | inl here ↦ (c, rw here.1 (find-put_same ch c s), is_open, room)
    | inr (differs, left) ↦
        let (c', there', open', room') = h.wired seq' ch' left in
        let elsewhere : ch' ≢ ch = λ same. absurd (cc (there', fresh, same)) in
        (c', find-put_other ch' ch c s elsewhere ∙ there', open', room')
  ];
  apart = λ seq' other ch' there there'. elim (put-cases seq' ch' there) [
    | inl here ↦ elim (put-cases other ch' there') [
      | inl here' ↦ here.0 ∙ sym here'.0
      | inr (_, left) ↦ absurd (not_new other ch' left here.1)
    ]
    | inr (_, left) ↦ elim (put-cases other ch' there') [
      | inl here' ↦ absurd (not_new seq' ch' left here'.1)
      | inr (_, left') ↦ h.apart seq' other ch' left left'
    ]
  ];
}
  where
    put-cases :
        (seq' ch' : ℕ)
        → find seq' (put seq ch m) ≡ some ch'
        → ((seq' ≡ seq) × (ch' ≡ ch)) ⊎ ((seq' ≢ seq) × (find seq' m ≡ some ch'))
    put-cases seq' ch' there = elim (ℕ_discrete seq' seq) [
      | yes same ↦ inl (same, cc (there, same, find-put_same seq ch m))
      | no differs ↦ inr (differs, sym (find-put_other seq' seq ch m differs) ∙ there)
    ]

    not_new : (other ch' : ℕ) → find other m ≡ some ch' → ch' ≢ ch
    not_new other ch' left same =
        let (c', there', _, _) = h.wired other ch' left in absurd (cc (there', fresh, same))
