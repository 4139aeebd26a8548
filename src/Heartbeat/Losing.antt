-- ===== src/Heartbeat/Losing.antt =====
-- When `StartHeartbeat` of basic/message/client.go gives a connection up.
use proto_q.Prelude.{
  ℕ, suc, ◌+◌, ◌≤◌, ◌<◌, ◌≡◌, ◌≢◌, ◌⊎◌, inl, inr, refl, ap, sym, ◌∙◌, arith, Bool-cases, true,
  false, none, some, List, [], ◌∷◌, ◌++◌, length, All, leb, leb→le, leb→lt, subst,
}
use proto_q.Heartbeat.{
  HeartbeatLoopConfig, HeartbeatEvent, tick, tick_stopped, stop_called, beating, stopped,
  called_on_lost, closed_client, lost, beat, after_beat, then_stopped, run_heartbeat,
  start_heartbeat,
}

-- A heartbeat whose `SendRequest` failed.
abbrev pub IsMiss : HeartbeatEvent → Type 0
IsMiss (tick answered) = answered ≡ false
IsMiss (tick_stopped answered) = answered ≡ false
IsMiss stop_called = 1 ≤ 0

-- So many misses in a row begin the events.
pub record BeginsMissing (events : List HeartbeatEvent) (count : ℕ) : Type 0 where
  pub misses : List HeartbeatEvent
  pub after : List HeartbeatEvent
  pub parts : events ≡ misses ++ after
  pub all : All IsMiss misses
  pub many : length misses ≡ count

-- So many misses in a row are among the events.
pub record HasMissing (events : List HeartbeatEvent) (count : ℕ) : Type 0 where
  pub before : List HeartbeatEvent
  pub later : List HeartbeatEvent
  pub parts : events ≡ before ++ later
  pub begins : BeginsMissing later count

BeginsMissing-HasMissing :
    (events : List HeartbeatEvent) (count : ℕ)
    → BeginsMissing events count
    → HasMissing events count
BeginsMissing-HasMissing events count b = record {
  before = [];
  later = events;
  parts = refl;
  begins = b;
}

-- One event more in front.
HasMissing-later :
    (event : HeartbeatEvent) (events : List HeartbeatEvent) (count : ℕ)
    → HasMissing events count
    → HasMissing (event ∷ events) count
HasMissing-later event events count h = record {
  before = event ∷ h.before;
  later = h.later;
  parts = ap (λ t. event ∷ t) h.parts;
  begins = h.begins;
}

BeginsMissing-more :
    (event : HeartbeatEvent) (events : List HeartbeatEvent) (count : ℕ)
    → IsMiss event
    → BeginsMissing events count
    → BeginsMissing (event ∷ events) (suc count)
BeginsMissing-more event events count miss b = record {
  misses = event ∷ b.misses;
  after = b.after;
  parts = ap (λ t. event ∷ t) b.parts;
  all = (miss, b.all);
  many = ap suc b.many;
}

BeginsMissing-one :
    (event : HeartbeatEvent) (events : List HeartbeatEvent)
    → IsMiss event
    → BeginsMissing (event ∷ events) 1
BeginsMissing-one event events miss = record {
  misses = event ∷ [];
  after = events;
  parts = refl;
  all = (miss, tt);
  many = refl;
}

module _ (cfg : HeartbeatLoopConfig) where
  stopped-final : (events : List HeartbeatEvent) → run_heartbeat cfg events stopped ≡ stopped
  unfolding run_heartbeat
  stopped-final [] = refl
  stopped-final (tick answered ∷ events) = stopped-final events
  stopped-final (tick_stopped answered ∷ events) = stopped-final events
  stopped-final (stop_called ∷ events) = stopped-final events

  stopped-lost : stopped ≢ lost cfg
  stopped-lost e = elim (Bool-cases cfg.on_lost) [
    | inl t ↦ let bad : stopped ≡ called_on_lost = e ∙ rw t refl in absurd (cc bad)
    | inr f ↦ let bad : stopped ≡ closed_client = e ∙ rw f refl in absurd (cc bad)
  ]

  beating-lost : (k : ℕ) → beating k ≢ lost cfg
  beating-lost k e = elim (Bool-cases cfg.on_lost) [
    | inl t ↦ let bad : beating k ≡ called_on_lost = e ∙ rw t refl in absurd (cc bad)
    | inr f ↦ let bad : beating k ≡ closed_client = e ∙ rw f refl in absurd (cc bad)
  ]

  not_lost :
      (k : ℕ)
      → leb cfg.max_missed (k + 1) ≡ false
      → after_beat cfg (beat cfg.max_missed false k) ≡ beating (k + 1)
  unfolding beat
  not_lost k few = rw (beat, few) refl

  begun :
      (events : List HeartbeatEvent) (n : ℕ)
      → n + 0 ≡ cfg.max_missed
      → BeginsMissing events n
      → HasMissing events cfg.max_missed
  begun events n enough begins =
      let same : n ≡ cfg.max_missed = omega (arith, enough) in
      BeginsMissing-HasMissing events cfg.max_missed (subst (BeginsMissing events) same begins)

  -- What a loop with `k` misses so far needs to give up.
  missing :
      (events : List HeartbeatEvent) (k : ℕ)
      → k < cfg.max_missed
      → run_heartbeat cfg events (beating k) ≡ lost cfg
      → ((n : ℕ) × (n + k ≡ cfg.max_missed) × BeginsMissing events n)
        ⊎ HasMissing events cfg.max_missed
  unfolding run_heartbeat
  missing [] k few gives_up = absurd (beating-lost k gives_up)
  missing (stop_called ∷ events) k few gives_up =
      absurd (stopped-lost (sym (stopped-final events) ∙ gives_up))
  missing (tick true ∷ events) k few gives_up =
      elim (missing events 0 (omega (arith, few)) gives_up) [
        | inl (n, enough, begins) ↦
            inr (HasMissing-later (tick true) events _ (begun events n enough begins))
        | inr has ↦ inr (HasMissing-later (tick true) events _ has)
      ]
  missing (tick false ∷ events) k few gives_up = elim (Bool-cases (leb cfg.max_missed (k + 1))) [
    | inl all ↦ inl (
      1,
      omega (arith, few, leb→le cfg.max_missed (k + 1) all),
      BeginsMissing-one (tick false) events refl,
    )
    | inr more ↦
        let goes_on = ap (run_heartbeat cfg events) (not_lost k more) in
        elim (missing events (k + 1) (leb→lt cfg.max_missed (k + 1) more)
          (sym goes_on ∙ gives_up)) [
            | inl (n, enough, begins) ↦
                inl (
                  suc n,
                  omega (arith, enough),
                  BeginsMissing-more (tick false) events n refl begins,
                )
            | inr has ↦ inr (HasMissing-later (tick false) events _ has)
          ]
  ]
  missing (tick_stopped true ∷ events) k few gives_up =
      absurd (stopped-lost (sym (stopped-final events) ∙ gives_up))
  missing (tick_stopped false ∷ events) k few gives_up =
      elim (Bool-cases (leb cfg.max_missed (k + 1))) [
        | inl all ↦ inl (
          1,
          omega (arith, few, leb→le cfg.max_missed (k + 1) all),
          BeginsMissing-one (tick_stopped false) events refl,
        )
        | inr more ↦
            let goes_on = ap (λ l. run_heartbeat cfg events (then_stopped l)) (not_lost k more) in
            absurd (stopped-lost (sym (stopped-final events) ∙ (sym goes_on ∙ gives_up)))
      ]

  -- The loop of `StartHeartbeat`, with a positive limit of the misses, whatever the ticks, the
  -- outcomes of the heartbeats and the calls of the function that stops it: where it calls `OnLost`
  -- or closes the client, as many heartbeats as the limit failed, one directly after the other.
  pub start_heartbeat-HasMissing :
      (events : List HeartbeatEvent)
      → 0 < cfg.max_missed
      → start_heartbeat (some cfg) events ≡ lost cfg
      → HasMissing events cfg.max_missed
  unfolding start_heartbeat
  start_heartbeat-HasMissing events positive gives_up = elim (missing events 0 positive gives_up) [
    | inl (n, enough, begins) ↦ begun events n enough begins
    | inr has ↦ has
  ]

  -- The function that `StartHeartbeat` returned is called while the heartbeat waits that would be
  -- the last miss allowed: where that heartbeat fails, as it may since its context is cancelled, the
  -- loop still gives the connection up.
  pub stopping-lost :
      (k : ℕ)
      → cfg.max_missed ≡ k + 1
      → run_heartbeat cfg (tick_stopped false ∷ []) (beating k) ≡ lost cfg
  unfolding run_heartbeat beat
  stopping-lost k last =
      let all : leb cfg.max_missed (k + 1) ≡ true = ground (arith, last) in
      let gone : beat cfg.max_missed false k ≡ none = rw (beat, all) refl in
      ap (λ o. then_stopped (after_beat cfg o)) gone ∙ lost-final
    where
      lost-final : then_stopped (lost cfg) ≡ lost cfg
      lost-final = elim (Bool-cases cfg.on_lost) [ inl t ↦ rw t refl | inr f ↦ rw f refl ]
