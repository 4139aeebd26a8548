-- ===== src/Heartbeat/Beating.antt =====
-- When the misses of a heartbeat lose the connection.
use proto_q.Prelude.{
  ℕ, zero, suc, ◌+◌, ◌≤◌, ◌<◌, ◌≡◌, inl, inr, refl, ap, sym, ◌∙◌, arith, Bool, Bool-cases, true,
  false, Option, none, some, List, [], ◌∷◌, ◌++◌, replicate, leb, leb→le, leb→lt,
}
use proto_q.Heartbeat.{beat, beats}

kept_miss :
    (m missed : ℕ) (rest : List Bool)
    → leb m (missed + 1) ≡ false
    → beats m (false ∷ rest) missed ≡ beats m rest (missed + 1)
unfolding beats
kept_miss m missed rest e = rw (beats, beat, e) refl

last_miss :
    (m missed : ℕ) (rest : List Bool)
    → leb m (missed + 1) ≡ true
    → beats m (false ∷ rest) missed ≡ none
unfolding beats
last_miss m missed rest e = rw (beats, beat, e) refl

-- What follows some heartbeats, where the connection is not lost by them.
abbrev follow : ℕ → List Bool → Option ℕ → Option ℕ
follow m ys none = none
follow m ys (some missed) = beats m ys missed

beats-append :
    (m missed : ℕ) (xs ys : List Bool) → beats m (xs ++ ys) missed ≡ follow m ys (beats m xs missed)
unfolding beats
beats-append m missed [] ys = refl
beats-append m missed (true ∷ xs) ys = beats-append m 0 xs ys
beats-append m missed (false ∷ xs) ys = elim (Bool-cases (leb m (missed + 1))) [
  | inl lost ↦
      last_miss m missed (xs ++ ys) lost ∙ ap (follow m ys) (sym (last_miss m missed xs lost))
  | inr kept ↦
      kept_miss m missed (xs ++ ys) kept
      ∙ (beats-append m (missed + 1) xs ys ∙ ap (follow m ys) (sym (kept_miss m missed xs kept)))
]

beats-misses :
    (m missed n : ℕ)
    → (missed + n < m → beats m (replicate n false) missed ≡ some (missed + n))
      × (missed < m → m ≤ missed + n → beats m (replicate n false) missed ≡ none)
unfolding beats
beats-misses m missed zero =
    (λ h. ap (λ k. some k) (omega arith), λ h h'. absurd (omega (arith, h, h')))
beats-misses m missed (suc n) = elim (Bool-cases (leb m (missed + 1))) [
  | inl lost ↦ (
    λ h. absurd (omega (arith, h, leb→le m (missed + 1) lost)),
    λ h h'. last_miss m missed (replicate n false) lost,
  )
  | inr kept ↦
      let rest = beats-misses m (missed + 1) n in
      let less = leb→lt m (missed + 1) kept in
      (
        λ h.
            kept_miss m missed (replicate n false) kept
            ∙ (rest.0 (omega (arith, h)) ∙ ap (λ k. some k) (omega arith)),
        λ h h'.
            kept_miss m missed (replicate n false) kept
            ∙ rest.1 (omega (arith, less)) (omega (arith, h')),
      )
]

-- Whatever the heartbeats before were, as long as they did not lose the connection: `n` misses
-- after one that succeeded are counted and keep it where they are fewer than the limit, and lose it
-- where not.
pub beats-lost :
    (m n missed : ℕ) (before : List Bool)
    → 0 < m
    → beats m before 0 ≡ some missed
    → (n < m → beats m (before ++ (true ∷ replicate n false)) 0 ≡ some n)
      × (m ≤ n → beats m (before ++ (true ∷ replicate n false)) 0 ≡ none)
unfolding beats
beats-lost m n missed before positive kept =
    let after = true ∷ replicate n false in
    let split : beats m (before ++ after) 0 ≡ beats m (replicate n false) 0 =
      beats-append m 0 before after ∙ ap (follow m after) kept in
    let misses = beats-misses m 0 n in
    (
      λ h. split ∙ (misses.0 (omega (arith, h)) ∙ ap (λ k. some k) (omega arith)),
      λ h. split ∙ misses.1 positive (omega (arith, h)),
    )
