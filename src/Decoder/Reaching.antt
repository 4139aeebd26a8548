-- ===== src/Decoder/Reaching.antt =====
-- Rounds of `Decode` one after another: what it ends in, and what decoder it comes to.
use proto_q.Prelude.{ℕ, zero, suc, ◌+◌, ◌≤◌, ◌≡◌, refl, arith, List}
use proto_q.Packet.{PacketData}
use proto_q.Stream.{Decoder}
use proto_q.Decoder.{again, returned, step, decode, Outcome, packet}

module _ (crc32_ieee : List ℕ → ℕ) where
  -- With `n` rounds of fuel or more, `Decode` ends in `o`.
  abbrev pub Yields : Decoder → ℕ → Outcome → Type 0
  Yields d n o = (fuel : ℕ) → n ≤ fuel → decode crc32_ieee fuel d ≡ o

  pub turn_again :
      (d d' : Decoder) (n : ℕ) (o : Outcome)
      → step crc32_ieee d ≡ again d'
      → Yields d' n o
      → Yields d (suc n) o
  unfolding decode
  turn_again d d' n o e y zero h = absurd (omega arith)
  turn_again d d' n o e y (suc fuel) h = rw (e, decode) (y fuel (omega arith))

  -- In `n` rounds the decoder `d` becomes `d'`.
  abbrev pub Reaches : Decoder → Decoder → ℕ → Type 0
  Reaches d d' n = (m : ℕ) (o : Outcome) → Yields d' m o → Yields d (n + m) o

  pub Reaches-here : (d : Decoder) → Reaches d d 0
  Reaches-here d m o y fuel enough = y fuel (omega arith)

  pub Reaches-turn :
      (d d' d'' : Decoder) (n : ℕ)
      → step crc32_ieee d ≡ again d'
      → Reaches d' d'' n
      → Reaches d d'' (suc n)
  Reaches-turn d d' d'' n e reaches m o y fuel enough =
      turn_again d d' (n + m) o e (reaches m o y) fuel (omega arith)

  pub Reaches-trans :
      (d d' d'' : Decoder) (n n' : ℕ) → Reaches d d' n → Reaches d' d'' n' → Reaches d d'' (n + n')
  Reaches-trans d d' d'' n n' first next m o y fuel enough =
      first (n' + m) o (next m o y) fuel (omega arith)

  pub Reaches-more : (d d' : Decoder) (n n' : ℕ) → Reaches d d' n → n ≤ n' → Reaches d d' n'
  Reaches-more d d' n n' reaches less m o y fuel enough = reaches m o y fuel (omega arith)

  pub turn_returned :
      (d d' : Decoder) (f : PacketData)
      → step crc32_ieee d ≡ returned f d'
      → Yields d 1 (packet f d')
  unfolding decode
  turn_returned d d' f e zero h = absurd (omega arith)
  turn_returned d d' f e (suc fuel) h = rw (e, decode) refl
