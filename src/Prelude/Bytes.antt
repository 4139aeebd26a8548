-- ===== src/Prelude/Bytes.antt =====
-- Facts about every byte, checked by evaluation over the 256 values.
use Prim.Native.Nat.{ℕ, zero, suc, ◌<◌}
use mathlib.Core.Path.{◌≡◌}
use mathlib.Core.Bool.{Bool, true, ◌&&◌}
use native.Mathlib.Omega.{arith}
use proto_q.Prelude.Tests.{◌==◌}

module _ (f g : ℕ → ℕ) where
  unfoldable pub same_below : ℕ → Bool
  same_below zero = true
  same_below (suc n) = (f n == g n) && same_below n

  pub same_below→eq : (n : ℕ) → same_below n ≡ true → (i : ℕ) → i < n → f i ≡ g i
  unfolding same_below
  same_below→eq zero e i h = absurd (omega arith)
  same_below→eq (suc n) e i h = ground (arith, same_below→eq n (ground arith) i)

module _ (p : ℕ → Bool) where
  unfoldable pub holds_below : ℕ → Bool
  holds_below zero = true
  holds_below (suc n) = p n && holds_below n

  pub holds_below→true : (n : ℕ) → holds_below n ≡ true → (i : ℕ) → i < n → p i ≡ true
  unfolding holds_below
  holds_below→true zero e i h = absurd (omega arith)
  holds_below→true (suc n) e i h = ground (arith, holds_below→true n (ground arith) i)
