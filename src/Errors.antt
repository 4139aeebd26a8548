-- ===== src/Errors.antt =====
-- errors.go: the sentinel errors that the modelled code returns, and the result of a Go call
-- that may return an error or panic.
use proto_q.Prelude.{◌≡◌}

-- The last one is no error of the source: a call that waits for ever on a full channel.
pub data Error : Type 0 where
  requires_ack_no_seq response_requires_ack body_without_length crc_mismatch : Error
  conn_closed max_retries timeout ack_queue_full blocks : Error

-- `panic` is a run-time panic of Go, such as an index out of range.
pub data Result {ℓ} (A : Type ℓ) : Type ℓ where
  ok : A → Result A
  err : Error → Result A
  panic : Result A

infixl 5 ◌>>=◌
abbrev pub ◌>>=◌ {ℓ κ} : {A : Type ℓ} {B : Type κ} → Result A → (A → Result B) → Result B
ok a >>= f = f a
err e >>= f = err e
panic >>= f = panic

pub ok_injective {ℓ} : {A : Type ℓ} {a b : A} → ok a ≡ ok b → a ≡ b
ok_injective e = cc e
