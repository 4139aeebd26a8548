-- ===== src/Decoder/Cutting/Decode.antt =====
-- `Decode` on two cuts of the same bytes.
use proto_q.Prelude.{ℕ, zero, suc, ◌≤◌, ◌≡◌, refl, ap, sym, subst, arith, none, List, length}
use proto_q.Stream.{Decoder, Read, read_buffer_size}
use proto_q.Decoder.{
  Turn, again, returned, gave_up, crashed, step, Outcome, packet, io_error, crash, out_of_fuel,
  decode,
}
use proto_q.Decoder.Progress.{IsSound, rounds_left, IsBounded}
use proto_q.Decoder.Progress.Keeping.{Keeps}
use proto_q.Decoder.Progress.Total.{step-Keeps}
use proto_q.Decoder.Cutting.Same.{IsTwin, IsTwinTurn}
use proto_q.Decoder.Cutting.Rounds.{step_at_twin}

-- A call of `Read` of at most 4096 bytes, without an error.
abbrev pub IsCalmRead : Read → Type 0
IsCalmRead r = (r.error ≡ none) × (length r.bytes ≤ read_buffer_size)

calm_small : (r : Read) → IsCalmRead r → IsBounded r
calm_small r h = h.1

-- The same packet or the same error, and twins again.
abbrev pub IsTwinOutcome : Outcome → Outcome → Type 0
IsTwinOutcome (packet f d) (packet g e) = (f ≡ g) × IsTwin d e
IsTwinOutcome (io_error x d) (io_error y e) = (x ≡ y) × IsTwin d e
IsTwinOutcome crash crash = Unit
IsTwinOutcome out_of_fuel out_of_fuel = Unit
IsTwinOutcome _ _ = ⊥

module _ (crc32_ieee : List ℕ → ℕ) where
  step_twin :
      (d e : Decoder)
      → IsSound IsCalmRead d
      → IsSound IsCalmRead e
      → IsTwin d e
      → IsTwinTurn (step crc32_ieee d) (step crc32_ieee e)
  unfolding step
  step_twin d e h h' (form, same) =
      let at : d.buf_pos ≡ e.buf_pos = sym (ap (λ x. x.buf_pos) form) in
      subst (λ x. IsTwinTurn (step crc32_ieee d) (step crc32_ieee x)) (sym form)
        (step_at_twin crc32_ieee d.state d e.reader e.buf e.cap (h.room, h.bounded)
          (h'.room, h'.bounded) same h.reached (omega (arith, at, h'.reached)) h.shape)

  decode_turns :
      (fuel : ℕ) (d e : Decoder) (t u : Turn)
      → step crc32_ieee d ≡ t
      → step crc32_ieee e ≡ u
      → Keeps IsCalmRead calm_small (rounds_left d) t
      → Keeps IsCalmRead calm_small (rounds_left e) u
      → IsTwinTurn t u
      → ((d' e' : Decoder)
          → IsSound IsCalmRead d'
          → IsSound IsCalmRead e'
          → IsTwin d' e'
          → IsTwinOutcome (decode crc32_ieee fuel d') (decode crc32_ieee fuel e'))
      → IsTwinOutcome (decode crc32_ieee (suc fuel) d) (decode crc32_ieee (suc fuel) e)
  unfolding decode
  decode_turns fuel d e (again d') (again e') p q keeps keeps' twin rest =
      rw (decode, p, q) (rest d' e' keeps.0 keeps'.0 twin)
  decode_turns fuel d e (returned f d') (returned g e') p q keeps keeps' twin rest =
      rw (decode, p, q) twin
  decode_turns fuel d e (gave_up x d') (gave_up y e') p q keeps keeps' twin rest =
      rw (decode, p, q) twin
  decode_turns fuel d e crashed u p q keeps keeps' twin rest = absurd keeps
  decode_turns fuel d e (again d') (returned g e') p q keeps keeps' twin rest = absurd twin
  decode_turns fuel d e (again d') (gave_up y e') p q keeps keeps' twin rest = absurd twin
  decode_turns fuel d e (again d') crashed p q keeps keeps' twin rest = absurd twin
  decode_turns fuel d e (returned f d') (again e') p q keeps keeps' twin rest = absurd twin
  decode_turns fuel d e (returned f d') (gave_up y e') p q keeps keeps' twin rest = absurd twin
  decode_turns fuel d e (returned f d') crashed p q keeps keeps' twin rest = absurd twin
  decode_turns fuel d e (gave_up x d') (again e') p q keeps keeps' twin rest = absurd twin
  decode_turns fuel d e (gave_up x d') (returned g e') p q keeps keeps' twin rest = absurd twin
  decode_turns fuel d e (gave_up x d') crashed p q keeps keeps' twin rest = absurd twin

  -- How a stream is cut makes no difference to `Decode`: of two decoders in the same state, with
  -- the same bytes in the buffer and still to be read together, each cut in its own way into calls
  -- of `Read` of at most 4096 bytes without an error, `Decode` returns the same packet or the same
  -- error, and leaves them in the same state with the same bytes unread.
  pub decode-IsTwinOutcome :
      (fuel : ℕ) (d e : Decoder)
      → IsSound IsCalmRead d
      → IsSound IsCalmRead e
      → IsTwin d e
      → IsTwinOutcome (decode crc32_ieee fuel d) (decode crc32_ieee fuel e)
  unfolding decode
  decode-IsTwinOutcome zero d e h h' twin = tt
  decode-IsTwinOutcome (suc fuel) d e h h' twin =
      decode_turns fuel d e (step crc32_ieee d) (step crc32_ieee e) refl refl
        (step-Keeps IsCalmRead calm_small crc32_ieee d h)
        (step-Keeps IsCalmRead calm_small crc32_ieee e h') (step_twin d e h h' twin)
        (λ d' e' k k' t. decode-IsTwinOutcome fuel d' e' k k' t)
