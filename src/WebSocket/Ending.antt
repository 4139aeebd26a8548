-- ===== src/WebSocket/Ending.antt =====
-- `Read` of conn/ws.go comes to an end.
use proto_q.Prelude.{
  bit_and, ◌*◌, ℕ, zero, suc, ◌+◌, ◌≤◌, ◌<◌, ◌≡◌, ◌≢◌, refl, ap, arith, Bool, Bool-cases, true,
  false, not, inl, inr, replicate, Option, Option-cases, List, [], ◌∷◌, ◌++◌, length, length-drop,
  take, drop, ltb, leb, ◌==◌, if◌then◌else◌,
}
use proto_q.Errors.{Result, ok, err, panic}
use proto_q.Packet.{copy_at, read_be16}
use proto_q.WebSocket.{
  ws_close_frame, ws_ping_frame, ws_pong_frame, ws_binary_frame, ws_text_frame, ws_header,
  read_be64, on_chunk, after_skip, end_of_file, unexpected_eof, WsConn, WsError, WsTurn, Filled,
  again, returned, crashed, filled, short, read_full, on_filled, with_number, after_copy,
  read_chunks, read_slice, read_data, skip_payload, read_payload, read_key, read_length,
  read_header, read_turn, ws_read, write_frame, unmask,
}

-- A round that goes on leaves at least two bytes less than `n` of the stream.
abbrev pub Shrinks : ℕ → WsTurn → Type 0
Shrinks n (again w) = length w.stream + 2 ≤ n
Shrinks n (returned k e p w) = zero ≤ n
Shrinks n crashed = zero ≤ n

le_cases : (a b : ℕ) → leb a b ≡ true → a ≤ b
le_cases a b h = ground arith

read_full-Shrinks :
    (n m : ℕ) (p : List ℕ) (w : WsConn) (k : List ℕ → WsConn → WsTurn)
    → ((bytes : List ℕ) (w' : WsConn)
        → length w'.stream + n ≤ length w.stream
        → Shrinks m (k bytes w'))
    → Shrinks m (on_filled (read_full n w) p k)
unfolding read_full
read_full-Shrinks n m p w k h = elim (Bool-cases (leb n (length w.stream))) [
  | inl enough ↦
      rw (read_full, enough)
        (h (take n w.stream) (record w { stream = drop n w.stream })
          (omega (arith, length-drop n w.stream, le_cases n (length w.stream) enough)))
  | inr less ↦ rw (read_full, less) (omega arith)
]

with_number-Shrinks :
    (m : ℕ) (r : Result ℕ) (k : ℕ → WsTurn)
    → ((n : ℕ) → Shrinks m (k n))
    → Shrinks m (with_number r k)
with_number-Shrinks m (ok n) k h = h n
with_number-Shrinks m (err e) k h = omega arith
with_number-Shrinks m panic k h = omega arith

Shrinks-if :
    (m : ℕ) (b : Bool) (t t' : WsTurn)
    → Shrinks m t
    → Shrinks m t'
    → Shrinks m (if b then t else t')
Shrinks-if m true t t' h h' = h
Shrinks-if m false t t' h h' = h'

on_chunk-Shrinks :
    (m total : ℕ) (f : Filled) (p : List ℕ) (k : List ℕ → WsConn → WsTurn)
    → ((bytes : List ℕ) (w : WsConn) → Shrinks m (k bytes w))
    → Shrinks m (on_chunk f total p k)
on_chunk-Shrinks m total (filled bytes w) p k h = h bytes w
on_chunk-Shrinks m total (short e w) p k h = omega arith

after_copy-Shrinks :
    (m : ℕ) (r : Result (List ℕ)) (k : List ℕ → WsTurn)
    → ((p : List ℕ) → Shrinks m (k p))
    → Shrinks m (after_copy r k)
after_copy-Shrinks m (ok p) k h = h p
after_copy-Shrinks m (err e) k h = omega arith
after_copy-Shrinks m panic k h = omega arith

read_chunks-Shrinks :
    (m : ℕ) (masked : Bool) (key : List ℕ) (fuel remaining total : ℕ) (p : List ℕ) (w : WsConn)
    → Shrinks m (read_chunks masked key fuel remaining total p w)
unfolding read_chunks
read_chunks-Shrinks m masked key zero remaining total p w = omega arith
read_chunks-Shrinks m masked key (suc fuel) remaining total p w =
    Shrinks-if m (remaining == 0) _ _ (omega arith) (
      on_chunk-Shrinks m total (read_full _ w) p _ (λ bytes w'.
        after_copy-Shrinks m (copy_at p total (unmask masked key bytes)) _
          (λ p'. read_chunks-Shrinks m masked key fuel _ _ p' w')))

after_skip-Shrinks :
    (m len : ℕ) (must_fill : Bool) (p : List ℕ) (w : WsConn)
    → length w.stream + 2 ≤ m
    → Shrinks m (after_skip must_fill p (read_full len w))
unfolding read_full
after_skip-Shrinks m len must_fill p w h = elim (Bool-cases (leb len (length w.stream))) [
  | inl enough ↦ rw (read_full, enough) (omega (arith, length-drop len w.stream, h))
  | inr less ↦ rw (read_full, less) (dropped must_fill)
]
  where
    dropped :
        (b : Bool)
        → Shrinks m (
            after_skip b p (
              short
                (if length w.stream == 0 then end_of_file else unexpected_eof)
                (record w { stream = [] })))
    dropped true = omega arith
    dropped false = omega arith

module _ (max_slice : ℕ) (raw_write : List ℕ → Option WsError) (m : ℕ) (p : List ℕ) where
  read_slice-Shrinks :
      (n : ℕ) (w : WsConn) (k : List ℕ → WsConn → WsTurn)
      → ((bytes : List ℕ) (w' : WsConn)
          → length w'.stream + n ≤ length w.stream
          → Shrinks m (k bytes w'))
      → Shrinks m (read_slice max_slice raw_write n p w k)
  read_slice-Shrinks n w k h =
      Shrinks-if m (ltb max_slice n) _ _ (omega arith) (read_full-Shrinks n m p w k h)

  skip_payload-Shrinks :
      (len : ℕ) (must_fill : Bool) (w : WsConn)
      → length w.stream + 2 ≤ m
      → Shrinks m (skip_payload max_slice raw_write must_fill len p w)
  skip_payload-Shrinks len must_fill w h = Shrinks-if m (not (ltb 0 len)) _ _ h (
      Shrinks-if m (ltb max_slice len) _ _ (omega arith) (after_skip-Shrinks m len must_fill p w h))

  read_data-Shrinks :
      (masked : Bool) (key : List ℕ) (len : ℕ) (w : WsConn)
      → Shrinks m (read_data max_slice raw_write masked key len p w)
  read_data-Shrinks masked key len w =
      Shrinks-if m (ltb (length p) len) _ _ (read_chunks-Shrinks m masked key len len 0 p w)
        (read_slice-Shrinks len w _ (λ bytes w' less. omega arith))

  write_frame-stream :
      (opcode : ℕ) (payload : List ℕ) (w : WsConn)
      → (write_frame raw_write opcode payload w).1.stream ≡ w.stream
  unfolding write_frame
  write_frame-stream opcode payload w =
      elim (Option-cases (raw_write (ws_header opcode (length payload) ++ payload))) [
        | inl e ↦ rw (write_frame, e) refl
        | inr (a, e) ↦ rw (write_frame, e) refl
      ]

  read_payload-Shrinks :
      (opcode : ℕ) (masked : Bool) (key : List ℕ) (len : ℕ) (w : WsConn)
      → length w.stream + 2 ≤ m
      → Shrinks m (read_payload max_slice raw_write opcode masked key len p w)
  unfolding read_payload
  read_payload-Shrinks opcode masked key len w h =
      Shrinks-if m (opcode == ws_close_frame) _ _ (omega arith) (
        Shrinks-if m (opcode == ws_ping_frame) _ _
          (read_slice-Shrinks len w _ (λ bytes w' less. omega (
            arith,
            less,
            h,
            ap (λ (t : List ℕ). length t)
                (write_frame-stream ws_pong_frame (unmask masked key bytes) w'),
          )))
          (Shrinks-if m (opcode == ws_pong_frame) _ _ (skip_payload-Shrinks len true w h) (
            Shrinks-if m (opcode == ws_binary_frame) _ _ (read_data-Shrinks masked key len w) (
              Shrinks-if m (opcode == ws_text_frame) _ _ (read_data-Shrinks masked key len w)
                (skip_payload-Shrinks len false w h)))))

  read_key-Shrinks :
      (opcode : ℕ) (masked : Bool) (len : ℕ) (w : WsConn)
      → length w.stream + 2 ≤ m
      → Shrinks m (read_key max_slice raw_write opcode masked len p w)
  read_key-Shrinks opcode masked len w h =
      Shrinks-if m masked _ _
        (read_full-Shrinks 4 m p w _
          (λ key w' less. read_payload-Shrinks opcode masked key len w' (omega (arith, less, h))))
        (read_payload-Shrinks opcode masked (replicate 4 0) len w h)

  read_length-Shrinks :
      (opcode : ℕ) (masked : Bool) (len7 : ℕ) (w : WsConn)
      → length w.stream + 2 ≤ m
      → Shrinks m (read_length max_slice raw_write opcode masked len7 p w)
  read_length-Shrinks opcode masked len7 w h =
      Shrinks-if m (len7 == 126) _ _
        (read_full-Shrinks 2 m p w _ (λ ext w' less.
          with_number-Shrinks m (read_be16 ext) _
            (λ len. read_key-Shrinks opcode masked len w' (omega (arith, less, h)))))
        (Shrinks-if m (len7 == 127) _ _
          (read_full-Shrinks 8 m p w _ (λ ext w' less.
            with_number-Shrinks m (read_be64 ext) _
              (λ len. read_key-Shrinks opcode masked len w' (omega (arith, less, h)))))
          (read_key-Shrinks opcode masked len7 w h))

  read_header-Shrinks :
      (header : List ℕ) (w : WsConn)
      → length w.stream + 2 ≤ m
      → Shrinks m (read_header max_slice raw_write header p w)
  read_header-Shrinks [] w h = omega arith
  read_header-Shrinks (h0 ∷ []) w h = omega arith
  read_header-Shrinks (h0 ∷ h1 ∷ more) w h =
      read_length-Shrinks (bit_and h0 0x0f) (not (bit_and h1 0x80 == 0)) (bit_and h1 0x7f) w h

module _ (max_slice : ℕ) (raw_write : List ℕ → Option WsError) (p : List ℕ) where
  read_turn-Shrinks : (w : WsConn) → Shrinks (length w.stream) (read_turn max_slice raw_write p w)
  unfolding read_turn
  read_turn-Shrinks w = read_full-Shrinks 2 (length w.stream) p w _ (λ header w' less.
      read_header-Shrinks max_slice raw_write (length w.stream) p header w' (omega (arith, less)))

  ends_after :
      (fuel n : ℕ) (w' : WsConn) (t : WsTurn)
      → Shrinks n t
      → n < suc fuel * 2
      → ((w : WsConn)
          → length w.stream < fuel * 2
          → ws_read max_slice raw_write fuel p w ≢ again w')
      → (elim t [
        | again w ↦ ws_read max_slice raw_write fuel p w
        | returned n e p w ↦ returned n e p w
        | crashed ↦ crashed
      ])
        ≢ again w'
  ends_after fuel n w' (again w) shrinks enough later = later w (omega (arith, shrinks, enough))
  ends_after fuel n w' (returned k e q w) shrinks enough later = λ same. absurd (cc same)
  ends_after fuel n w' crashed shrinks enough later = λ same. absurd (cc same)

  -- `Read` ends: with more rounds than half the number of the bytes that the socket is still to
  -- receive, it is not still going on, whatever they are.
  pub ws_read-ends :
      (fuel : ℕ) (w w' : WsConn)
      → length w.stream < fuel * 2
      → ws_read max_slice raw_write fuel p w ≢ again w'
  unfolding ws_read
  ws_read-ends zero w w' enough = absurd (omega (arith, enough))
  ws_read-ends (suc fuel) w w' enough =
      ends_after fuel (length w.stream) w' (read_turn max_slice raw_write p w) (read_turn-Shrinks w)
        enough (λ v less. ws_read-ends fuel v w' less)
