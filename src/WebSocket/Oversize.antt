-- ===== src/WebSocket/Oversize.antt =====
-- `Read` of conn/ws.go on a payload that is longer than the caller's buffer.
use proto_q.Prelude.{
  ℕ, zero, suc, ◌+◌, ◌-◌, ◌≤◌, ◌<◌, ◌≡◌, refl, ap, sym, subst, ◌∙◌, arith, true, false, none,
  Option, List, [], ◌∷◌, ◌++◌, append-nil, length, take, drop, replicate, ltb, leb, lt→ltb,
  if◌then◌else◌, ◌==◌,
}
use proto_q.Errors.{ok}
use proto_q.Packet.{copy_at}
use proto_q.WebSocket.{
  WsConn, WsError, WsTurn, again, returned, crashed, read_chunks, read_data, read_payload,
  ws_binary_frame, ws_header, ws_read, chunk_size,
}
use proto_q.WebSocket.Framing.{read_full-append, frame_turn}

drop-beyond : (n : ℕ) (p : List ℕ) → length p ≤ n → drop n p ≡ []
drop-beyond zero [] h = refl
drop-beyond zero (x ∷ p) h = absurd (omega (arith, h))
drop-beyond (suc n) [] h = refl
drop-beyond (suc n) (x ∷ p) h = drop-beyond n p (omega (arith, h))

copy_at-start :
    (p bytes : List ℕ) → length p < length bytes → copy_at p 0 bytes ≡ ok (take (length p) bytes)
unfolding copy_at
copy_at-start p bytes h =
    let fits : leb 0 (length p) ≡ true = ground arith in
    let whole : length p - 0 ≡ length p = omega arith in
    rw (copy_at, fits, whole, drop-beyond (0 + length bytes) p (omega (arith, h)))
      (ap (λ t. ok t) (append-nil (take (length p) bytes)))

first_chunk : (n : ℕ) → n ≤ chunk_size → (if ltb n chunk_size then n else chunk_size) ≡ n
first_chunk n h = ground arith

no_chunk :
    (key p : List ℕ) (fuel total : ℕ) (w : WsConn)
    → read_chunks false key fuel 0 total p w ≡ returned total none p w
unfolding read_chunks
no_chunk key p zero total w = refl
no_chunk key p (suc fuel) total w = refl

one_chunk :
    (key payload rest p : List ℕ) (fuel : ℕ) (w : WsConn)
    → 0 < length payload
    → length payload ≤ chunk_size
    → length p < length payload
    → read_chunks false key (suc fuel) (length payload) 0 p (record w { stream = payload ++ rest })
      ≡ returned (length payload) none (take (length p) payload) (record w { stream = rest })
unfolding read_chunks
one_chunk key payload rest p fuel w some_byte small long =
    let none_left : length payload - length payload ≡ 0 = omega arith in
    let any : (length payload == 0) ≡ false = ground arith in
    rw
      (
        read_chunks,
        any,
        first_chunk (length payload) small,
        read_full-append payload rest w,
        copy_at-start p payload long,
        none_left,
        no_chunk key (take (length p) payload) fuel (0 + length payload)
            (record w { stream = rest }),
      )
      (ap (λ (n : ℕ). returned n none (take (length p) payload) (record w { stream = rest }))
        (omega arith))

module _ (max_slice : ℕ) (raw_write : List ℕ → Option WsError) where
  oversize_data :
      (n : ℕ) (payload rest p : List ℕ) (w : WsConn)
      → length payload ≡ suc n
      → length payload ≤ chunk_size
      → length p < length payload
      → read_data max_slice raw_write false
          (replicate 4 0)
          (length payload)
          p
          (record w { stream = payload ++ rest })
        ≡ returned (length payload) none (take (length p) payload) (record w { stream = rest })
  oversize_data n payload rest p w some_bytes small long =
      rw (read_data, lt→ltb (length p) (length payload) long)
        (subst
          (λ (fuel : ℕ).
            read_chunks false (replicate 4 0) fuel (length payload) 0 p
              (record w { stream = payload ++ rest })
            ≡ returned (length payload) none (take (length p) payload) (record w { stream = rest }))
          (sym some_bytes)
          (one_chunk (replicate 4 0) payload rest p n w (omega (arith, some_bytes)) small long))

  -- A binary frame as the package writes it, without a mask and with the shortest header, of at most
  -- 4096 bytes, that is longer than the caller's buffer and the first that is received: `Read` returns
  -- the number of its bytes, which is greater than the buffer's length, without an error. The buffer
  -- holds the first of them, and the others are lost.
  pub ws_read-oversize :
      (fuel : ℕ) (payload rest p : List ℕ) (w : WsConn)
      → length payload ≤ chunk_size
      → length p < length payload
      → (ws_read max_slice raw_write
            (suc fuel)
            p
            (record w { stream = (ws_header ws_binary_frame (length payload) ++ payload) ++ rest })
          ≡ returned (length payload) none (take (length p) payload) (record w { stream = rest }))
  unfolding ws_read read_payload
  ws_read-oversize fuel payload rest p w small long =
      ap
        (λ (t : WsTurn). elim t [
          | again w' ↦ ws_read max_slice raw_write fuel p w'
          | returned n e p' w' ↦ returned n e p' w'
          | crashed ↦ crashed
        ])
        (frame_turn max_slice raw_write ws_binary_frame payload rest p w (omega arith)
            (omega (arith, small))
          ∙ oversize_data (length payload - 1) payload rest p w (omega (arith, long)) small long)
