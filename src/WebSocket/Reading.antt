-- ===== src/WebSocket/Reading.antt =====
-- `Read` of conn/ws.go on the frames that `writeFrame` writes.
use proto_q.Prelude.{
  ℕ, suc, ◌^◌, ◌≤◌, ◌<◌, ◌≡◌, refl, ap, ◌∙◌, arith, false, Option, none, List, [], ◌∷◌, ◌++◌,
  length, drop, replicate, le→ltb,
}
use proto_q.WebSocket.{
  WsConn, WsError, WsTurn, again, returned, crashed, ws_binary_frame, ws_ping_frame, ws_pong_frame,
  ws_header, write_frame, ws_write, ws_read, read_turn, read_payload, read_slice, read_data,
}
use proto_q.WebSocket.Framing.{read_full-append, frame_turn}

module _ (max_slice : ℕ) (raw_write : List ℕ → Option WsError) where
  slice_turn :
      (payload rest p : List ℕ) (w : WsConn) (k : List ℕ → WsConn → WsTurn)
      → length payload ≤ max_slice
      → read_slice max_slice raw_write (length payload) p (record w { stream = payload ++ rest }) k
        ≡ k payload (record w { stream = rest })
  slice_turn payload rest p w k small =
      rw (read_slice, le→ltb max_slice (length payload) small, read_full-append payload rest w) refl

  data_turn :
      (payload rest p : List ℕ) (w : WsConn)
      → length payload ≤ max_slice
      → length payload ≤ length p
      → read_payload max_slice raw_write ws_binary_frame false
          (replicate 4 0)
          (length payload)
          p
          (record w { stream = payload ++ rest })
        ≡ returned
            (length payload)
            none
            (payload ++ drop (length payload) p)
            (record w { stream = rest })
  unfolding read_payload
  data_turn payload rest p w small room =
      rw (read_payload, read_data, le→ltb (length p) (length payload) room)
        (slice_turn payload rest p w _ small)

  -- A data frame, as `Write` writes it.
  abbrev pub data_frame : List ℕ → List ℕ
  data_frame payload = ws_header ws_binary_frame (length payload) ++ payload

  pub ws_write-data_frame :
      (payload : List ℕ) (sender : WsConn)
      → raw_write (data_frame payload) ≡ none
      → ws_write raw_write payload sender ≡ (
        length payload,
        (none, record sender { written = sender.written ++ (data_frame payload ∷ []) }),
      )
  unfolding ws_write write_frame
  ws_write-data_frame payload sender accepts = rw (ws_write, write_frame, accepts) refl

  pub ws_read-data_frame :
      (payload rest p : List ℕ) (fuel : ℕ) (receiver : WsConn)
      → length payload < 2 ^ 64
      → length payload ≤ max_slice
      → length payload ≤ length p
      → ws_read max_slice raw_write
          (suc fuel)
          p
          (record receiver { stream = data_frame payload ++ rest })
        ≡ returned
            (length payload)
            none
            (payload ++ drop (length payload) p)
            (record receiver { stream = rest })
  unfolding ws_read read_payload
  ws_read-data_frame payload rest p fuel receiver fits small room =
      ap
        (λ (t : WsTurn). elim t [
          | again w' ↦ ws_read max_slice raw_write fuel p w'
          | returned n e p' w' ↦ returned n e p' w'
          | crashed ↦ crashed
        ])
        (frame_turn max_slice raw_write ws_binary_frame payload rest p receiver (omega arith) fits
          ∙ data_turn payload rest p receiver small room)

  -- What `Write` of one side gives to a socket that takes it is what `Read` of the other side
  -- returns, whatever follows it, where the bytes are fewer than 2 ^ 64 and no more than a slice
  -- may have, and the caller's buffer has room for them: the count is their number, they stand at
  -- the start of the buffer, whose rest is as before, and what follows is left to be read.
  pub ws_read-ws_write :
      (payload rest p : List ℕ) (fuel : ℕ) (sender receiver : WsConn)
      → length payload < 2 ^ 64
      → length payload ≤ max_slice
      → length payload ≤ length p
      → raw_write (ws_header ws_binary_frame (length payload) ++ payload) ≡ none
      → (frame : List ℕ) × (ws_write raw_write payload sender
          ≡ (length payload, (none, record sender { written = sender.written ++ (frame ∷ []) })))
        × (ws_read max_slice raw_write (suc fuel) p (record receiver { stream = frame ++ rest })
            ≡ returned
                (length payload)
                none
                (payload ++ drop (length payload) p)
                (record receiver { stream = rest }))
  ws_read-ws_write payload rest p fuel sender receiver fits small room accepts = (
    data_frame payload,
    ws_write-data_frame payload sender accepts,
    ws_read-data_frame payload rest p fuel receiver fits small room,
  )

  -- A round of `Read` on a ping from the other side sends its bytes back as a pong and goes on with
  -- what follows it.
  pub read_turn-ping :
      (payload rest p : List ℕ) (w : WsConn)
      → length payload < 2 ^ 64
      → length payload ≤ max_slice
      → raw_write (ws_header ws_pong_frame (length payload) ++ payload) ≡ none
      → read_turn max_slice raw_write p
          (record w { stream = (ws_header ws_ping_frame (length payload) ++ payload) ++ rest })
        ≡ again (record w {
          stream = rest;
          written = w.written ++ ((ws_header ws_pong_frame (length payload) ++ payload) ∷ []);
        })
  unfolding read_payload write_frame
  read_turn-ping payload rest p w fits small accepts =
      frame_turn max_slice raw_write ws_ping_frame payload rest p w (omega arith) fits
      ∙ (slice_turn payload rest p w _ small ∙ rw (write_frame, accepts) refl)
