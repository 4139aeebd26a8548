-- ===== src/WebSocket.antt =====
-- conn/ws.go: the frames of a WebSocket connection. The upgrade over HTTP is in
-- `WebSocket.Upgrade`. `stream` is what the socket is still to receive, before its end; `written`
-- lists what was written to it, oldest first. A slice is made of at most `max_slice` bytes: `make`
-- panics beyond. The lock is left out.
pub mod Masks
pub mod Framing
pub mod Reading
pub mod Ending
pub mod Oversize
pub mod Streams
pub mod Upgrade
use proto_q.Prelude.{
  ℕ, zero, suc, ◌+◌, ◌-◌, ◌*◌, ◌/◌, ◌%◌, ◌^◌, bit_and, bit_xor, bit_or, Bool, true, false, not,
  Option, none, some, List, [], ◌∷◌, ◌++◌, length, take, drop, replicate, get_elem?, ltb, leb, ◌==◌,
  if◌then◌else◌,
}
use proto_q.Errors.{Result, ok, err, panic, ◌>>=◌}
use proto_q.Packet.{be16, be32, read_be16, read_be32, copy_at}

abbrev pub ws_text_frame : ℕ
ws_text_frame = 1

abbrev pub ws_binary_frame : ℕ
ws_binary_frame = 2

abbrev pub ws_close_frame : ℕ
ws_close_frame = 8

abbrev pub ws_ping_frame : ℕ
ws_ping_frame = 9

abbrev pub ws_pong_frame : ℕ
ws_pong_frame = 10

pub record WsConn : Type 0 where
  pub stream : List ℕ
  pub written : List (List ℕ)
  pub closed : Bool

-- The end of the stream, at a frame's first byte or within a frame, or any other error.
pub data WsError : Type 0 where
  end_of_file unexpected_eof write_failed : WsError

-- `io.ReadFull` of `n` bytes: the bytes and the connection afterwards.
pub data Filled : Type 0 where
  filled : List ℕ → WsConn → Filled
  short : WsError → WsConn → Filled

unfoldable pub read_full : ℕ → WsConn → Filled
read_full n w =
    if leb n (length w.stream)
    then filled (take n w.stream) (record w { stream = drop n w.stream })
    else short (if length w.stream == 0 then end_of_file else unexpected_eof)
        (record w { stream = [] })

-- `data[i] ^= key[i%4]`, from the index `i` on; the key has four bytes.
abbrev pub key_at : List ℕ → ℕ → ℕ
key_at key i = elim (get_elem? key (i % 4)) [ none ↦ 0 | some b ↦ b ]

abbrev pub mask_from : ℕ → List ℕ → List ℕ → List ℕ
mask_from i key [] = []
mask_from i key (b ∷ bs) = bit_xor b (key_at key i) ∷ mask_from (i + 1) key bs

unfoldable pub mask_bytes : List ℕ → List ℕ → List ℕ
mask_bytes bytes key = mask_from 0 key bytes

abbrev pub unmask : Bool → List ℕ → List ℕ → List ℕ
unmask masked key bytes = if masked then mask_bytes bytes key else bytes

-- `binary.BigEndian` on a uint64.
abbrev pub be64 : ℕ → List ℕ
be64 v = be32 (v / 2 ^ 32) ++ be32 v

abbrev pub read_be64 : List ℕ → Result ℕ
read_be64 bytes = do
  high ← read_be32 bytes
  low ← read_be32 (drop 4 bytes)
  ok (high * 2 ^ 32 + low)

-- The header of a frame with an operation code and so many bytes.
abbrev pub ws_header : ℕ → ℕ → List ℕ
ws_header opcode len =
    if leb len 125
    then bit_or 0x80 opcode ∷ len ∷ []
    else if leb len 65535
    then bit_or 0x80 opcode ∷ 126 ∷ be16 (len % 2 ^ 16)
    else bit_or 0x80 opcode ∷ 127 ∷ be64 len

-- An error of the socket, if any, and the connection afterwards.
module _ (raw_write : List ℕ → Option WsError) where
  unfoldable pub write_frame : ℕ → List ℕ → WsConn → Option WsError × WsConn
  write_frame opcode payload w =
      let frame = ws_header opcode (length payload) ++ payload in
      elim (raw_write frame) [
        | none ↦ (none, record w { written = w.written ++ (frame ∷ []) })
        | some e ↦ (some e, w)
      ]

  -- The number of bytes, the error, and the connection.
  unfoldable pub ws_write : List ℕ → WsConn → ℕ × (Option WsError × WsConn)
  unfolding write_frame
  ws_write p w =
      let r = write_frame ws_binary_frame p w in (elim r.0 [ none ↦ length p | some e ↦ 0 ], r)

  -- `raw_close` is the error of closing the socket.
  unfoldable pub ws_close : Option WsError → WsConn → Option WsError × WsConn
  unfolding write_frame
  ws_close raw_close w =
      if w.closed
      then (none, w)
      else (raw_close, (write_frame ws_close_frame [] (record w { closed = true })).1)

-- A round of the loop of `Read`: it goes on, it returns a count, an error, the contents of the
-- caller's buffer and the connection, or it panics.
pub data WsTurn : Type 0 where
  again : WsConn → WsTurn
  returned : ℕ → Option WsError → List ℕ → WsConn → WsTurn
  crashed : WsTurn

abbrev pub on_filled : Filled → List ℕ → (List ℕ → WsConn → WsTurn) → WsTurn
on_filled (filled bytes w) p k = k bytes w
on_filled (short e w) p k = returned 0 (some e) p w

abbrev pub with_number : Result ℕ → (ℕ → WsTurn) → WsTurn
with_number (ok n) k = k n
with_number _ k = crashed

abbrev pub chunk_size : ℕ
chunk_size = 4096

-- What follows the read of one chunk, and its copy, in a payload that is longer than the buffer.
abbrev pub on_chunk : Filled → ℕ → List ℕ → (List ℕ → WsConn → WsTurn) → WsTurn
on_chunk (filled bytes w) total p k = k bytes w
on_chunk (short e w) total p k = returned total (some e) p w

abbrev pub after_copy : Result (List ℕ) → (List ℕ → WsTurn) → WsTurn
after_copy (ok p) k = k p
after_copy _ k = crashed

-- The loop over a payload that is longer than the buffer `p`: structural on `fuel`, which starts at
-- the payload's length, and each chunk has a byte at least.
unfoldable pub read_chunks : Bool → List ℕ → ℕ → ℕ → ℕ → List ℕ → WsConn → WsTurn
unfolding read_full copy_at mask_bytes
read_chunks masked key zero remaining total p w = returned total none p w
read_chunks masked key (suc fuel) remaining total p w =
    if remaining == 0
    then returned total none p w
    else (let n = if ltb remaining chunk_size then remaining else chunk_size in
        on_chunk (read_full n w) total p (λ bytes w'.
          after_copy (copy_at p total (unmask masked key bytes))
            (λ p'. read_chunks masked key fuel (remaining - n) (total + n) p' w')))

-- What was read is dropped; an error counts where `must_fill`.
abbrev pub after_skip : Bool → List ℕ → Filled → WsTurn
after_skip must_fill p (filled bytes w) = again w
after_skip true p (short e w) = returned 0 (some e) p w
after_skip false p (short e w) = again w

module _ (max_slice : ℕ) (raw_write : List ℕ → Option WsError) where
  -- `make([]byte, n)` and `io.ReadFull` of it.
  abbrev pub read_slice : ℕ → List ℕ → WsConn → (List ℕ → WsConn → WsTurn) → WsTurn
  read_slice n p w k = if ltb max_slice n then crashed else on_filled (read_full n w) p k

  abbrev pub read_data : Bool → List ℕ → ℕ → List ℕ → WsConn → WsTurn
  read_data masked key len p w =
      if ltb (length p) len
      then read_chunks masked key len len 0 p w
      else read_slice len p w (λ bytes w'.
        let plain = unmask masked key bytes in
        returned (length plain) none (plain ++ drop (length plain) p) w')

  abbrev pub skip_payload : Bool → ℕ → List ℕ → WsConn → WsTurn
  skip_payload must_fill len p w =
      if not (ltb 0 len)
      then again w
      else if ltb max_slice len
      then crashed
      else after_skip must_fill p (read_full len w)

  unfoldable pub read_payload : ℕ → Bool → List ℕ → ℕ → List ℕ → WsConn → WsTurn
  unfolding read_full read_chunks write_frame mask_bytes
  read_payload opcode masked key len p w =
      if opcode == ws_close_frame
      then returned 0 (some end_of_file) p w
      else if opcode == ws_ping_frame
      then read_slice len p w
          (λ bytes w'. again (write_frame raw_write ws_pong_frame (unmask masked key bytes) w').1)
      else if opcode == ws_pong_frame
      then skip_payload true len p w
      else if opcode == ws_binary_frame
      then read_data masked key len p w
      else if opcode == ws_text_frame
      then read_data masked key len p w
      else skip_payload false len p w

  abbrev pub read_key : ℕ → Bool → ℕ → List ℕ → WsConn → WsTurn
  read_key opcode masked len p w =
      if masked
      then on_filled (read_full 4 w) p (λ key w'. read_payload opcode masked key len p w')
      else read_payload opcode masked (replicate 4 0) len p w

  abbrev pub read_length : ℕ → Bool → ℕ → List ℕ → WsConn → WsTurn
  read_length opcode masked len7 p w =
      if len7 == 126
      then on_filled (read_full 2 w) p
          (λ ext w'. with_number (read_be16 ext) (λ len. read_key opcode masked len p w'))
      else if len7 == 127
      then on_filled (read_full 8 w) p
          (λ ext w'. with_number (read_be64 ext) (λ len. read_key opcode masked len p w'))
      else read_key opcode masked len7 p w

  abbrev pub read_header : List ℕ → List ℕ → WsConn → WsTurn
  read_header (h0 ∷ h1 ∷ _) p w =
      read_length (bit_and h0 0x0f) (not (bit_and h1 0x80 == 0)) (bit_and h1 0x7f) p w
  read_header _ p w = crashed

  unfoldable pub read_turn : List ℕ → WsConn → WsTurn
  unfolding read_full read_payload
  read_turn p w = on_filled (read_full 2 w) p (λ header w'. read_header header p w')

  -- `Read`, on fuel: with none left it goes on.
  unfoldable pub ws_read : ℕ → List ℕ → WsConn → WsTurn
  unfolding read_turn
  ws_read zero p w = again w
  ws_read (suc fuel) p w = elim (read_turn p w) [
    | again w' ↦ ws_read fuel p w'
    | returned n e p' w' ↦ returned n e p' w'
    | crashed ↦ crashed
  ]
