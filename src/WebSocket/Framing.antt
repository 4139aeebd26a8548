-- ===== src/WebSocket/Framing.antt =====
-- `Read` of conn/ws.go on the header of a frame, as `writeFrame` writes it.
use proto_q.Prelude.{
  ℕ, ◌%◌, ◌^◌, ◌≤◌, ◌<◌, ◌≡◌, ◌⊎◌, inl, inr, bit_and, bit_or, refl, ap, ◌∙◌, arith, true, false,
  Option, List, [], ◌∷◌, ◌++◌, append_assoc, length, length-append, take-append_length,
  drop-append_length, replicate, leb, ◌==◌,
}
use proto_q.Prelude.Bytes.{same_below, same_below→eq}
use proto_q.Errors.{ok}
use proto_q.Packet.{be16, read_be16}
use proto_q.WebSocket.{
  WsConn, WsError, WsTurn, filled, read_full, on_filled, with_number, ws_header, be64, read_be64,
  read_turn, read_header, read_length, read_key, read_payload,
}

le→leb : (a b : ℕ) → a ≤ b → leb a b ≡ true
le→leb a b h = ground arith

leb-append : (xs ys : List ℕ) → leb (length xs) (length (xs ++ ys)) ≡ true
leb-append xs ys = le→leb (length xs) (length (xs ++ ys)) (omega (arith, length-append xs ys))

pub read_full-append :
    (xs rest : List ℕ) (w : WsConn)
    → read_full (length xs) (record w { stream = xs ++ rest })
      ≡ filled xs (record w { stream = rest })
unfolding read_full
read_full-append xs rest w =
    rw (read_full, leb-append xs rest, take-append_length xs rest, drop-append_length xs rest) refl

first_byte : (opcode : ℕ) → opcode < 16 → bit_and (bit_or 0x80 opcode) 0x0f ≡ opcode
unfolding same_below
first_byte opcode h = same_below→eq (λ i. bit_and (bit_or 0x80 i) 0x0f) (λ i. i) 16 refl opcode h

short_length : (n : ℕ) → n < 128 → bit_and n 0x7f ≡ n
unfolding same_below
short_length n h = same_below→eq (λ i. bit_and i 0x7f) (λ i. i) 128 refl n h

no_mask : (n : ℕ) → n < 128 → bit_and n 0x80 ≡ 0
unfolding same_below
no_mask n h = same_below→eq (λ i. bit_and i 0x80) (λ i. 0) 128 refl n h

be64-read_be64 : (n : ℕ) → n < 2 ^ 64 → read_be64 (be64 n) ≡ ok n
be64-read_be64 n h = ap ok (omega arith)

be16-read_be16 : (n : ℕ) → n ≤ 65535 → read_be16 (be16 (n % 2 ^ 16)) ≡ ok n
be16-read_be16 n h = ap ok (omega arith)

length_cases :
    (n : ℕ)
    → (leb n 125 ≡ true)
      ⊎ (((leb n 125 ≡ false) × (leb n 65535 ≡ true))
          ⊎ ((leb n 125 ≡ false) × (leb n 65535 ≡ false)))
length_cases n = ground arith

leb→le : (a b : ℕ) → leb a b ≡ true → a ≤ b
leb→le a b h = ground arith

module _ (max_slice : ℕ) (raw_write : List ℕ → Option WsError) where
  on_header :
      (h0 h1 : ℕ) (tail p : List ℕ) (w : WsConn)
      → read_turn max_slice raw_write p (record w { stream = (h0 ∷ h1 ∷ []) ++ tail })
        ≡ read_header max_slice raw_write (h0 ∷ h1 ∷ []) p (record w { stream = tail })
  unfolding read_turn
  on_header h0 h1 tail p w =
      ap (λ f. on_filled f p (λ header w'. read_header max_slice raw_write header p w'))
        (read_full-append (h0 ∷ h1 ∷ []) tail w)

  plain_header :
      (opcode h1 : ℕ) (p : List ℕ) (w : WsConn)
      → opcode < 16
      → h1 < 128
      → read_header max_slice raw_write (bit_or 0x80 opcode ∷ h1 ∷ []) p w
        ≡ read_length max_slice raw_write opcode false h1 p w
  plain_header opcode h1 p w small short =
      rw (read_header, first_byte opcode small, no_mask h1 short, short_length h1 short) refl

  at_once :
      (opcode n : ℕ) (p : List ℕ) (w : WsConn)
      → n < 126
      → read_length max_slice raw_write opcode false n p w
        ≡ read_payload max_slice raw_write opcode false (replicate 4 0) n p w
  at_once opcode n p w h =
      let other : (k : ℕ) → n < k → (n == k) ≡ false = λ k less. ground arith in
      rw (read_length, other 126 h, other 127 (omega (arith, h))) refl

  wide_length :
      (opcode n : ℕ) (tail p : List ℕ) (w : WsConn)
      → n ≤ 65535
      → read_length max_slice raw_write opcode false 126 p
          (record w { stream = be16 (n % 2 ^ 16) ++ tail })
        ≡ read_payload max_slice raw_write opcode false
            (replicate 4 0)
            n
            p
            (record w { stream = tail })
  wide_length opcode n tail p w h =
      let k : ℕ → WsConn → WsTurn = λ len w'. read_key max_slice raw_write opcode false len p w' in
      ap (λ f. on_filled f p (λ ext w'. with_number (read_be16 ext) (λ len. k len w')))
        (read_full-append (be16 (n % 2 ^ 16)) tail w)
      ∙ ap (λ r. with_number r (λ len. k len (record w { stream = tail }))) (be16-read_be16 n h)

  widest_length :
      (opcode n : ℕ) (tail p : List ℕ) (w : WsConn)
      → n < 2 ^ 64
      → read_length max_slice raw_write opcode false 127 p (record w { stream = be64 n ++ tail })
        ≡ read_payload max_slice raw_write opcode false
            (replicate 4 0)
            n
            p
            (record w { stream = tail })
  widest_length opcode n tail p w h =
      let k : ℕ → WsConn → WsTurn = λ len w'. read_key max_slice raw_write opcode false len p w' in
      ap (λ f. on_filled f p (λ ext w'. with_number (read_be64 ext) (λ len. k len w')))
        (read_full-append (be64 n) tail w)
      ∙ ap (λ r. with_number r (λ len. k len (record w { stream = tail }))) (be64-read_be64 n h)

  -- A header is read back, in each of its three forms.
  pub read_turn-ws_header :
      (opcode n : ℕ) (tail p : List ℕ) (w : WsConn)
      → opcode < 16
      → n < 2 ^ 64
      → read_turn max_slice raw_write p (record w { stream = ws_header opcode n ++ tail })
        ≡ read_payload max_slice raw_write opcode false
            (replicate 4 0)
            n
            p
            (record w { stream = tail })
  read_turn-ws_header opcode n tail p w small fits =
      let h0 = bit_or 0x80 opcode in
      elim (length_cases n) [
        | inl short ↦
            let le = leb→le n 125 short in
            rw (ws_header, short)
              (on_header h0 n tail p w
                ∙ (plain_header opcode n p (record w { stream = tail }) small (omega (arith, le))
                    ∙ at_once opcode n p (record w { stream = tail }) (omega (arith, le))))
        | inr (inl (long, wide)) ↦
            rw (ws_header, long, wide)
              (on_header h0 126 (be16 (n % 2 ^ 16) ++ tail) p w
                ∙ (plain_header opcode 126 p (record w { stream = be16 (n % 2 ^ 16) ++ tail }) small
                      (omega arith)
                    ∙ wide_length opcode n tail p w (leb→le n 65535 wide)))
        | inr (inr (long, wider)) ↦
            rw (ws_header, long, wider)
              (on_header h0 127 (be64 n ++ tail) p w
                ∙ (plain_header opcode 127 p (record w { stream = be64 n ++ tail }) small
                      (omega arith)
                    ∙ widest_length opcode n tail p w fits))
      ]

  -- The whole frame with its header, followed by more.
  pub frame_turn :
      (opcode : ℕ) (payload rest p : List ℕ) (w : WsConn)
      → opcode < 16
      → length payload < 2 ^ 64
      → read_turn max_slice raw_write p
          (record w { stream = (ws_header opcode (length payload) ++ payload) ++ rest })
        ≡ read_payload max_slice raw_write opcode false
            (replicate 4 0)
            (length payload)
            p
            (record w { stream = payload ++ rest })
  frame_turn opcode payload rest p w small fits =
      let header = ws_header opcode (length payload) in
      ap (λ (t : List ℕ). read_turn max_slice raw_write p (record w { stream = t }))
        (append_assoc header payload rest)
      ∙ read_turn-ws_header opcode (length payload) (payload ++ rest) p w small fits
