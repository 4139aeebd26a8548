-- ===== src/WebSocket/Streams.antt =====
-- Frames of the protocol over a WebSocket connection: conn/encoder.go writes each of them with one
-- `Write` of conn/ws.go, and the reads of conn/decoder.go on the other side are calls of `Read`.
use proto_q.Prelude.{
  ℕ, zero, suc, ◌≤◌, ◌≡◌, refl, ap, sym, subst, ◌∙◌, arith, Option, none, List, [], ◌∷◌, ◌++◌,
  append_assoc, append-nil, map, length, take, drop, take-append_length, All, inl,
}
use proto_q.Errors.{Result, ok, err, panic, ◌>>=◌}
use proto_q.Packet.{PacketData}
use proto_q.Encoder.{encode}
use proto_q.Encoder.Encodable.{IsEncodable}
use proto_q.Stream.{Decoder, Read, read_buffer_size, new_decoder}
use proto_q.Stream.Ready.{pending, IsCalm}
use proto_q.Decoder.Position.{IsBetween}
use proto_q.Decoder.Sequence.{encode_all, Reads, count_up, decode-encode_all}
use proto_q.WebSocket.{WsConn, WsError, WsTurn, returned, ws_write, ws_read}
use proto_q.WebSocket.Reading.{data_frame, ws_write-data_frame, ws_read-data_frame}

abbrev pub joined : List (List ℕ) → List ℕ
joined [] = []
joined (b ∷ bs) = b ++ joined bs

-- What a reader without an error delivers.
abbrev pub delivered : List ℕ → Read
delivered bytes = record { bytes = bytes; error = none }

-- The decoder's read of what a call of `Read` returned.
abbrev turn_reads : WsTurn → (WsConn → List Read) → List Read
turn_reads (returned n none p w) next = delivered (take n p) ∷ next w
turn_reads _ next = []

module _ (max_slice : ℕ) (raw_write : List ℕ → Option WsError) where
  -- One `Write` for each of the byte slices.
  unfoldable pub write_each : List (List ℕ) → WsConn → WsConn
  write_each [] w = w
  write_each (b ∷ bs) w = write_each bs (ws_write raw_write b w).1.1

  -- So many calls of `Read` with the buffer `p`, up to the first that fails.
  unfoldable pub read_calls : ℕ → ℕ → List ℕ → WsConn → List Read
  read_calls fuel zero p w = []
  read_calls fuel (suc n) p w =
      turn_reads (ws_read max_slice raw_write fuel p w) (read_calls fuel n p)

  module _ (accepts : (bytes : List ℕ) → raw_write bytes ≡ none) where
    write_each-written :
        (bs : List (List ℕ)) (w : WsConn)
        → (write_each bs w).written ≡ w.written ++ map (data_frame max_slice raw_write) bs
    unfolding write_each
    write_each-written [] w = sym (append-nil w.written)
    write_each-written (b ∷ bs) w =
        let first = ws_write-data_frame max_slice raw_write b w (accepts _) in
        ap (λ r. (write_each bs r.1.1).written) first
        ∙ (write_each-written bs _ ∙ append_assoc w.written _ _)

    module _ (fuel : ℕ) (p : List ℕ) (slices : read_buffer_size ≤ max_slice)
        (buffer : read_buffer_size ≤ length p) where
      read_calls-delivered :
          (bs : List (List ℕ)) (w : WsConn)
          → All (λ b. length b ≤ read_buffer_size) bs
          → w.stream ≡ joined (map (data_frame max_slice raw_write) bs)
          → read_calls (suc fuel) (length bs) p w ≡ map delivered bs
      unfolding read_calls
      read_calls-delivered [] w small holds = refl
      read_calls-delivered (b ∷ bs) w small holds =
          let rest = joined (map (data_frame max_slice raw_write) bs) in
          let call =
            ws_read-data_frame max_slice raw_write b rest p fuel w (omega (arith, small.0))
              (omega (arith, small.0)) (omega (arith, small.0)) in
          ap
            (λ s.
              turn_reads (ws_read max_slice raw_write (suc fuel) p (record w { stream = s }))
                (read_calls (suc fuel) (length bs) p))
            holds
          ∙ (ap (λ t. turn_reads t (read_calls (suc fuel) (length bs) p)) call
              ∙ (ap
                    (λ t.
                      delivered t
                      ∷ read_calls (suc fuel) (length bs) p (record w { stream = rest }))
                    (take-append_length b (drop (length b) p))
                  ∙ ap (λ t. delivered b ∷ t)
                      (read_calls-delivered bs (record w { stream = rest }) small.1 refl)))

delivered-pending : (bs : List (List ℕ)) → pending (map delivered bs) ≡ joined bs
unfolding pending
delivered-pending [] = refl
delivered-pending (b ∷ bs) = ap (λ t. b ++ t) (delivered-pending bs)

delivered-IsCalm :
    (bs : List (List ℕ)) → All (λ b. length b ≤ read_buffer_size) bs → IsCalm (map delivered bs)
delivered-IsCalm [] small = tt
delivered-IsCalm (b ∷ bs) small = ((refl, small.0), delivered-IsCalm bs small.1)

new_decoder-IsBetween :
    (reads : List Read) → IsCalm reads → IsBetween (pending reads) 0 (new_decoder reads)
unfolding new_decoder
new_decoder-IsBetween reads calm = record {
  idle = record {
    state = refl;
    place = refl;
    same = refl;
    room = (omega arith, inl refl);
    calm = calm;
    frames = refl;
    reached = omega arith;
  };
  no_body = refl;
}

abbrev all_joined : Result (List (List ℕ)) → Result (List ℕ)
all_joined r = r >>= (λ t. ok (joined t))

joined-bind :
    (r q : Result (List ℕ)) (q' : Result (List (List ℕ)))
    → q ≡ all_joined q'
    → (r >>= (λ b. q >>= (λ t. ok (b ++ t)))) ≡ all_joined (r >>= (λ b. q' >>= (λ t. ok (b ∷ t))))
joined-bind (ok b) q (ok t) h = ap (λ x. x >>= (λ t'. ok (b ++ t'))) h
joined-bind (ok b) q (err e) h = ap (λ x. x >>= (λ t'. ok (b ++ t'))) h
joined-bind (ok b) q panic h = ap (λ x. x >>= (λ t'. ok (b ++ t'))) h
joined-bind (err e) q q' h = refl
joined-bind panic q q' h = refl

module _ (crc32_ieee : List ℕ → ℕ) where
  -- The encodings of the frames.
  unfoldable pub encode_each : List PacketData → Result (List (List ℕ))
  encode_each [] = ok []
  encode_each (f ∷ fs) = do bytes ← encode crc32_ieee f; rest ← encode_each fs; ok (bytes ∷ rest)

  encode_all-joined :
      (fs : List PacketData) → encode_all crc32_ieee fs ≡ all_joined (encode_each fs)
  unfolding encode_all encode_each
  encode_all-joined [] = refl
  encode_all-joined (f ∷ fs) =
      joined-bind (encode crc32_ieee f) (encode_all crc32_ieee fs) (encode_each fs)
        (encode_all-joined fs)

  -- Encodable frames are encoded, and each is written with one `Write` of a WebSocket connection
  -- that has written nothing and whose socket takes all that is written to it. The other side's
  -- socket receives these bytes, and a decoder reads from it by as many calls of `Read` as there
  -- are frames, each with a buffer of at least 4096 bytes. If no frame has more than 4096 bytes, and
  -- a slice may have so many, then as many calls of `Decode` return exactly these frames in order,
  -- and nothing is left unread.
  pub decode-write_each :
      (max_slice : ℕ) (raw_write : List ℕ → Option WsError) (fuel : ℕ) (p : List ℕ)
      (fs : List PacketData) (bs : List (List ℕ)) (sender receiver : WsConn)
      → ((bytes : List ℕ) → raw_write bytes ≡ none)
      → read_buffer_size ≤ max_slice
      → read_buffer_size ≤ length p
      → All IsEncodable fs
      → encode_each fs ≡ ok bs
      → All (λ b. length b ≤ read_buffer_size) bs
      → sender.written ≡ []
      → receiver.stream ≡ joined (write_each max_slice raw_write bs sender).written
      → (d' : Decoder) × Reads crc32_ieee
          (new_decoder (read_calls max_slice raw_write (suc fuel) (length bs) p receiver))
          fs
          d'
        × IsBetween [] (count_up 0 fs) d'
  decode-write_each max_slice raw_write fuel p fs bs sender receiver accepts slices buffer e written
        small fresh stream =
      let wire =
        write_each-written max_slice raw_write accepts bs sender
        ∙ ap (λ t. t ++ map (data_frame max_slice raw_write) bs) fresh in
      let reads =
        read_calls-delivered max_slice raw_write accepts fuel p slices buffer bs receiver small
          (stream ∙ ap joined wire) in
      let bytes : pending (map delivered bs) ≡ joined bs ++ [] =
        delivered-pending bs ∙ sym (append-nil (joined bs)) in
      let between = new_decoder-IsBetween (map delivered bs) (delivered-IsCalm bs small) in
      let (d', decodes, end) =
        decode-encode_all crc32_ieee fs (joined bs) [] 0 (new_decoder (map delivered bs)) e
          (encode_all-joined fs ∙ ap all_joined written)
          (subst (λ t. IsBetween t 0 (new_decoder (map delivered bs))) bytes between) in
      (d', subst (λ rs. Reads crc32_ieee (new_decoder rs) fs d') (sym reads) decodes, end)
