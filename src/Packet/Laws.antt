-- ===== src/Packet/Laws.antt =====
-- The flags that the packet constructors of packet.go choose.
use proto_q.Prelude.{
  ℕ, ◌≡◌, refl, ap, ◌∙◌, Bool, true, false, arith, ◌==◌, ltb, if◌then◌else◌, List, ◌⊎◌, inl, inr,
}
use proto_q.Flags.{
  Flags, is_response, requires_ack, has_body_len, opcode_len, seq_len, crc_len, set_requires_ack,
  set_crc_len,
}
use proto_q.Flags.Setters.{Layout, layout, stored_len}
use proto_q.Flags.Chain.{HasLayout, dir_step, ack_step, body_step, opcode_step, seq_step, crc_step}
use proto_q.Packet.{
  has_body, field_len, new_request_packet, new_response_packet, new_notification_packet,
}

stored_len-field_len : (v : ℕ) → stored_len (field_len v) ≡ field_len v
unfolding field_len
stored_len-field_len v = ground arith

stored_len-seq_len : (f : Flags) → stored_len (seq_len f) ≡ seq_len f
unfolding seq_len
stored_len-seq_len f = ground arith

crc_len-cases : (f : Flags) → (crc_len f ≡ 0) ⊎ (crc_len f ≡ 2)
unfolding crc_len
crc_len-cases f = ground arith

-- A layout in the order of `Flags.Setters.Layout`.
abbrev pub shape : Bool → Bool → Bool → ℕ → ℕ → ℕ → Layout
shape response ack body op sq crc = record {
  response = response;
  ack = ack;
  body = body;
  opcode_bytes = op;
  seq_bytes = sq;
  crc_bytes = crc;
}

-- The sequence length of a request: at least 2 bytes where an answer is wanted.
abbrev pub request_seq_len : ℕ → Bool → ℕ
request_seq_len seq ack =
    if ack then (if field_len seq == 0 then 2 else field_len seq) else field_len seq

stored_len-request_seq_len :
    (seq : ℕ) (ack : Bool) → stored_len (request_seq_len seq ack) ≡ request_seq_len seq ack
unfolding field_len
stored_len-request_seq_len seq ack = ground arith

-- The steps that a constructor makes only on demand.
module _ {f : Flags} {l : Layout} (h : HasLayout f l) where
  if_ack_step :
      (ack : Bool)
      → l.ack ≡ false
      → HasLayout (if ack then set_requires_ack f true else f) (record l { ack = ack })
  if_ack_step true e = ack_step h true
  if_ack_step false e = (h.0, h.1 ∙ ap (λ b. record l { ack = b }) e)

  if_crc_step :
      (crc : Bool)
      → l.crc_bytes ≡ 0
      → HasLayout
          (if crc then set_crc_len f 2 else f)
          (record l { crc_bytes = if crc then 2 else 0 })
  if_crc_step true e = crc_step h 2
  if_crc_step false e = (h.0, h.1 ∙ ap (λ n. record l { crc_bytes = n }) e)

  same_crc_step :
      (crc : ℕ)
      → l.crc_bytes ≡ 0
      → (crc ≡ 0) ⊎ (crc ≡ 2)
      → HasLayout (if ltb 0 crc then set_crc_len f crc else f) (record l { crc_bytes = crc })
  same_crc_step crc e (inl c) = rw c (h.0, h.1 ∙ ap (λ n. record l { crc_bytes = n }) e)
  same_crc_step crc e (inr c) = rw c (crc_step h 2)

zero_HasLayout : HasLayout 0 (shape false false false 0 0 0)
unfolding layout is_response requires_ack has_body_len opcode_len seq_len crc_len
zero_HasLayout = (omega arith, refl)

-- The flags of `NewRequestPacket`: a request with the acknowledgement bit as asked for, a Length
-- field exactly where there is a body, the shortest opcode field that fits, a checksum of two bytes
-- or none, and the shortest number field, but two bytes for number 0 of an acknowledged request.
pub new_request_packet-layout :
    (opcode seq : ℕ) (body : List ℕ) (ack crc : Bool)
    → HasLayout (new_request_packet opcode seq body ack crc).flags (
        shape false ack
          (has_body body)
          (field_len opcode)
          (request_seq_len seq ack)
          (if crc then 2 else 0))
unfolding new_request_packet
new_request_packet-layout opcode seq body ack crc =
    let opened = opcode_step (dir_step zero_HasLayout false) (field_len opcode) in
    let bodied = body_step opened (has_body body) in
    let acked = if_ack_step bodied ack refl in
    let numbered = seq_step acked (request_seq_len seq ack) in
    let checked = if_crc_step numbered crc refl in
    rw (stored_len-field_len opcode, stored_len-request_seq_len seq ack) at checked

-- The flags of `NewResponsePacket`: a response without acknowledgement, a Length field exactly
-- where there is a body, the shortest opcode field that fits, and the lengths of number and
-- checksum that the request's flags have.
pub new_response_packet-layout :
    (opcode seq : ℕ) (body : List ℕ) (request : Flags)
    → HasLayout
        (new_response_packet opcode seq body request).flags
        (shape true false (has_body body) (field_len opcode) (seq_len request) (crc_len request))
unfolding new_response_packet
new_response_packet-layout opcode seq body request =
    let unacked = ack_step (dir_step zero_HasLayout true) false in
    let opened = opcode_step unacked (field_len opcode) in
    let numbered = seq_step opened (seq_len request) in
    let bodied = body_step numbered (has_body body) in
    let checked = same_crc_step bodied (crc_len request) refl (crc_len-cases request) in
    rw (stored_len-field_len opcode, stored_len-seq_len request) at checked

-- The flags of `NewNotificationPacket`: a request without acknowledgement and number, a Length
-- field exactly where there is a body, the shortest opcode field that fits, and the checksum asked
-- for.
pub new_notification_packet-layout :
    (opcode : ℕ) (body : List ℕ) (crc : Bool)
    → HasLayout
        (new_notification_packet opcode body crc).flags
        (shape false false (has_body body) (field_len opcode) 0 (if crc then 2 else 0))
unfolding new_notification_packet
new_notification_packet-layout opcode body crc =
    let unacked = ack_step (dir_step zero_HasLayout false) false in
    let opened = opcode_step unacked (field_len opcode) in
    let numbered = seq_step opened 0 in
    let bodied = body_step numbered (has_body body) in
    let checked = if_crc_step bodied crc refl in rw (stored_len-field_len opcode) at checked
