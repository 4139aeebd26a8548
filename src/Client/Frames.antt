-- ===== src/Client/Frames.antt =====
-- The frames of client/client.go.
use proto_q.Prelude.{
  ℕ, ◌+◌, ◌^◌, ◌≤◌, ◌<◌, ◌≡◌, ◌≢◌, ◌⊎◌, inl, inr, refl, sym, subst, arith, Bool, true, false, List,
  length, if◌then◌else◌,
}
use proto_q.Flags.Setters.{stored_len}
use proto_q.Flags.Chain.{HasLayout, opcode_step, seq_step}
use proto_q.Packet.{has_body, new_request_packet}
use proto_q.Packet.Laws.{shape, new_request_packet-layout}
use proto_q.Encoder.Encodable.{IsEncodable}
use proto_q.Encoder.Layouts.{Fits-IsEncodable}
use proto_q.Seq.{allocate}
use proto_q.Seq.Numbers.{limit, IsReady, allocate-IsReady}
use proto_q.Client.{Client, request_frame}

-- The manager hands out numbers that are not 0 and fit the sequence field of the client's requests.
pub record IsNumbering (c : Client) : Type 0 where
  pub ready : IsReady c.seq_mgr
  pub same : c.seq_mgr.seq_len ≡ c.number_len
  pub either : (c.number_len ≡ 2) ⊎ (c.number_len ≡ 4)

-- The opcode fits the field that the client gives it, and the body leaves room for the other
-- fields.
pub record IsSendable (opcode : ℕ) (body : List ℕ) (c : Client) : Type 0 where
  pub opcode_fits : opcode < 256 ^ stored_len c.op_len
  pub body_fits : length body + 10 < 2 ^ 16

pub request_frame-layout :
    (opcode seq : ℕ) (body : List ℕ) (c : Client)
    → HasLayout (request_frame opcode seq body c).flags (
        shape false true
          (has_body body)
          (stored_len c.op_len)
          (stored_len c.number_len)
          (if c.use_crc then 2 else 0))
unfolding request_frame new_request_packet
request_frame-layout opcode seq body c =
    seq_step (opcode_step (new_request_packet-layout opcode seq body true c.use_crc) c.op_len)
      c.number_len

seq-fits :
    (n seq : ℕ)
    → (n ≡ 2) ⊎ (n ≡ 4)
    → seq ≤ limit n
    → (stored_len n ≢ 0) × (seq < 256 ^ stored_len n)
seq-fits n seq (inl e) =
    subst (λ (m : ℕ). seq ≤ limit m → (stored_len m ≢ 0) × (seq < 256 ^ stored_len m)) (sym e)
      (λ h. (λ zero. omega (arith, zero), omega (arith, h)))
seq-fits n seq (inr e) =
    subst (λ (m : ℕ). seq ≤ limit m → (stored_len m ≢ 0) × (seq < 256 ^ stored_len m)) (sym e)
      (λ h. (λ zero. omega (arith, zero), omega (arith, h)))

payload-fits :
    (a b n : ℕ) (crc : Bool)
    → n + 10 < 2 ^ 16
    → stored_len a + stored_len b + n + (if crc then 2 else 0) < 2 ^ 16
payload-fits a b n crc h = ground arith

-- The request that a client makes of an opcode which fits its opcode field, of a body that leaves
-- room for the other fields, and of the number that its open manager hands out, can be encoded.
pub request_frame-IsEncodable :
    (opcode : ℕ) (body : List ℕ) (c : Client)
    → IsNumbering c
    → c.seq_mgr.closed ≡ false
    → IsSendable opcode body c
    → IsEncodable (request_frame opcode (allocate c.seq_mgr).0 body c)
unfolding request_frame new_request_packet
request_frame-IsEncodable opcode body c h is_open sendable =
    let seq = (allocate c.seq_mgr).0 in
    let numbers = (allocate-IsReady c.seq_mgr h.ready).1 is_open in
    let fits = seq-fits c.number_len seq h.either (rw (sym h.same) numbers.1) in
    Fits-IsEncodable _ _ (request_frame-layout opcode seq body c) (record {
      numbered = λ _. fits.0;
      one_way = λ e. cc;
      bodied = refl;
      opcode = sendable.opcode_fits;
      seq = fits.1;
      payload = payload-fits c.op_len c.number_len (length body) c.use_crc sendable.body_fits;
    })
