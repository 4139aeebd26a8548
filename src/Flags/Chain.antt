-- ===== src/Flags/Chain.antt =====
-- Chains of the setters of flags.go, as the packet constructors make them.
use proto_q.Prelude.{ℕ, ◌≡◌, ap, ◌∙◌, Bool, ltb, if◌then◌else◌}
use proto_q.Flags.{
  Flags, IsByte, set_dir, set_requires_ack, set_body_len, set_opcode_len, set_seq_len, set_crc_len,
}
use proto_q.Flags.Setters.{
  Layout, layout, stored_len, set_dir-layout, set_requires_ack-layout, set_body_len-layout,
  set_opcode_len-layout, set_seq_len-layout, set_crc_len-layout,
}

-- A byte with its layout, and the setters on such a pair: chains of setters compute.
abbrev pub HasLayout : Flags → Layout → Type 0
HasLayout f l = IsByte f × (layout f ≡ l)

module _ {f : Flags} {l : Layout} (h : HasLayout f l) where
  pub dir_step : (v : Bool) → HasLayout (set_dir f v) (record l { response = v })
  dir_step v =
      let s = set_dir-layout f v h.0 in
      (s.0, s.1 ∙ ap {A = Layout} {B = Layout} (λ m. record m { response = v }) h.1)

  pub ack_step : (v : Bool) → HasLayout (set_requires_ack f v) (record l { ack = v })
  ack_step v =
      let s = set_requires_ack-layout f v h.0 in
      (s.0, s.1 ∙ ap {A = Layout} {B = Layout} (λ m. record m { ack = v }) h.1)

  pub body_step : (v : Bool) → HasLayout (set_body_len f v) (record l { body = v })
  body_step v =
      let s = set_body_len-layout f v h.0 in
      (s.0, s.1 ∙ ap {A = Layout} {B = Layout} (λ m. record m { body = v }) h.1)

  pub opcode_step :
      (n : ℕ) → HasLayout (set_opcode_len f n) (record l { opcode_bytes = stored_len n })
  opcode_step n =
      let s = set_opcode_len-layout f n h.0 in
      (s.0, s.1 ∙ ap {A = Layout} {B = Layout} (λ m. record m { opcode_bytes = stored_len n }) h.1)

  pub seq_step : (n : ℕ) → HasLayout (set_seq_len f n) (record l { seq_bytes = stored_len n })
  seq_step n =
      let s = set_seq_len-layout f n h.0 in
      (s.0, s.1 ∙ ap {A = Layout} {B = Layout} (λ m. record m { seq_bytes = stored_len n }) h.1)

  pub crc_step :
      (n : ℕ) → HasLayout (set_crc_len f n) (record l { crc_bytes = if ltb 0 n then 2 else 0 })
  crc_step n =
      let s = set_crc_len-layout f n h.0 in
      (
        s.0,
        s.1
            ∙ ap {A = Layout} {B = Layout} (λ m. record m { crc_bytes = if ltb 0 n then 2 else 0 })
                h.1,
      )
