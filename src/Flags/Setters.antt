-- ===== src/Flags/Setters.antt =====
-- The setters of flags.go as updates of the fields that a flags byte stands for.
use proto_q.Prelude.{
  ℕ, ◌≡◌, refl, Bool, true, false, arith, ◌==◌, ltb, if◌then◌else◌, not, lt→ltb, ◌&&◌, ◌⊎◌, inl,
  inr, zero, suc,
}
use proto_q.Prelude.Bytes.{holds_below, holds_below→true}
use proto_q.Flags.{
  Flags, IsByte, is_response, requires_ack, has_body_len, opcode_len, seq_len, crc_len, set_dir,
  set_requires_ack, set_body_len, set_opcode_len, set_seq_len, set_crc_len,
}

-- What a flags byte says of its frame.
pub record Layout : Type 0 where
  pub response : Bool
  pub ack : Bool
  pub body : Bool
  pub opcode_bytes : ℕ
  pub seq_bytes : ℕ
  pub crc_bytes : ℕ

unfoldable pub layout : Flags → Layout
layout f = record {
  response = is_response f;
  ack = requires_ack f;
  body = has_body_len f;
  opcode_bytes = opcode_len f;
  seq_bytes = seq_len f;
  crc_bytes = crc_len f;
}

same_bool : Bool → Bool → Bool
same_bool a b = if a then b else not b

same_layout : Layout → Layout → Bool
unfolding same_bool
same_layout l m =
    same_bool l.response m.response
    && same_bool l.ack m.ack
    && same_bool l.body m.body
    && (l.opcode_bytes == m.opcode_bytes)
    && (l.seq_bytes == m.seq_bytes)
    && (l.crc_bytes == m.crc_bytes)

same_layout→eq : (l m : Layout) → same_layout l m ≡ true → l ≡ m
unfolding same_layout
same_layout→eq l m h = ground arith

-- A setter is checked against the update of the layout at every byte.
module _ (s : Flags → Flags) (u : Layout → Layout) where
  sets : Flags → Bool
  unfolding same_layout layout
  sets f = ltb (s f) 256 && same_layout (layout (s f)) (u (layout f))

  sets→eq :
      holds_below sets 256 ≡ true
      → (f : Flags) → IsByte f
      → IsByte (s f) × (layout (s f) ≡ u (layout f))
  unfolding sets
  sets→eq e f h =
      let t = holds_below→true sets 256 e f h in (ground arith, same_layout→eq _ _ (ground arith))

-- The length that the setters store for `n`: 2 and 4 as they are, anything else as no field.
abbrev pub stored_len : ℕ → ℕ
stored_len n = if n == 2 then 2 else if n == 4 then 4 else 0

stored_len-cases : (n : ℕ) → (stored_len n ≡ 0) ⊎ ((stored_len n ≡ 2) ⊎ (stored_len n ≡ 4))
stored_len-cases n = ground arith

pub set_dir-layout :
    (f : Flags) (v : Bool)
    → IsByte f
    → IsByte (set_dir f v) × (layout (set_dir f v) ≡ record (layout f) { response = v })
unfolding sets set_dir holds_below is_response requires_ack has_body_len opcode_len seq_len crc_len
set_dir-layout f true h = sets→eq (λ g. set_dir g true) (λ l. record l { response = true }) refl f h
set_dir-layout f false h =
    sets→eq (λ g. set_dir g false) (λ l. record l { response = false }) refl f h

pub set_requires_ack-layout :
    (f : Flags) (v : Bool)
    → IsByte f
    → IsByte (set_requires_ack f v)
      × (layout (set_requires_ack f v) ≡ record (layout f) { ack = v })
unfolding sets set_requires_ack holds_below is_response requires_ack has_body_len opcode_len seq_len
    crc_len
set_requires_ack-layout f true h =
    sets→eq (λ g. set_requires_ack g true) (λ l. record l { ack = true }) refl f h
set_requires_ack-layout f false h =
    sets→eq (λ g. set_requires_ack g false) (λ l. record l { ack = false }) refl f h

pub set_body_len-layout :
    (f : Flags) (v : Bool)
    → IsByte f
    → IsByte (set_body_len f v) × (layout (set_body_len f v) ≡ record (layout f) { body = v })
unfolding sets set_body_len holds_below is_response requires_ack has_body_len opcode_len seq_len
    crc_len
set_body_len-layout f true h =
    sets→eq (λ g. set_body_len g true) (λ l. record l { body = true }) refl f h
set_body_len-layout f false h =
    sets→eq (λ g. set_body_len g false) (λ l. record l { body = false }) refl f h

set_opcode_len_table0 :
    (f : Flags)
    → IsByte f
    → IsByte (set_opcode_len f 0)
      × (layout (set_opcode_len f 0) ≡ record (layout f) { opcode_bytes = 0 })
unfolding sets set_opcode_len holds_below is_response requires_ack has_body_len opcode_len seq_len
    crc_len
set_opcode_len_table0 = sets→eq (λ g. set_opcode_len g 0) (λ l. record l { opcode_bytes = 0 }) refl

set_opcode_len_table2 :
    (f : Flags)
    → IsByte f
    → IsByte (set_opcode_len f 2)
      × (layout (set_opcode_len f 2) ≡ record (layout f) { opcode_bytes = 2 })
unfolding sets set_opcode_len holds_below is_response requires_ack has_body_len opcode_len seq_len
    crc_len
set_opcode_len_table2 = sets→eq (λ g. set_opcode_len g 2) (λ l. record l { opcode_bytes = 2 }) refl

set_opcode_len_table4 :
    (f : Flags)
    → IsByte f
    → IsByte (set_opcode_len f 4)
      × (layout (set_opcode_len f 4) ≡ record (layout f) { opcode_bytes = 4 })
unfolding sets set_opcode_len holds_below is_response requires_ack has_body_len opcode_len seq_len
    crc_len
set_opcode_len_table4 = sets→eq (λ g. set_opcode_len g 4) (λ l. record l { opcode_bytes = 4 }) refl

set_opcode_len-stored_len :
    (f : Flags) (n : ℕ) → set_opcode_len f n ≡ set_opcode_len f (stored_len n)
unfolding set_opcode_len
set_opcode_len-stored_len f n = ground arith

pub set_opcode_len-layout :
    (f : Flags) (n : ℕ)
    → IsByte f
    → IsByte (set_opcode_len f n)
      × (layout (set_opcode_len f n) ≡ record (layout f) { opcode_bytes = stored_len n })
set_opcode_len-layout f n h =
    rw (set_opcode_len-stored_len f n) (at_len (stored_len n) (stored_len-cases n))
  where
    at_len :
        (k : ℕ)
        → (k ≡ 0) ⊎ ((k ≡ 2) ⊎ (k ≡ 4))
        → IsByte (set_opcode_len f k)
          × (layout (set_opcode_len f k) ≡ record (layout f) { opcode_bytes = k })
    at_len k (inl e) = rw e (set_opcode_len_table0 f h)
    at_len k (inr (inl e)) = rw e (set_opcode_len_table2 f h)
    at_len k (inr (inr e)) = rw e (set_opcode_len_table4 f h)

set_seq_len_table0 :
    (f : Flags)
    → IsByte f
    → IsByte (set_seq_len f 0) × (layout (set_seq_len f 0) ≡ record (layout f) { seq_bytes = 0 })
unfolding sets set_seq_len holds_below is_response requires_ack has_body_len opcode_len seq_len
    crc_len
set_seq_len_table0 = sets→eq (λ g. set_seq_len g 0) (λ l. record l { seq_bytes = 0 }) refl

set_seq_len_table2 :
    (f : Flags)
    → IsByte f
    → IsByte (set_seq_len f 2) × (layout (set_seq_len f 2) ≡ record (layout f) { seq_bytes = 2 })
unfolding sets set_seq_len holds_below is_response requires_ack has_body_len opcode_len seq_len
    crc_len
set_seq_len_table2 = sets→eq (λ g. set_seq_len g 2) (λ l. record l { seq_bytes = 2 }) refl

set_seq_len_table4 :
    (f : Flags)
    → IsByte f
    → IsByte (set_seq_len f 4) × (layout (set_seq_len f 4) ≡ record (layout f) { seq_bytes = 4 })
unfolding sets set_seq_len holds_below is_response requires_ack has_body_len opcode_len seq_len
    crc_len
set_seq_len_table4 = sets→eq (λ g. set_seq_len g 4) (λ l. record l { seq_bytes = 4 }) refl

set_seq_len-stored_len : (f : Flags) (n : ℕ) → set_seq_len f n ≡ set_seq_len f (stored_len n)
unfolding set_seq_len
set_seq_len-stored_len f n = ground arith

pub set_seq_len-layout :
    (f : Flags) (n : ℕ)
    → IsByte f
    → IsByte (set_seq_len f n)
      × (layout (set_seq_len f n) ≡ record (layout f) { seq_bytes = stored_len n })
set_seq_len-layout f n h =
    rw (set_seq_len-stored_len f n) (at_len (stored_len n) (stored_len-cases n))
  where
    at_len :
        (k : ℕ)
        → (k ≡ 0) ⊎ ((k ≡ 2) ⊎ (k ≡ 4))
        → IsByte (set_seq_len f k)
          × (layout (set_seq_len f k) ≡ record (layout f) { seq_bytes = k })
    at_len k (inl e) = rw e (set_seq_len_table0 f h)
    at_len k (inr (inl e)) = rw e (set_seq_len_table2 f h)
    at_len k (inr (inr e)) = rw e (set_seq_len_table4 f h)

pub set_crc_len-layout :
    (f : Flags) (n : ℕ)
    → IsByte f
    → IsByte (set_crc_len f n)
      × (layout (set_crc_len f n) ≡ record (layout f) { crc_bytes = if ltb 0 n then 2 else 0 })
unfolding sets set_crc_len holds_below is_response requires_ack has_body_len opcode_len seq_len
    crc_len
set_crc_len-layout f zero h =
    sets→eq (λ g. set_crc_len g 0) (λ l. record l { crc_bytes = 0 }) refl f h
set_crc_len-layout f (suc n) h =
    rw (lt→ltb 0 (suc n) (omega arith))
      (sets→eq (λ g. set_crc_len g 1) (λ l. record l { crc_bytes = 2 }) refl f h)

-- On a byte, each setter stores its own field and leaves the other five as they were: a direction,
-- acknowledgement or body bit as given, a length of 2 or 4 as given and any other as 0, and a
-- checksum length as 2 if it is positive and as 0 if not. The result is a byte again.
pub setters-layout :
    (f : Flags) (v : Bool) (n : ℕ)
    → IsByte f
    → (IsByte (set_dir f v) × (layout (set_dir f v) ≡ record (layout f) { response = v }))
      × (IsByte (set_requires_ack f v)
          × (layout (set_requires_ack f v) ≡ record (layout f) { ack = v }))
      × (IsByte (set_body_len f v) × (layout (set_body_len f v) ≡ record (layout f) { body = v }))
      × (IsByte (set_opcode_len f n)
          × (layout (set_opcode_len f n) ≡ record (layout f) { opcode_bytes = stored_len n }))
      × (IsByte (set_seq_len f n)
          × (layout (set_seq_len f n) ≡ record (layout f) { seq_bytes = stored_len n }))
      × (IsByte (set_crc_len f n)
          × (layout (set_crc_len f n) ≡ record (layout f) { crc_bytes = if ltb 0 n then 2 else 0 }))
setters-layout f v n h = (
  set_dir-layout f v h,
  set_requires_ack-layout f v h,
  set_body_len-layout f v h,
  set_opcode_len-layout f n h,
  set_seq_len-layout f n h,
  set_crc_len-layout f n h,
)
