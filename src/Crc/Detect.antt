-- ===== src/Crc/Detect.antt =====
-- What the checksum of conn/crc.go detects: any change within two neighbouring bytes.
use proto_q.Prelude.{
  ℕ, zero, suc, ◌+◌, ◌*◌, ◌/◌, ◌%◌, ◌^◌, ◌<◌, ◌≡◌, ◌≢◌, refl, ap, sym, ◌∙◌, Bool, true, arith, ◌==◌,
  ltb, ==_iff, ltb→lt, &&-eq_true, if◌then◌else◌, ◌&&◌, bit_xor, List, [], ◌∷◌, ◌++◌, All,
}
use proto_q.Prelude.Bytes.{holds_below, holds_below→true}
use proto_q.Flags.{IsByte}
use proto_q.Crc.{crc16_ibm_table, crc16_step, crc16_from, crc16_ibm}
use proto_q.Crc.Xor.{zero-xor, xor-div, xor-lt, xor_injective_left, xor_injective_right}

-- A round of the table undone: bit 15 tells whether the polynomial was added.
undo_round : ℕ → ℕ
undo_round crc = if ltb crc 0x8000 then crc * 2 else bit_xor crc 0xa001 * 2 + 1

undo_rounds : ℕ → ℕ → ℕ
unfolding undo_round
undo_rounds zero crc = crc
undo_rounds (suc j) crc = undo_rounds j (undo_round crc % 2 ^ 16)

-- The index of the table entry whose upper byte is `h`.
index_of : ℕ → ℕ
unfolding undo_rounds
index_of h = undo_rounds 8 (h * 256) % 256

entry_is_good : ℕ → Bool
unfolding crc16_ibm_table index_of
entry_is_good i = ltb (crc16_ibm_table i) 0x10000 && (index_of (crc16_ibm_table i / 256) == i)

entries_are_good : (i : ℕ) → i < 256 → entry_is_good i ≡ true
unfolding entry_is_good holds_below
entries_are_good = holds_below→true entry_is_good 256 refl

table_facts :
    (i : ℕ)
    → i < 256
    → (ltb (crc16_ibm_table i) 0x10000 ≡ true) × ((index_of (crc16_ibm_table i / 256) == i) ≡ true)
unfolding entry_is_good
table_facts i h = &&-eq_true _ _ (entries_are_good i h)

table-lt : (i : ℕ) → i < 256 → crc16_ibm_table i < 2 ^ 16
table-lt i h = ltb→lt _ _ (table_facts i h).0

-- The upper byte of a table entry tells its index.
table_upper_injective :
    (i j : ℕ) → i < 256 → j < 256 → crc16_ibm_table i / 256 ≡ crc16_ibm_table j / 256 → i ≡ j
table_upper_injective i j hi hj e =
    sym ((==_iff _ i).0 (table_facts i hi).1) ∙ ap index_of e ∙ (==_iff _ j).0 (table_facts j hj).1

-- The index that a step looks up.
abbrev lookup_index : ℕ → ℕ → ℕ
lookup_index c b = bit_xor (c % 256) b

lookup_index-lt : (c b : ℕ) → IsByte b → lookup_index c b < 256
lookup_index-lt c b hb = xor-lt 8 (c % 256) b (omega arith) hb

module _ (c b : ℕ) (hc : c < 2 ^ 16) (hb : IsByte b) where
  crc16_step-lt : crc16_step c b < 2 ^ 16
  unfolding crc16_step
  crc16_step-lt =
      xor-lt 16 (c / 256) (crc16_ibm_table (lookup_index c b)) (omega arith)
        (table-lt _ (lookup_index-lt c b hb))

  -- The upper byte of the new state is that of the table entry.
  crc16_step-upper : crc16_step c b / 256 ≡ crc16_ibm_table (lookup_index c b) / 256
  unfolding crc16_step
  crc16_step-upper =
      let low : c / 256 / 256 ≡ 0 = omega arith in
      xor-div 8 (c / 256) (crc16_ibm_table (lookup_index c b)) ∙ rw low (zero-xor _)

module _ (c d b e : ℕ) (hc : c < 2 ^ 16) (hd : d < 2 ^ 16) (hb : IsByte b) (he : IsByte e)
    (same : crc16_step c b / 256 ≡ crc16_step d e / 256) where
  same_index : lookup_index c b ≡ lookup_index d e
  same_index =
      table_upper_injective _ _ (lookup_index-lt c b hb) (lookup_index-lt d e he)
        (sym (crc16_step-upper c b hc hb) ∙ same ∙ crc16_step-upper d e hd he)

-- Two steps that agree came from states with one upper byte.
step_uppers :
    (c d b e : ℕ)
    → c < 2 ^ 16
    → d < 2 ^ 16
    → IsByte b
    → IsByte e
    → crc16_step c b ≡ crc16_step d e
    → c / 256 ≡ d / 256
unfolding crc16_step
step_uppers c d b e hc hd hb he same =
    let index = same_index c d b e hc hd hb he (ap (λ (t : ℕ). t / 256) same) in
    xor_injective_left (c / 256) (d / 256) (crc16_ibm_table (lookup_index d e))
      (ap (λ (t : ℕ). bit_xor (c / 256) (crc16_ibm_table t)) (sym index) ∙ same)

-- A step is injective in the state.
crc16_step-injective :
    (c d b : ℕ) → c < 2 ^ 16 → d < 2 ^ 16 → IsByte b → crc16_step c b ≡ crc16_step d b → c ≡ d
crc16_step-injective c d b hc hd hb same =
    let upper = step_uppers c d b b hc hd hb hb same in
    let index = same_index c d b b hc hd hb hb (ap (λ (t : ℕ). t / 256) same) in
    omega (arith, xor_injective_left (c % 256) (d % 256) b index)

-- From one state, steps on two bytes differ in their upper byte.
crc16_step_byte :
    (c b e : ℕ)
    → c < 2 ^ 16
    → IsByte b
    → IsByte e
    → crc16_step c b / 256 ≡ crc16_step c e / 256
    → b ≡ e
crc16_step_byte c b e hc hb he same =
    xor_injective_right (c % 256) b e (same_index c c b e hc hc hb he same)

crc16_from-lt : (c : ℕ) (xs : List ℕ) → c < 2 ^ 16 → All IsByte xs → crc16_from c xs < 2 ^ 16
unfolding crc16_from
crc16_from-lt c [] hc h = hc
crc16_from-lt c (x ∷ xs) hc h = crc16_from-lt (crc16_step c x) xs (crc16_step-lt c x hc h.0) h.1

crc16_from-injective :
    (c d : ℕ) (xs : List ℕ)
    → c < 2 ^ 16
    → d < 2 ^ 16
    → All IsByte xs
    → crc16_from c xs ≡ crc16_from d xs
    → c ≡ d
unfolding crc16_from
crc16_from-injective c d [] hc hd h e = e
crc16_from-injective c d (x ∷ xs) hc hd h e = crc16_step-injective c d x hc hd h.0 (
    crc16_from-injective (crc16_step c x) (crc16_step d x) xs (crc16_step-lt c x hc h.0)
      (crc16_step-lt d x hd h.0) h.1 e)

crc16_from-append :
    (c : ℕ) (xs ys : List ℕ) → crc16_from c (xs ++ ys) ≡ crc16_from (crc16_from c xs) ys
unfolding crc16_from
crc16_from-append c [] ys = refl
crc16_from-append c (x ∷ xs) ys = crc16_from-append (crc16_step c x) xs ys

-- `CRC16IBM` is a uint16 on every byte slice.
pub crc16_ibm-lt : (xs : List ℕ) → All IsByte xs → crc16_ibm xs < 2 ^ 16
unfolding crc16_ibm
crc16_ibm-lt xs h = crc16_from-lt 0 xs (omega arith) h

-- Two steps from one state on two pairs of bytes agree only if the pairs do.
two_steps :
    (c a b x y : ℕ)
    → c < 2 ^ 16
    → IsByte a
    → IsByte b
    → IsByte x
    → IsByte y
    → crc16_step (crc16_step c a) b ≡ crc16_step (crc16_step c x) y
    → (a ≡ x) × (b ≡ y)
two_steps c a b x y hc ha hb hx hy same =
    let sa = crc16_step-lt c a hc ha in
    let first =
      crc16_step_byte c a x hc ha hx
        (step_uppers _ _ b y sa (crc16_step-lt c x hc hx) hb hy same) in
    (
      first,
      crc16_step_byte (crc16_step c a) b y sa hb hy (
          ap (λ (t : ℕ). t / 256)
            (same ∙ ap (λ (t : ℕ). crc16_step (crc16_step c t) y) (sym first))),
    )

-- Two byte slices that differ only within two neighbouring bytes have different values of
-- `CRC16IBM`.
pub crc16_ibm_detects :
    (front back : List ℕ) (a b x y : ℕ)
    → All IsByte front
    → All IsByte back
    → IsByte a
    → IsByte b
    → IsByte x
    → IsByte y
    → ¬ ((a ≡ x) × (b ≡ y))
    → crc16_ibm (front ++ (a ∷ b ∷ back)) ≢ crc16_ibm (front ++ (x ∷ y ∷ back))
unfolding crc16_ibm crc16_from
crc16_ibm_detects front back a b x y hf hk ha hb hx hy differs e =
    let c = crc16_from 0 front in
    let hc = crc16_from-lt 0 front (omega arith) hf in
    let same : crc16_from c (a ∷ b ∷ back) ≡ crc16_from c (x ∷ y ∷ back) =
      sym (crc16_from-append 0 front _) ∙ e ∙ crc16_from-append 0 front _ in
    differs (
      two_steps c a b x y hc ha hb hx hy (
        crc16_from-injective _ _ back (crc16_step-lt _ b (crc16_step-lt c a hc ha) hb)
          (crc16_step-lt _ y (crc16_step-lt c x hc hx) hy) hk same))
