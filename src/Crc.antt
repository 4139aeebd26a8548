-- ===== src/Crc.antt =====
-- conn/crc.go: the checksums of a frame. `crc32.ChecksumIEEE` is Go's, and is a parameter.
-- A uint16 is a number below 2 ^ 16.
pub mod Xor
pub mod Detect
use proto_q.Prelude.{
  ℕ, zero, suc, ◌/◌, ◌%◌, ◌^◌, Bool, true, false, not, ◌&&◌, List, [], ◌∷◌, length, ◌==◌,
  if◌then◌else◌, bit_and, bit_xor,
}
use proto_q.Packet.{be16, be32}

-- One of the eight rounds of `init` on a table entry.
unfoldable pub table_round : ℕ → ℕ
table_round crc = if not (bit_and crc 1 == 0) then bit_xor (crc / 2) 0xa001 else crc / 2

unfoldable pub table_rounds : ℕ → ℕ → ℕ
unfolding table_round
table_rounds zero crc = crc
table_rounds (suc j) crc = table_rounds j (table_round crc)

-- `crc16IBMTable[i]`
unfoldable pub crc16_ibm_table : ℕ → ℕ
unfolding table_rounds
crc16_ibm_table i = table_rounds 8 i

-- `(crc >> 8) ^ crc16IBMTable[byte(crc)^b]`
unfoldable pub crc16_step : ℕ → ℕ → ℕ
unfolding crc16_ibm_table
crc16_step crc b = bit_xor (crc / 256) (crc16_ibm_table (bit_xor (crc % 256) b))

unfoldable pub crc16_from : ℕ → List ℕ → ℕ
unfolding crc16_step
crc16_from crc [] = crc
crc16_from crc (b ∷ data') = crc16_from (crc16_step crc b) data'

unfoldable pub crc16_ibm : List ℕ → ℕ
unfolding crc16_from
crc16_ibm bytes = crc16_from 0 bytes

-- The byte loop of `VerifyCRC`, over slices of one length.
unfoldable pub same_bytes : List ℕ → List ℕ → Bool
same_bytes [] expected = true
same_bytes (c ∷ cs) [] = true
same_bytes (c ∷ cs) (e ∷ es) = (c == e) && same_bytes cs es

module _ (crc32_ieee : List ℕ → ℕ) where
  unfoldable pub compute_crc : List ℕ → ℕ → List ℕ
  compute_crc bytes crc_len =
      if crc_len == 2
      then be16 (crc16_ibm bytes)
      else if crc_len == 4
      then be32 (crc32_ieee bytes)
      else []

  unfoldable pub verify_crc : List ℕ → List ℕ → ℕ → Bool
  unfolding same_bytes
  verify_crc bytes expected crc_len =
      let computed = compute_crc bytes crc_len in
      if not (length computed == length expected) then false else same_bytes computed expected
