-- ===== src/Packet/Integers.antt =====
-- The integer fields of packet.go: their lengths, and that what is written is read back.
use proto_q.Prelude.{
  ℕ, ◌%◌, ◌^◌, ◌≤◌, ◌<◌, ◌≡◌, refl, ap, arith, ◌==◌, if◌then◌else◌, List, [], ◌++◌, length, ◌⊎◌,
  inl, inr, All,
}
use proto_q.Errors.{ok}
use proto_q.Flags.{IsByte}
use proto_q.Packet.{field_len, be16, be32, put_uint_n, read_uint_n, write_at}

-- `fieldLen` chooses 0, 2 or 4 bytes; the value fits them, and no shorter choice would do.
pub field_len_least :
    (v n : ℕ)
    → v < 2 ^ 32
    → (n ≡ 0) ⊎ ((n ≡ 2) ⊎ (n ≡ 4))
    → (v < 256 ^ field_len v) × (v < 256 ^ n → field_len v ≤ n)
unfolding field_len
field_len_least v n h (inl e) = rw e (ground arith)
field_len_least v n h (inr (inl e)) = rw e (ground arith)
field_len_least v n h (inr (inr e)) = rw e (ground arith)

-- The bytes of a field of `n` bytes.
unfoldable pub field_bytes : ℕ → ℕ → List ℕ
field_bytes v n = if n == 2 then be16 (v % 2 ^ 16) else if n == 4 then be32 v else []

abbrev pub IsFieldLen : ℕ → Type 0
IsFieldLen n = (n ≡ 0) ⊎ ((n ≡ 2) ⊎ (n ≡ 4))

pub length-field_bytes : (v n : ℕ) → IsFieldLen n → length (field_bytes v n) ≡ n
unfolding field_bytes
length-field_bytes v n (inl e) = rw e refl
length-field_bytes v n (inr (inl e)) = rw e refl
length-field_bytes v n (inr (inr e)) = rw e refl

pub field_bytes-IsByte : (v n : ℕ) → IsFieldLen n → All IsByte (field_bytes v n)
unfolding field_bytes
field_bytes-IsByte v n (inl e) = rw e tt
field_bytes-IsByte v n (inr (inl e)) = rw e (omega arith)
field_bytes-IsByte v n (inr (inr e)) = rw e (omega arith)

pub put_uint_n-field_bytes :
    (buf : List ℕ) (offset v n : ℕ)
    → put_uint_n buf offset v n ≡ write_at buf offset (field_bytes v n)
unfolding put_uint_n field_bytes
put_uint_n-field_bytes buf offset v n = ground arith

-- A value that fits its field is read back, whatever follows it.
pub read_uint_n-field_bytes :
    (v n : ℕ) (rest : List ℕ)
    → IsFieldLen n
    → v < 256 ^ n
    → read_uint_n (field_bytes v n ++ rest) n ≡ ok v
unfolding read_uint_n field_bytes
read_uint_n-field_bytes v n rest (inl e) h = rw e (ap ok (ground arith))
read_uint_n-field_bytes v n rest (inr (inl e)) h = rw e (ap ok (ground arith))
read_uint_n-field_bytes v n rest (inr (inr e)) h = rw e (ap ok (ground arith))
