-- ===== src/Encoder/Buffer.antt =====
-- Stores into a buffer whose end is still zero: each adds its bytes behind what is there.
use proto_q.Prelude.{
  ℕ, zero, suc, ◌+◌, ◌-◌, ◌≤◌, ◌≡◌, refl, ap, sym, ◌∙◌, arith, true, leb, List, [], ◌∷◌, ◌++◌,
  append_assoc, length, take, drop, replicate, length-append, length-replicate, take-append_length,
}
use proto_q.Errors.{ok}
use proto_q.Packet.{write_at, copy_at, slice}

pub replicate_eq {ℓ} : {A : Type ℓ} (x : A) {m n : ℕ} → m ≡ n → replicate m x ≡ replicate n x
replicate_eq x e = ap (λ k. replicate k x) e

drop-replicate {ℓ} : {A : Type ℓ} (k n : ℕ) (x : A) → drop k (replicate n x) ≡ replicate (n - k) x
drop-replicate zero n x = replicate_eq x (omega arith)
drop-replicate (suc k) zero x = replicate_eq x {m = 0} {n = 0 - suc k} (omega arith)
drop-replicate (suc k) (suc n) x =
    drop-replicate k n x ∙ replicate_eq x {m = n - k} {n = suc n - suc k} (omega arith)

pub drop-append_add {ℓ} :
    {A : Type ℓ} (xs ys : List A) (k : ℕ) → drop (length xs + k) (xs ++ ys) ≡ drop k ys
drop-append_add [] ys k = let e : 0 + k ≡ k = omega arith in rw e
drop-append_add (x ∷ xs) ys k =
    let e : suc (length xs) + k ≡ suc (length xs + k) = omega arith in
    rw e (drop-append_add xs ys k)

leb_of_le : (a b : ℕ) → a ≤ b → leb a b ≡ true
leb_of_le a b h = ground arith

pub take_all {ℓ} : {A : Type ℓ} (n : ℕ) (xs : List A) → length xs ≤ n → take n xs ≡ xs
take_all zero [] h = refl
take_all zero (x ∷ xs) h = absurd (omega arith)
take_all (suc n) [] h = refl
take_all {A} (suc n) (x ∷ xs) h = ap (λ (t : List A). x ∷ t) (take_all n xs (omega arith))

-- A copy that fits is a plain store.
copy_at-write_at :
    (buf : List ℕ) (offset : ℕ) (bytes : List ℕ)
    → offset + length bytes ≤ length buf
    → copy_at buf offset bytes ≡ write_at buf offset bytes
unfolding copy_at write_at
copy_at-write_at buf offset bytes fits = rw (
  leb_of_le (offset + length bytes) (length buf) fits,
  leb_of_le offset (length buf) (omega arith),
  take_all (length buf - offset) bytes (omega arith),
)

module _ (front : List ℕ) (n offset : ℕ) (bytes : List ℕ) (here : offset ≡ length front)
    (room : length bytes ≤ n) where
  abbrev filled : List ℕ
  filled = (front ++ bytes) ++ replicate (n - length bytes) 0

  tail_zeros :
      drop (offset + length bytes) (front ++ replicate n 0) ≡ replicate (n - length bytes) 0
  tail_zeros =
      rw here (drop-append_add front (replicate n 0) (length bytes))
      ∙ drop-replicate (length bytes) n 0

  fits : offset + length bytes ≤ length (front ++ replicate n 0)
  fits = omega (arith, length-append front (replicate n 0), length-replicate {A = ℕ} n 0)

  pub write_at-fill : write_at (front ++ replicate n 0) offset bytes ≡ ok filled
  unfolding write_at
  write_at-fill =
      rw (leb_of_le _ _ fits, tail_zeros)
        (ap ok (
          rw here (ap (λ (t : List ℕ). t ++ (bytes ++ zeros)) (take-append_length front _))
          ∙ sym (append_assoc front bytes zeros)))
    where
      zeros : List ℕ
      zeros = replicate (n - length bytes) 0

  pub copy_at-fill : copy_at (front ++ replicate n 0) offset bytes ≡ ok filled
  copy_at-fill = copy_at-write_at _ offset bytes fits ∙ write_at-fill

-- The bytes behind the first and before `to`.
pub slice_middle :
    (x : ℕ) (xs ys : List ℕ) (to : ℕ) → to ≡ 1 + length xs → slice ((x ∷ xs) ++ ys) 1 to ≡ ok xs
unfolding slice
slice_middle x xs ys to e =
    let n : to - 1 ≡ length xs = omega arith in
    let low = leb_of_le 1 to (omega arith) in
    let high = leb_of_le to (length ((x ∷ xs) ++ ys)) (omega (arith, length-append xs ys)) in
    rw (low, high, n) (ap ok (take-append_length xs ys))
