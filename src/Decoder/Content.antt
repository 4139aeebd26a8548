-- ===== src/Decoder/Content.antt =====
-- A buffer that holds the front of a longer content.
use proto_q.Prelude.{
  ℕ, ◌+◌, ◌≤◌, ◌<◌, ◌≡◌, refl, ap, sym, ◌∙◌, arith, some, List, [], ◌∷◌, ◌++◌, length, drop,
  get_elem?, get_elem?-append_lt, drop-append_length, append_assoc, length-append, ◌%◌, ◌^◌, ◌-◌,
  take-append_length, leb, true,
}
use proto_q.Errors.{ok}
use proto_q.Packet.{be16, read_be16, slice}
use proto_q.Decoder.{suffix}

-- A long enough front of `xs ++ ys` begins with `xs`.
pub front_split {ℓ} :
    {A : Type ℓ} (xs ys b p : List A)
    → b ++ p ≡ xs ++ ys
    → length xs ≤ length b
    → (zs : List A) × (b ≡ xs ++ zs) × (zs ++ p ≡ ys)
front_split [] ys b p e h = (b, refl, e)
front_split (x ∷ xs) ys [] p e h = absurd (omega arith)
front_split {A} (x ∷ xs) ys (y ∷ b) p e h =
    let tails : b ++ p ≡ xs ++ ys = cc in
    let heads : y ≡ x = cc in
    let s = front_split xs ys b p tails (omega arith) in
    (s.0, rw heads (ap (λ (t : List A). x ∷ t) s.1), s.2)

pub get_elem?-append_length {ℓ} :
    {A : Type ℓ} (xs ys : List A) (x : A) → get_elem? (xs ++ (x ∷ ys)) (length xs) ≡ some x
get_elem?-append_length [] ys x = refl
get_elem?-append_length (z ∷ xs) ys x = get_elem?-append_length xs ys x

-- The byte at the end of `xs` in a front of `xs ++ (x ∷ ys)` that reaches over it.
pub front_byte :
    (xs ys b p : List ℕ) (x i : ℕ)
    → b ++ p ≡ xs ++ (x ∷ ys)
    → i ≡ length xs
    → i < length b
    → get_elem? b i ≡ some x
front_byte xs ys b p x i e here h =
    sym (get_elem?-append_lt i b p h) ∙ rw (e, here) (get_elem?-append_length xs ys x)

-- What stands behind `xs` in a front that reaches over `h`.
pub front_field :
    (xs h ys b p : List ℕ) (k : ℕ)
    → b ++ p ≡ xs ++ (h ++ ys)
    → k ≡ length xs
    → k + length h ≤ length b
    → (zs : List ℕ) × (drop k b ≡ h ++ zs) × (zs ++ p ≡ ys)
front_field xs h ys b p k e here room =
    let s =
      front_split (xs ++ h) ys b p (e ∙ sym (append_assoc xs h ys))
        (omega (arith, length-append xs h)) in
    (s.0, rw (here, s.1, append_assoc xs h s.0) (drop-append_length xs (h ++ s.0)), s.2)

-- A uint16 behind `xs` is read.
pub front_be16 :
    (xs ys b p : List ℕ) (v k : ℕ)
    → v < 2 ^ 16
    → b ++ p ≡ xs ++ (be16 (v % 2 ^ 16) ++ ys)
    → k ≡ length xs
    → k + 2 ≤ length b
    → read_be16 (drop k b) ≡ ok v
front_be16 xs ys b p v k fits e here room =
    let s = front_field xs (be16 (v % 2 ^ 16)) ys b p k e here room in rw s.1 (ap ok (omega arith))

-- The slice behind `xs`.
pub front_slice :
    (xs h ys b p : List ℕ) (from to : ℕ)
    → b ++ p ≡ xs ++ (h ++ ys)
    → from ≡ length xs
    → to ≡ from + length h
    → to ≤ length b
    → slice b from to ≡ ok h
unfolding slice
front_slice xs h ys b p from to e here there room =
    let s = front_field xs h ys b p from e here (omega arith) in
    let size : to - from ≡ length h = omega arith in
    let low : leb from to ≡ true = ground arith in
    let high : leb to (length b) ≡ true = ground arith in
    rw (low, high, size, s.1) (ap ok (take-append_length h s.0))

pub front_suffix :
    (xs h ys b p : List ℕ) (from : ℕ)
    → b ++ p ≡ xs ++ (h ++ ys)
    → from ≡ length xs
    → from + length h ≤ length b
    → (zs : List ℕ) × (suffix b from ≡ ok (h ++ zs))
front_suffix xs h ys b p from e here room =
    let s = front_field xs h ys b p from e here room in
    let low : leb from (length b) ≡ true = ground arith in (s.0, rw low (ap ok s.1))
