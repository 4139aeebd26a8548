-- ===== src/Prelude/Maps.antt =====
-- Go's maps with integer keys, as association lists that hold each key at most once.
use Prim.Native.Nat.{ℕ, suc}
use mathlib.Core.Path.{◌≡◌, refl, sym, ap, ◌∙◌, subst}
use mathlib.Core.Logic.{◌≢◌, inl, inr}
use mathlib.Core.Bool.{Bool, true, false}
use mathlib.Core.Option.{Option, none, some}
use mathlib.Core.List.{List, [], ◌∷◌}
use native.Mathlib.Omega.{arith}
use proto_q.Prelude.Tests.{◌==◌, if◌then◌else◌, Bool-cases}
use proto_q.Prelude.Lists.{length}

abbrev pub Map {ℓ} : Type ℓ → Type ℓ
Map V = List (ℕ × V)

unfoldable pub find {ℓ} : {V : Type ℓ} → ℕ → Map V → Option V
find k [] = none
find k ((j, v) ∷ m) = let rest = find k m in if k == j then some v else rest

unfoldable pub erase {ℓ} : {V : Type ℓ} → ℕ → Map V → Map V
erase k [] = []
erase k ((j, v) ∷ m) = let rest = erase k m in if k == j then rest else (j, v) ∷ rest

unfoldable pub put {ℓ} : {V : Type ℓ} → ℕ → V → Map V → Map V
put k v m = (k, v) ∷ erase k m

abbrev pub has_key {ℓ} : {V : Type ℓ} → ℕ → Map V → Bool
has_key k m = elim (find k m) [ some v ↦ true | none ↦ false ]

unfoldable pub IsMap {ℓ} : {V : Type ℓ} → Map V → Type ℓ
IsMap [] = Unit {ℓ}
IsMap ((j, v) ∷ m) = (find j m ≡ none) × IsMap m

==-same : (k : ℕ) → (k == k) ≡ true
==-same k = ground arith

==-differs : (j k : ℕ) → j ≢ k → (j == k) ≡ false
==-differs j k h = ground arith

==-eq : (j k : ℕ) → (j == k) ≡ true → j ≡ k
==-eq j k h = ground arith

module _ {ℓ} {V : Type ℓ} where
  pub find-erase_same : (k : ℕ) (m : Map V) → find k (erase k m) ≡ none
  unfolding find erase
  find-erase_same k [] = refl
  find-erase_same k ((j, v) ∷ m) = elim (Bool-cases (k == j)) [
    | inl e ↦ rw e (find-erase_same k m)
    | inr e ↦ rw (e, e) (find-erase_same k m)
  ]

  pub find-erase_other : (i k : ℕ) (m : Map V) → i ≢ k → find i (erase k m) ≡ find i m
  unfolding find erase
  find-erase_other i k [] h = refl
  find-erase_other i k ((j, v) ∷ m) h = elim (Bool-cases (k == j)) [
    | inl e ↦
        let differs = ==-differs i j (λ same. h (same ∙ sym (==-eq k j e))) in
        rw (e, differs) (find-erase_other i k m h)
    | inr e ↦ rw (e, find-erase_other i k m h) refl
  ]

  pub find-put_same : (k : ℕ) (v : V) (m : Map V) → find k (put k v m) ≡ some v
  unfolding find put
  find-put_same k v m = rw (==-same k) refl

  pub find-put_other : (i k : ℕ) (v : V) (m : Map V) → i ≢ k → find i (put k v m) ≡ find i m
  unfolding find put
  find-put_other i k v m h = rw (==-differs i k h) (find-erase_other i k m h)

  pub erase-absent : (k : ℕ) (m : Map V) → find k m ≡ none → erase k m ≡ m
  unfolding find erase
  erase-absent k [] h = refl
  erase-absent k ((j, v) ∷ m) h = elim (Bool-cases (k == j)) [
    | inl e ↦ absurd (ground (arith, h, e))
    | inr e ↦ rw e (ap (λ t. (j, v) ∷ t) (erase-absent k m (rw e at h)))
  ]

  pub length-erase :
      (k : ℕ) (v : V) (m : Map V)
      → IsMap m
      → find k m ≡ some v
      → suc (length (erase k m)) ≡ length m
  unfolding find erase IsMap
  length-erase k v [] i h = absurd (cc (h))
  length-erase k v ((j, w) ∷ m) i h = elim (Bool-cases (k == j)) [
    | inl e ↦
        let absent : find k m ≡ none = subst (λ (t : ℕ). find t m ≡ none) (sym (==-eq k j e)) i.0 in
        rw (e, erase-absent k m absent) refl
    | inr e ↦ rw e (ap suc (length-erase k v m i.1 (rw e at h)))
  ]

  find_absent : (i k : ℕ) (m : Map V) → find i m ≡ none → find i (erase k m) ≡ none
  unfolding find erase
  find_absent i k m h = elim (Bool-cases (i == k)) [
    | inl e ↦ rw (==-eq i k e) (find-erase_same k m)
    | inr e ↦ find-erase_other i k m (λ same. absurd (ground (arith, e, same))) ∙ h
  ]

  pub erase-IsMap : (k : ℕ) (m : Map V) → IsMap m → IsMap (erase k m)
  unfolding erase IsMap
  erase-IsMap k [] i = i
  erase-IsMap k ((j, v) ∷ m) i = elim (Bool-cases (k == j)) [
    | inl e ↦ rw e (erase-IsMap k m i.1)
    | inr e ↦ rw e (find_absent j k m i.0, erase-IsMap k m i.1)
  ]

  pub put-IsMap : (k : ℕ) (v : V) (m : Map V) → IsMap m → IsMap (put k v m)
  unfolding put IsMap
  put-IsMap k v m i = (find-erase_same k m, erase-IsMap k m i)

  pub erase-put : (k : ℕ) (v : V) (m : Map V) → find k m ≡ none → erase k (put k v m) ≡ m
  unfolding put erase
  erase-put k v m h = rw (==-same k, erase-absent k m h, erase-absent k m h) refl

  pub find-erase-some :
      (i k : ℕ) (v : V) (m : Map V) → find i (erase k m) ≡ some v → (find i m ≡ some v) × (i ≢ k)
  find-erase-some i k v m h = elim (Bool-cases (i == k)) [
    | inl e ↦
        let gone : find i (erase k m) ≡ none = rw (==-eq i k e) (find-erase_same k m) in
        absurd (cc (h, gone))
    | inr e ↦
        let differs : i ≢ k = λ same. absurd (ground (arith, e, same)) in
        (sym (find-erase_other i k m differs) ∙ h, differs)
  ]
