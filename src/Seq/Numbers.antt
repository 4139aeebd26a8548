-- ===== src/Seq/Numbers.antt =====
-- The numbers that `Allocate` of conn/seq.go hands out.
use proto_q.Prelude.{
  ℕ, ◌+◌, ◌-◌, ◌^◌, ◌≤◌, ◌<◌, ◌≡◌, inl, inr, refl, arith, true, false, Bool-cases, ◌==◌,
  if◌then◌else◌, ◌&&◌, has_key,
}
use proto_q.Seq.{SeqManager, new_seq_manager, next_after, increment, allocate}

-- The largest number that a field of the manager's length holds.
abbrev pub limit : ℕ → ℕ
limit seq_len = if seq_len == 2 then 65535 else 2 ^ 32 - 1

-- The next number is not 0 and fits its field.
pub record IsReady (sm : SeqManager) : Type 0 where
  pub positive : 0 < sm.next
  pub fits : sm.next ≤ limit sm.seq_len

pub new_seq_manager-IsReady : (n : ℕ) → IsReady (new_seq_manager n)
unfolding new_seq_manager
new_seq_manager-IsReady n = record { positive = omega arith; fits = ground arith }

next_after-bounds :
    (seq_len n : ℕ)
    → n ≤ limit seq_len
    → (0 < next_after seq_len n)
      × (next_after seq_len n < limit seq_len)
      × (increment (next_after seq_len n) ≡ next_after seq_len n + 1)
unfolding next_after
next_after-bounds seq_len n h = ground arith

-- A manager that is open hands out a number that is not 0 and fits the sequence field, and is ready
-- for the next one; a closed manager hands out 0 and changes nothing.
pub allocate-IsReady :
    (sm : SeqManager)
    → IsReady sm
    → (sm.closed ≡ true → allocate sm ≡ (0, sm))
      × (sm.closed ≡ false
          → (0 < (allocate sm).0) × ((allocate sm).0 ≤ limit sm.seq_len) × IsReady (allocate sm).1)
unfolding allocate
allocate-IsReady sm h =
    let b = next_after-bounds sm.seq_len sm.next h.fits in
    (
      λ e. rw (allocate, e) refl,
      λ e. elim (Bool-cases (has_key sm.next sm.pending)) [
        | inl taken ↦
            rw (allocate, e, taken)
              (
                b.0,
                omega (arith, b.1),
                record { positive = omega (arith, b.2); fits = omega (arith, b.1, b.2) },
              )
        | inr free ↦
            rw (allocate, e, free)
              (h.positive, h.fits, record { positive = b.0; fits = omega (arith, b.1) })
      ],
    )

-- The number that `Allocate` hands out is pending already exactly where both the next number and
-- the one after it are: the number that replaces a pending one is not looked up.
pub allocate-pending :
    (sm : SeqManager)
    → sm.closed ≡ false
    → has_key (allocate sm).0 sm.pending
      ≡ (has_key sm.next sm.pending && has_key (next_after sm.seq_len sm.next) sm.pending)
unfolding allocate
allocate-pending sm e = elim (Bool-cases (has_key sm.next sm.pending)) [
  | inl taken ↦ rw (allocate, e, taken) refl
  | inr free ↦ rw (allocate, e, free) free
]
