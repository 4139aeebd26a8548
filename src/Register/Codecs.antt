-- ===== src/Register/Codecs.antt =====
-- Which codec `Match` of basic/register/bean.go picks.
use proto_q.Prelude.{
  ℕ, ◌≡◌, inl, inr, refl, sym, ◌∙◌, Bool, Bool-cases, true, false, some, [], ◌∷◌, ◌++◌,
  if◌then◌else◌,
}
use proto_q.Connection.{default_codec}
use proto_q.Register.{RegisteredCodec, CodecRegister, has_codec, register_codec, match_codec}

-- Some registered codec matches the type.
abbrev pub matched : ℕ → CodecRegister → Bool
matched t [] = false
matched t (c ∷ cs) = if c.matches t then true else matched t cs

match_codec-append :
    (t : ℕ) (r : CodecRegister) (c : RegisteredCodec)
    → (matched t r ≡ true → match_codec t (r ++ (c ∷ [])) ≡ match_codec t r)
      × (matched t r ≡ false
          → match_codec t (r ++ (c ∷ [])) ≡ (if c.matches t then c.codec else default_codec))
unfolding match_codec
match_codec-append t [] c = (λ e. absurd (cc e), λ e. refl)
match_codec-append t (d ∷ r) c = elim (Bool-cases (d.matches t)) [
  | inl hit ↦ (λ e. rw (match_codec, hit) refl, rw hit (λ e. absurd (cc e)))
  | inr miss ↦ let rest = match_codec-append t r c in rw (match_codec, miss) (rest.0, rest.1)
]

match_codec-unmatched :
    (t : ℕ) (r : CodecRegister) → matched t r ≡ false → match_codec t r ≡ default_codec
unfolding match_codec
match_codec-unmatched t [] e = refl
match_codec-unmatched t (d ∷ r) e = elim (Bool-cases (d.matches t)) [
  | inl hit ↦ absurd (true_not_false (sym (rw hit refl) ∙ e))
  | inr miss ↦ rw (match_codec, miss) (match_codec-unmatched t r (sym (rw miss refl) ∙ e))
]
  where
    true_not_false : true ≡ false → ⊥
    true_not_false e = cc e

-- Registering a codec does not change the codec of a type that a registered one matches already. A
-- type that none matches had the default codec, and has the new one if that matches it and its
-- pointer is not in the register; otherwise it has the default codec still.
pub match_codec-register_codec :
    (t : ℕ) (c : RegisteredCodec) (r : CodecRegister)
    → (matched t r ≡ true → match_codec t (register_codec (some c) r) ≡ match_codec t r)
      × (matched t r ≡ false
          → (match_codec t r ≡ default_codec)
            × (match_codec t (register_codec (some c) r) ≡ (
                if has_codec c.pointer r
                then default_codec
                else if c.matches t
                then c.codec
                else default_codec)))
unfolding register_codec
match_codec-register_codec t c r =
    let added = match_codec-append t r c in
    elim (Bool-cases (has_codec c.pointer r)) [
      | inl old ↦ (
        λ e. rw (register_codec, old) refl,
        λ e. (match_codec-unmatched t r e, rw (register_codec, old) (match_codec-unmatched t r e)),
      )
      | inr new ↦ (
        λ e. rw (register_codec, new) (added.0 e),
        λ e. (match_codec-unmatched t r e, rw (register_codec, new) (added.1 e)),
      )
    ]
