-- ===== src/Decoder/Passing.antt =====
-- A decoder of conn/decoder.go that passes over one frame, whatever its checksum.
use proto_q.Prelude.{
  ℕ, ◌%◌, ◌^◌, ◌≡◌, ◌≢◌, refl, ap, sym, subst, ◌∙◌, arith, Bool, true, false, ltb→le, if◌then◌else◌,
  List, [], ◌∷◌, ◌++◌, append_assoc, append-nil, length, length-drop, length-append, Bool-cases,
  inl, inr, All,
}
use proto_q.Flags.{has_body_len, crc_len}
use proto_q.Flags.Validity.{validate-none_iff}
use proto_q.Packet.{PacketData, has_body, be16}
use proto_q.Encoder.{magic_byte, payload_len}
use proto_q.Encoder.Frame.{length_bytes, covered, sealed}
use proto_q.Encoder.Encodable.{IsEncodable}
use proto_q.Stream.{
  Decoder, State, state_magic, state_flags, state_padding, state_length, state_opcode, add64,
}
use proto_q.Decoder.{packet, again, step, step_at, finish, reset_frame, compact}
use proto_q.Decoder.Fields.{opcode_field, seq_field, behind}
use proto_q.Decoder.Position.{IsIn, HasFlags}
use proto_q.Decoder.Rounds.{
  step_magic_noise, step_magic_found, step_flags-HasFlags, step_length-body,
}
use proto_q.Decoder.Position.{IsBetween}
use proto_q.Decoder.Ending.{
  Ends, then-Ends, from_opcode, at_opcode, stream, IsPassed, step_padding-finish, step_in,
}
use proto_q.Decoder.Reaching.{
  Reaches, Reaches-here, Reaches-turn, Reaches-trans, Reaches-more, Yields, turn_returned,
}
use proto_q.Stream.Ready.{pending}
use proto_q.Decoder.Content.{front_field}
use proto_q.Decoder.Build.{accepts, verdict}

pub IsIn-content :
    {a b : List ℕ} {start count k : ℕ} {d : Decoder} {s : State}
    → a ≡ b
    → IsIn a start count d s k
    → IsIn b start count d s k
IsIn-content {start} {count} {k} {d} {s} e i = subst (λ c. IsIn c start count d s k) e i

IsIn-state :
    {content : List ℕ} {start count k l : ℕ} {d : Decoder} {s t : State}
    → s ≡ t
    → k ≡ l
    → IsIn content start count d s k
    → IsIn content start count d t l
IsIn-state {content} {start} {count} {k} {d} {t} e e' i =
    subst (λ n. IsIn content start count d t n) e' (subst (λ u. IsIn content start count d u k) e i)

module _ (crc32_ieee : List ℕ → ℕ) (crc pre rest : List ℕ) (count : ℕ) (f : PacketData)
    (size : length crc ≡ crc_len f.flags) (e : IsEncodable f) where
  abbrev after_length : List ℕ
  after_length =
      opcode_field crc pre rest f ++ (seq_field crc pre rest f ++ (f.body ++ behind crc pre rest f))

  stream_flags :
      stream crc32_ieee crc pre rest count f size
      ≡ pre ++ (magic_byte ∷ f.flags ∷ (length_bytes f ++ after_length))
  unfolding covered
  stream_flags = simp append_assoc

  no_body : has_body_len f.flags ≡ false → length f.body ≡ 0
  no_body no_length =
      let unused = ((validate-none_iff f.flags (has_body f.body)).0 e.valid).2 no_length in
      omega (arith, ltb→le 0 (length f.body) unused)

  abbrev E : Decoder → ℕ → Type 0
  E = Ends crc32_ieee crc pre rest count f size

  abbrev flagged : List ℕ
  flagged = pre ++ (magic_byte ∷ f.flags ∷ (length_bytes f ++ after_length))

  -- Behind the flags, with a Length field or without.
  with_length :
      (d : Decoder)
      → has_body_len f.flags ≡ true
      → HasFlags (length pre) d f
      → IsIn flagged (length pre) count d state_length 2
      → E d 5
  with_length d yes_length h i =
      let field : length_bytes f ≡ be16 (payload_len f % 2 ^ 16) =
        unfold length_bytes in rw yes_length refl in
      let cut : flagged
          ≡ pre ++ (magic_byte ∷ f.flags ∷ (be16 (payload_len f % 2 ^ 16) ++ after_length)) =
        ap (λ (t : List ℕ). pre ++ (magic_byte ∷ f.flags ∷ (t ++ after_length))) field in
      let (d', round, i', h', hb') =
        step_length-body pre after_length count f e (IsIn-content cut i) h in
      let k : 4 ≡ at_opcode crc32_ieee crc pre rest count f size = rw yes_length refl in
      then-Ends crc32_ieee crc pre rest count f size d d' state_length 4 i.state round (
        from_opcode crc32_ieee crc pre rest count f size d' h' hb'
          (IsIn-state refl k (IsIn-content (sym cut ∙ sym stream_flags) i')))

  without_length :
      (d : Decoder)
      → has_body_len f.flags ≡ false
      → HasFlags (length pre) d f
      → d.cur_body_len ≡ 0
      → IsIn flagged (length pre) count d state_opcode 2
      → E d 5
  without_length d no_length h hb i =
      let k : 2 ≡ at_opcode crc32_ieee crc pre rest count f size = rw no_length refl in
      let (end, reaches, padding) =
        from_opcode crc32_ieee crc pre rest count f size d h (hb ∙ sym (no_body no_length))
          (IsIn-state refl k (IsIn-content (sym stream_flags) i)) in
      (end, Reaches-more crc32_ieee d end 4 5 reaches (omega arith), padding)

  from_flags :
      (d : Decoder)
      → d.cur_frame_start ≡ length pre
      → d.cur_body_len ≡ 0
      → IsIn flagged (length pre) count d state_flags 1
      → E d 6
  from_flags d start hb i =
      let (d', round, i', h', hb') =
        step_flags-HasFlags pre (length_bytes f ++ after_length) count f i start in
      then-Ends crc32_ieee crc pre rest count f size d d' state_flags 5 i.state round
        (elim (Bool-cases (has_body_len f.flags)) [
          | inl yes_length ↦
              with_length d' yes_length h'
                (IsIn-state (ap (λ b. if b then state_length else state_opcode) yes_length) refl i')
          | inr no_length ↦
              without_length d' no_length h' (hb' ∙ hb)
                (IsIn-state (ap (λ b. if b then state_length else state_opcode) no_length) refl i')
        ])

  from_magic :
      (d : Decoder)
      → d.cur_body_len ≡ 0
      → IsIn (stream crc32_ieee crc pre rest count f size) (length pre) count d state_magic 0
      → E d 7
  from_magic d hb i =
      let i0 = IsIn-content stream_flags i in
      let (d', round, i', start, hb') =
        step_magic_found pre (f.flags ∷ (length_bytes f ++ after_length)) count i0 in
      then-Ends crc32_ieee crc pre rest count f size d d' state_magic 6 i.state round
        (from_flags d' start (hb' ∙ hb) i')

-- A decoder that has passed over `pre`, stands between two frames, and has `rest` still to read.
pub record IsIdle (pre rest : List ℕ) (count : ℕ) (d : Decoder) : Type 0 where
  pub within : IsIn (pre ++ rest) (length pre) count d state_magic 0
  pub no_body : d.cur_body_len ≡ 0

module _ (crc32_ieee : List ℕ → ℕ) (rest : List ℕ) (count : ℕ) where
  -- Bytes other than the magic one are passed over, one to a round.
  pub skip_noise :
      (noise pre : List ℕ) (d : Decoder)
      → All (λ x. x ≢ magic_byte) noise
      → IsIdle pre (noise ++ rest) count d
      → (d' : Decoder) × Reaches crc32_ieee d d' (length noise)
        × IsIdle (pre ++ noise) rest count d'
  unfolding step
  skip_noise [] pre d quiet idle = (
    d,
    Reaches-here crc32_ieee d,
    subst (λ (t : List ℕ). IsIdle t rest count d) (sym (append-nil pre)) idle,
  )
  skip_noise (x ∷ noise) pre d quiet idle =
      let i = idle.within in
      let (d', round, i', hb') = step_magic_noise pre (noise ++ rest) count x quiet.0 i in
      let joined = append_assoc pre (x ∷ []) noise in
      let moved : IsIdle (pre ++ (x ∷ [])) (noise ++ rest) count d' = record {
        within = record {
          state = i'.state;
          place = omega (arith, i'.place, length-append pre (x ∷ []));
          same = i'.same ∙ sym (append_assoc pre (x ∷ []) _);
          room = i'.room;
          calm = i'.calm;
          frames = i'.frames;
          reached = i'.reached;
        };
        no_body = hb' ∙ idle.no_body;
      } in
      let first : step crc32_ieee d ≡ again d' = ap (λ t. step_at crc32_ieee t d) i.state ∙ round in
      let (end, reaches, there) = skip_noise noise (pre ++ (x ∷ [])) d' quiet.1 moved in
      (
        end,
        Reaches-turn crc32_ieee d d' end (length noise) first reaches,
        subst (λ (t : List ℕ). IsIdle t rest count end) joined there,
      )

module _ (crc32_ieee : List ℕ → ℕ) (crc pre rest : List ℕ) (count : ℕ) (f : PacketData)
    (size : length crc ≡ crc_len f.flags) (e : IsEncodable f) (d : Decoder)
    (idle : IsIdle pre (sealed crc f ++ rest) count d) where
  -- The rounds up to the padding, and the one that builds the frame.
  passed :
      (verified : Bool)
      → accepts crc32_ieee crc f ≡ verified
      → (d1 : Decoder) × (d2 : Decoder) × Reaches crc32_ieee d d1 7
        × (step crc32_ieee d1 ≡ finish crc32_ieee d2 (verdict f verified))
        × IsPassed crc32_ieee crc pre rest count f size d2
  passed verified outcome =
      let (d1, reaches, padding) =
        from_magic crc32_ieee crc pre rest count f size e d idle.no_body idle.within in
      let (d2, (round, is_passed)) =
        step_padding-finish crc32_ieee crc pre rest count f size d1 padding e verified outcome in
      (
        d1,
        d2,
        reaches,
        step_in crc32_ieee crc pre rest count f size d1 state_padding padding.within.state ∙ round,
        is_passed,
      )

  -- A frame whose checksum is accepted is returned, and leaves the decoder between two frames.
  pub return_frame :
      accepts crc32_ieee crc f ≡ true
      → (d' : Decoder) × Yields crc32_ieee d 8 (packet f d') × IsBetween rest (add64 count 1) d'
  unfolding reset_frame compact
  return_frame accepted =
      let (d1, d2, reaches, round, p) = passed true accepted in
      let after = reset_frame (compact d2) in
      let d' : Decoder = record after { frames_decoded = add64 after.frames_decoded 1 } in
      let s =
        front_field (pre ++ sealed crc f) [] rest d2.buf (pending d2.reader) d2.buf_pos
          (p.same ∙ sym (append_assoc pre (sealed crc f) rest))
          (omega (arith, p.place, length-append pre (sealed crc f))) (omega (arith, p.inside)) in
      (
        d',
        reaches 1 (packet f d') (turn_returned crc32_ieee d1 d' f round),
        record {
          idle = record {
            state = refl;
            place = refl;
            same = rw s.1 s.2;
            room = (omega (arith, length-drop d2.buf_pos d2.buf, p.room.0), p.room.1);
            calm = p.calm;
            frames = ap (λ (n : ℕ). add64 n 1) p.frames;
            reached = omega arith;
          };
          no_body = refl;
        },
      )

  -- A frame whose checksum is not accepted is passed over.
  pub skip_frame :
      accepts crc32_ieee crc f ≡ false
      → (d' : Decoder) × Reaches crc32_ieee d d' 8 × IsIdle (pre ++ sealed crc f) rest count d'
  unfolding reset_frame
  skip_frame rejected =
      let (d1, d2, reaches, round, p) = passed false rejected in
      let d' = reset_frame d2 in
      (
        d',
        Reaches-trans crc32_ieee d d1 d' 7 1 reaches
            (Reaches-turn crc32_ieee d1 d' d' 0 round (Reaches-here crc32_ieee d')),
        record {
          within = record {
            state = refl;
            place = omega (arith, p.place, length-append pre (sealed crc f));
            same = p.same ∙ sym (append_assoc pre (sealed crc f) rest);
            room = p.room;
            calm = p.calm;
            frames = p.frames;
            reached = p.inside;
          };
          no_body = refl;
        },
      )
