-- ===== src/Examples/Streams.antt =====
-- The decoder's end and the cutting of its stream, at concrete inputs.
use proto_q.Prelude.{ℕ, ◌≡◌, ◌⊎◌, inl, refl, arith, none, some, List, [], ◌∷◌, All}
use proto_q.Packet.{PacketData}
use proto_q.Stream.{Decoder, Read, ReadError, failed, new_decoder}
use proto_q.Decoder.{decode, packet, io_error}
use proto_q.Decoder.Progress.{IsBounded, IsSound}
use proto_q.Decoder.Progress.Total.{decode-total}
use proto_q.Decoder.Cutting.Decode.{IsCalmRead, IsTwinOutcome, decode-IsTwinOutcome}
use proto_q.Stream.Ready.{pending}

abbrev any_crc32 : List ℕ → ℕ
any_crc32 bytes = 0

-- Noise, half a frame, and an error of the reader.
abbrev broken_reads : List Read
broken_reads =
    record { bytes = 5 ∷ 81 ∷ 106 ∷ []; error = none }
    ∷ record { bytes = 0 ∷ 6 ∷ 1 ∷ []; error = some failed }
    ∷ []

broken_reads-IsSound : IsSound IsBounded (new_decoder broken_reads)
unfolding new_decoder
broken_reads-IsSound = record {
  room = (omega arith, inl refl);
  bounded = (omega arith, (omega arith, tt));
  reached = omega arith;
  shape = refl;
}

decode-total_example :
    ((f : PacketData) × (d' : Decoder) × (decode any_crc32 37 (new_decoder broken_reads)
        ≡ packet f d')
      × IsSound IsBounded d')
    ⊎ ((e : ReadError) × (d' : Decoder) × (decode any_crc32 37 (new_decoder broken_reads)
          ≡ io_error e d')
        × IsSound IsBounded d')
unfolding new_decoder pending
decode-total_example =
    decode-total IsBounded (λ r h. h) any_crc32 37 (new_decoder broken_reads) broken_reads-IsSound
      (omega arith)

abbrev in_one : List Read
in_one = record { bytes = 81 ∷ 106 ∷ 0 ∷ 6 ∷ []; error = none } ∷ []

abbrev in_three : List Read
in_three =
    record { bytes = 81 ∷ []; error = none }
    ∷ record { bytes = []; error = none }
    ∷ record { bytes = 106 ∷ 0 ∷ 6 ∷ []; error = none }
    ∷ []

new_decoder-IsSound :
    (reads : List Read) → All IsCalmRead reads → IsSound IsCalmRead (new_decoder reads)
unfolding new_decoder
new_decoder-IsSound reads calm = record {
  room = (omega arith, inl refl);
  bounded = calm;
  reached = omega arith;
  shape = refl;
}

decode-IsTwinOutcome_example :
    IsTwinOutcome
      (decode any_crc32 30 (new_decoder in_one))
      (decode any_crc32 30 (new_decoder in_three))
unfolding new_decoder pending
decode-IsTwinOutcome_example =
    decode-IsTwinOutcome any_crc32 30 (new_decoder in_one) (new_decoder in_three)
      (new_decoder-IsSound in_one ((refl, omega arith), tt))
      (new_decoder-IsSound in_three
        ((refl, omega arith), ((refl, omega arith), ((refl, omega arith), tt))))
      (refl, refl)
