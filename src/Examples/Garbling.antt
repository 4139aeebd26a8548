-- ===== src/Examples/Garbling.antt =====
-- A frame that was changed on its way, and a good one behind it.
use proto_q.Prelude.{ℕ, ◌+◌, ◌≡◌, refl, arith, none, List, [], ◌∷◌, ◌++◌, inl}
use proto_q.Flags.{has_body_len, opcode_len, seq_len, crc_len, validate, requires_ack, is_response}
use proto_q.Packet.{PacketData}
use proto_q.Packet.Integers.{field_bytes}
use proto_q.Crc.{
  table_round, table_rounds, crc16_ibm_table, crc16_step, crc16_from, crc16_ibm, compute_crc,
  verify_crc, same_bytes,
}
use proto_q.Encoder.Frame.{length_bytes, covered, sealed, crc_bytes}
use proto_q.Encoder.Encodable.{IsEncodable}
use proto_q.Stream.{Decoder, Read, new_decoder, add64}
use proto_q.Stream.Ready.{pending}
use proto_q.Decoder.{decode, packet}
use proto_q.Decoder.Position.{IsBetween}
use proto_q.Decoder.Skipping.{Arrival, arrived, rounds, IsCorrupted, decode-arrived}
use proto_q.Decoder.Garbled.{IsGarbled, decode-garbled}
use proto_q.Examples.Frames.{no_crc32, asked, wire, wire_lem, asked-IsEncodable}

-- The body's bytes 2 and 3 arrive as 9 and 8.
abbrev changed : PacketData
changed = record asked { body = 1 ∷ 9 ∷ 8 ∷ [] }

changed-IsEncodable : IsEncodable changed
unfolding validate requires_ack is_response has_body_len opcode_len seq_len crc_len
changed-IsEncodable = record {
  valid = refl;
  opcode_fits = omega arith;
  seq_fits = omega arith;
  payload_fits = omega arith;
}

abbrev changed_wire : List ℕ
changed_wire = 81 ∷ 107 ∷ 0 ∷ 9 ∷ 1 ∷ 1 ∷ 0 ∷ 7 ∷ 1 ∷ 9 ∷ 8 ∷ 245 ∷ 178 ∷ 0 ∷ 0 ∷ 0 ∷ []

abbrev garbled_reads : List Read
garbled_reads = record { bytes = 0 ∷ (changed_wire ++ wire); error = none } ∷ []

changed-IsGarbled : IsGarbled asked changed
unfolding covered length_bytes field_bytes has_body_len opcode_len seq_len crc_len
changed-IsGarbled = record {
  encodable = changed-IsEncodable;
  flags = refl;
  front = 107 ∷ 0 ∷ 9 ∷ 1 ∷ 1 ∷ 0 ∷ 7 ∷ 1 ∷ [];
  back = [];
  a = 2;
  b = 3;
  x = 9;
  y = 8;
  sent = refl;
  received = refl;
  sent_bytes = ground arith;
  received_bytes = ground arith;
  changed = λ same. omega (arith, same.0);
}

garbled-IsBetween :
    IsBetween
      (((0 ∷ []) ++ sealed (crc_bytes no_crc32 asked) changed) ++ (wire ++ []))
      0
      (new_decoder garbled_reads)
unfolding new_decoder pending covered length_bytes field_bytes has_body_len opcode_len seq_len
    crc_len crc_bytes compute_crc crc16_ibm crc16_from crc16_step crc16_ibm_table table_rounds
    table_round
garbled-IsBetween = record {
  idle = record {
    state = refl;
    place = refl;
    same = refl;
    room = (omega arith, inl refl);
    calm = ((refl, omega arith), tt);
    frames = refl;
    reached = omega arith;
  };
  no_body = refl;
}

crc16_asked : crc_len asked.flags ≡ 2
unfolding crc_len
crc16_asked = refl

decode-garbled_example :
    (d' : Decoder) × (decode no_crc32 17 (new_decoder garbled_reads) ≡ packet asked d')
    × IsBetween [] (add64 0 1) d'
decode-garbled_example =
    decode-garbled no_crc32 (0 ∷ []) wire [] 0 asked changed asked (new_decoder garbled_reads)
      changed-IsGarbled crc16_asked (omega arith, tt) asked-IsEncodable wire_lem garbled-IsBetween

-- The checksum's second byte arrives as 0.
abbrev broken : Arrival
broken = record { noise = 7 ∷ []; fields = asked; crc = 245 ∷ 0 ∷ [] }

broken-IsCorrupted : IsCorrupted no_crc32 broken
unfolding covered length_bytes field_bytes has_body_len opcode_len seq_len crc_len compute_crc
    crc16_ibm crc16_from crc16_step crc16_ibm_table table_rounds table_round verify_crc same_bytes
broken-IsCorrupted = record {
  quiet = (omega arith, tt);
  encodable = asked-IsEncodable;
  size = refl;
  wrong = refl;
}

abbrev broken_wire : List ℕ
broken_wire = 7 ∷ 81 ∷ 107 ∷ 0 ∷ 9 ∷ 1 ∷ 1 ∷ 0 ∷ 7 ∷ 1 ∷ 2 ∷ 3 ∷ 245 ∷ 0 ∷ 0 ∷ 0 ∷ 0 ∷ []

abbrev broken_reads : List Read
broken_reads =
    record { bytes = broken_wire; error = none }
    ∷ record { bytes = broken_wire ++ wire; error = none }
    ∷ []

broken-IsBetween :
    IsBetween (arrived (broken ∷ broken ∷ []) ++ (wire ++ [])) 0 (new_decoder broken_reads)
unfolding new_decoder pending arrived covered length_bytes field_bytes has_body_len opcode_len
    seq_len crc_len
broken-IsBetween = record {
  idle = record {
    state = refl;
    place = refl;
    same = refl;
    room = (omega arith, inl refl);
    calm = ((refl, omega arith), ((refl, omega arith), tt));
    frames = refl;
    reached = omega arith;
  };
  no_body = refl;
}

decode-arrived_example :
    (d' : Decoder) × (decode no_crc32
        (rounds no_crc32 (broken ∷ broken ∷ []) + 8)
        (new_decoder broken_reads)
      ≡ packet asked d')
    × IsBetween [] (add64 0 1) d'
decode-arrived_example =
    decode-arrived no_crc32 (broken ∷ broken ∷ []) wire [] 0 asked (new_decoder broken_reads)
      (broken-IsCorrupted, (broken-IsCorrupted, tt)) asked-IsEncodable wire_lem broken-IsBetween
