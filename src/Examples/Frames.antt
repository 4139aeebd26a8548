-- ===== src/Examples/Frames.antt =====
-- A frame with all fields, its bytes, and a stream that holds them in two reads.
use proto_q.Prelude.{ℕ, ◌%◌, ◌≡◌, ◌≢◌, refl, arith, none, List, [], ◌∷◌, ◌++◌, length, inl}
use proto_q.Errors.{ok}
use proto_q.Flags.{has_body_len, opcode_len, seq_len, crc_len, validate, requires_ack, is_response}
use proto_q.Packet.{PacketData, has_body, frame_size, write_at, copy_at, slice, put_uint_n}
use proto_q.Crc.{
  table_round, table_rounds, crc16_ibm_table, crc16_step, crc16_from, crc16_ibm, compute_crc,
}
use proto_q.Crc.Detect.{crc16_ibm_detects}
use proto_q.Encoder.{put_crc, encode_valid, encode}
use proto_q.Encoder.Frame.{frame_bytes}
use proto_q.Encoder.Stores.{encoded, encode-frame_bytes}
use proto_q.Encoder.Encodable.{IsEncodable}
use proto_q.Stream.{Decoder, Read, new_decoder, add64}
use proto_q.Stream.Ready.{pending}
use proto_q.Decoder.{decode, packet}
use proto_q.Decoder.Position.{IsBetween}
use proto_q.Decoder.RoundTrip.{decode-encode}
use proto_q.Decoder.Sequence.{encode_all, Reads, count_up, decode-encode_all}

-- `crc32.ChecksumIEEE` is not used by frames of two checksum bytes: any function serves.
abbrev pub no_crc32 : List ℕ → ℕ
no_crc32 bytes = 0

-- A request with an acknowledgement, a body, an opcode and a number of two bytes, and a checksum.
abbrev pub asked : PacketData
asked = record { flags = 0x6b; opcode = 0x0101; seq = 7; body = 1 ∷ 2 ∷ 3 ∷ [] }

abbrev pub wire : List ℕ
wire = 81 ∷ 107 ∷ 0 ∷ 9 ∷ 1 ∷ 1 ∷ 0 ∷ 7 ∷ 1 ∷ 2 ∷ 3 ∷ 245 ∷ 178 ∷ 0 ∷ 0 ∷ 0 ∷ []

pub wire_lem : encode no_crc32 asked ≡ ok wire
unfolding encode encode_valid put_crc has_body_len opcode_len seq_len crc_len validate requires_ack
    is_response write_at copy_at slice put_uint_n compute_crc crc16_ibm crc16_from crc16_step
    crc16_ibm_table table_rounds table_round
wire_lem = refl

pub asked-IsEncodable : IsEncodable asked
unfolding validate requires_ack is_response has_body_len opcode_len seq_len crc_len
asked-IsEncodable = record {
  valid = refl;
  opcode_fits = omega arith;
  seq_fits = omega arith;
  payload_fits = omega arith;
}

-- A zero, the frame and a further byte, in two reads that part the frame.
abbrev cut_reads : List Read
cut_reads =
    record { bytes = 0 ∷ 81 ∷ 107 ∷ 0 ∷ []; error = none }
    ∷ record {
      bytes = 9 ∷ 1 ∷ 1 ∷ 0 ∷ 7 ∷ 1 ∷ 2 ∷ 3 ∷ 245 ∷ 178 ∷ 0 ∷ 0 ∷ 0 ∷ 81 ∷ [];
      error = none;
    }
    ∷ []

cut_reads-IsBetween : IsBetween ((0 ∷ []) ++ (wire ++ (81 ∷ []))) 0 (new_decoder cut_reads)
unfolding new_decoder pending
cut_reads-IsBetween = record {
  idle = record {
    state = refl;
    place = refl;
    same = refl;
    room = (omega arith, inl refl);
    calm = ((refl, omega arith), ((refl, omega arith), tt));
    frames = refl;
    reached = omega arith;
  };
  no_body = refl;
}

decode-encode_example :
    (d' : Decoder) × (decode no_crc32 9 (new_decoder cut_reads) ≡ packet asked d')
    × IsBetween (81 ∷ []) (add64 0 1) d'
decode-encode_example =
    decode-encode no_crc32 (0 ∷ []) wire (81 ∷ []) 0 9 asked (new_decoder cut_reads)
      asked-IsEncodable wire_lem (omega arith, tt) cut_reads-IsBetween (omega arith)

encode-frame_bytes_example :
    (encode no_crc32 asked
      ≡ encoded (validate asked.flags (has_body asked.body)) (frame_bytes no_crc32 asked))
    × (length (frame_bytes no_crc32 asked) ≡ frame_size asked)
    × (frame_size asked % 4 ≡ 0)
encode-frame_bytes_example = encode-frame_bytes no_crc32 asked

-- The body's bytes 1 and 2 exchanged.
crc16_ibm_detects_example :
    crc16_ibm ((107 ∷ []) ++ (1 ∷ 2 ∷ (3 ∷ []))) ≢ crc16_ibm ((107 ∷ []) ++ (2 ∷ 1 ∷ (3 ∷ [])))
crc16_ibm_detects_example =
    crc16_ibm_detects (107 ∷ []) (3 ∷ []) 1 2 2 1 (omega arith, tt) (omega arith, tt) (omega arith)
      (omega arith) (omega arith) (omega arith) (λ same. omega (arith, same.0))

wires_lem : encode_all no_crc32 (asked ∷ asked ∷ []) ≡ ok (wire ++ wire)
unfolding encode_all
wires_lem = rw (encode_all, wire_lem) refl

-- Two frames in one read.
abbrev both_reads : List Read
both_reads = record { bytes = wire ++ wire; error = none } ∷ []

both_reads-IsBetween : IsBetween ((wire ++ wire) ++ []) 0 (new_decoder both_reads)
unfolding new_decoder pending
both_reads-IsBetween = record {
  idle = record {
    state = refl;
    place = refl;
    same = refl;
    room = (omega arith, inl refl);
    calm = ((refl, omega arith), tt);
    frames = refl;
    reached = omega arith;
  };
  no_body = refl;
}

decode-encode_all_example :
    (d' : Decoder) × Reads no_crc32 (new_decoder both_reads) (asked ∷ asked ∷ []) d'
    × IsBetween [] (count_up 0 (asked ∷ asked ∷ [])) d'
decode-encode_all_example =
    decode-encode_all no_crc32 (asked ∷ asked ∷ []) (wire ++ wire) [] 0 (new_decoder both_reads)
      (asked-IsEncodable, (asked-IsEncodable, tt)) wires_lem both_reads-IsBetween
