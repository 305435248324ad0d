-- ===== src/Rtp/Runs.antt =====
-- RtpHeader on single packets.
use namecon.Rtp.{write_fixed_header, parse, RtpHeader, header_length}
use namecon.Common.{
  ◌+◌, ◌≡◌, ◌≢◌, refl, some, none, true, false, [], ◌∷◌, arith, length, ◌<◌, ◌≤◌, All, ◌⊎◌, inl,
}
use namecon.Common.Bytes.{Bytes, IsByte}
use namecon.Rtp.RoundTrip.{parse-write, write-parse, parse-IsHeader}
use namecon.Rtp.Header.{IsHeader}
use namecon.Rtp.Length.{header_length_lem, header_length-padded, rfc_length}

-- Version 2, marker, payload type 96, sequence number 0x1234.
abbrev opus : RtpHeader
opus = record {
  version = 2;
  padding = false;
  extension = false;
  csrc_count = 0;
  marker = true;
  payload_type = 111;
  sequence_number = 0x1234;
  timestamp = 0xFFFFFFFF;
  ssrc = 0x40000001;
}

abbrev opus_bytes : Bytes
opus_bytes = 0x80 ∷ 0xEF ∷ 0x12 ∷ 0x34 ∷ 0xFF ∷ 0xFF ∷ 0xFF ∷ 0xFF ∷ 0x40 ∷ 0 ∷ 0 ∷ 1 ∷ 7 ∷ 8 ∷ []

-- Padding flag, one byte of payload, and a last byte that claims 200 bytes of padding.
abbrev overpadded : Bytes
overpadded = 0xA0 ∷ 0xEF ∷ 0x12 ∷ 0x34 ∷ 0xFF ∷ 0xFF ∷ 0xFF ∷ 0xFF ∷ 0x40 ∷ 0 ∷ 0 ∷ 1 ∷ 7 ∷ 200 ∷ []

opus-IsHeader : IsHeader opus
opus-IsHeader = record {
  version-lt = omega arith;
  csrc_count-lt = omega arith;
  payload_type-lt = omega arith;
  sequence_number-lt = omega arith;
  timestamp-lt = omega arith;
  ssrc-lt = omega arith;
}

abbrev zeros : Bytes
zeros = 0 ∷ 0 ∷ 0 ∷ 0 ∷ 0 ∷ 0 ∷ 0 ∷ 0 ∷ 0 ∷ 0 ∷ 0 ∷ 0 ∷ 7 ∷ 8 ∷ []

opus_bytes-IsByte : All IsByte opus_bytes
opus_bytes-IsByte = omega arith

parse-opus : parse opus_bytes ≡ some opus
unfolding parse
parse-opus = refl

write_opus : write_fixed_header zeros opus ≡ opus_bytes
unfolding write_fixed_header
write_opus = refl

parse-write_example : parse (write_fixed_header zeros opus) ≡ some opus
parse-write_example = parse-write opus zeros opus-IsHeader (omega arith)

write-parse_example : write_fixed_header opus_bytes opus ≡ opus_bytes
write-parse_example = write-parse opus_bytes opus opus_bytes-IsByte parse-opus

parse-IsHeader_example :
    ((length opus_bytes < 12) × (parse opus_bytes ≡ none))
    ⊎ ((12 ≤ length opus_bytes) × ((h : RtpHeader) × (parse opus_bytes ≡ some h) × IsHeader h))
parse-IsHeader_example = parse-IsHeader opus_bytes opus_bytes-IsByte

header_length_lem_example :
    (header_length opus_bytes ≡ 12)
    × (12 ≤ header_length opus_bytes)
    × (header_length opus_bytes ≤ 14)
header_length_lem_example = header_length_lem opus_bytes (omega arith) (omega arith) (inl refl)

header_length-padded_example :
    (rfc_length overpadded + 200 < 14 → header_length overpadded ≢ rfc_length overpadded)
    × (14 < 200 → 14 < header_length overpadded)
header_length-padded_example =
    header_length-padded overpadded (omega arith) (omega arith) refl (omega arith) (omega arith)
