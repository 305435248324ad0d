-- ===== src/Rtp.antt =====
-- media-svc/rtp/RtpHeader.h and RtpHeader.cpp: the fixed RTP header. `memcpy` of a field with
-- `ntohs` or `ntohl` is a big-endian read; `>> k` and `<< k` are `/ 2 ^ k` and `* 2 ^ k`.
pub mod RoundTrip
pub mod Header
pub mod Length
mod Runs
use Prim.Native.Nat.{bit_and, bit_or}
use namecon.Common.{
  ℕ, ◌+◌, ◌-◌, ◌*◌, ◌/◌, ◌%◌, ◌^◌, ◌<◌, Bool, true, false, not, ◌&&◌, Option, none, some, List, [],
  ◌∷◌, length, ltb, leb, ◌==◌, if◌then◌else◌,
}
use namecon.Common.Bytes.{Bytes, be16, be32, byte, read16, read32, memcpy}

pub record RtpHeader : Type 0 where
  pub version : ℕ
  pub padding : Bool
  pub extension : Bool
  pub csrc_count : ℕ
  pub marker : Bool
  pub payload_type : ℕ
  pub sequence_number : ℕ
  pub timestamp : ℕ
  pub ssrc : ℕ

-- An integer as a `bool`, and back.
abbrev pub to_bool : ℕ → Bool
to_bool n = not (n == 0)

abbrev pub flag : Bool → ℕ
flag true = 1
flag false = 0

-- The fields of the twelve bytes that `parse` copies out.
abbrev pub fields : Bytes → RtpHeader
fields buf = record {
  version = bit_and (byte buf 0 / 2 ^ 6) 0x03;
  padding = to_bool (bit_and (byte buf 0 / 2 ^ 5) 0x01);
  extension = to_bool (bit_and (byte buf 0 / 2 ^ 4) 0x01);
  csrc_count = bit_and (byte buf 0) 0x0f;
  marker = to_bool (bit_and (byte buf 1 / 2 ^ 7) 0x01);
  payload_type = bit_and (byte buf 1) 0x7f;
  sequence_number = read16 buf 2;
  timestamp = read32 buf 4;
  ssrc = read32 buf 8;
}

-- `none` where the C++ returns `false`.
unfoldable pub parse : Bytes → Option RtpHeader
parse buf = if ltb (length buf) 12 then none else some (fields buf)

abbrev pub first_byte : RtpHeader → ℕ
first_byte hdr =
    bit_or
      (bit_or (bit_or (bit_and hdr.version 0x03 * 2 ^ 6) (flag hdr.padding * 2 ^ 5))
        (flag hdr.extension * 2 ^ 4))
      (bit_and hdr.csrc_count 0x0f)

abbrev pub second_byte : RtpHeader → ℕ
second_byte hdr = bit_or (flag hdr.marker * 2 ^ 7) (bit_and hdr.payload_type 0x7f)

-- The five copies into the first twelve bytes.
abbrev pub write_fields : Bytes → RtpHeader → Bytes
write_fields buf hdr =
    let b₁ = memcpy buf 0 (first_byte hdr ∷ []) in
    let b₂ = memcpy b₁ 1 (second_byte hdr ∷ []) in
    let b₃ = memcpy b₂ 2 (be16 hdr.sequence_number) in
    let b₄ = memcpy b₃ 4 (be32 hdr.timestamp) in memcpy b₄ 8 (be32 hdr.ssrc)

unfoldable pub write_fixed_header : Bytes → RtpHeader → Bytes
write_fixed_header buf hdr = if ltb (length buf) 12 then buf else write_fields buf hdr

-- `length += 4 + ntohs(extLen) * 4`, where the extension's own header is inside the buffer.
abbrev add_extension : Bytes → ℕ → ℕ
add_extension buf n =
    if to_bool (bit_and (byte buf 0 / 2 ^ 4) 0x01) && leb (n + 4) (length buf)
    then n + (4 + read16 buf (n + 2) * 4)
    else n

-- `size_t` subtraction.
abbrev pub size_sub : ℕ → ℕ → ℕ
size_sub a b = (a + 2 ^ 64 - b) % 2 ^ 64

-- `length = len - padLen`, where the padding flag is set and the last byte is not 0.
abbrev sub_padding : Bytes → ℕ → ℕ
sub_padding buf n =
    if to_bool (bit_and (byte buf 0 / 2 ^ 5) 0x01) && ltb 0 (length buf)
    then (let pad_len = byte buf (length buf - 1) in
        if ltb 0 pad_len then size_sub (length buf) pad_len else n)
    else n

pub header_length : Bytes → ℕ
header_length buf =
    if ltb (length buf) 12
    then 0
    else sub_padding buf (add_extension buf (12 + bit_and (byte buf 0) 0x0f * 4))
