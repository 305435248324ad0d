-- ===== src/Rtp/Length.antt =====
-- RtpHeader::headerLength.
use namecon.Common.{
  if◌then◌else◌, ◌⊎◌, Bool, ℕ, ◌+◌, ◌-◌, ◌*◌, ◌/◌, ◌^◌, ◌≤◌, ◌<◌, ◌≡◌, ◌≢◌, arith, length, true,
  false,
}
use Prim.Native.Nat.{bit_and}
use namecon.Common.Bytes.{Bytes, byte, read16}
use namecon.Rtp.{to_bool, header_length}

-- The header's length by the format: 12 bytes, 4 for each CSRC, and with the extension flag an
-- extension of 4 bytes and as many words as it says.
abbrev pub rfc_length : Bytes → ℕ
rfc_length buf =
    let fixed = 12 + bit_and (byte buf 0) 0x0f * 4 in
    if to_bool (bit_and (byte buf 0 / 2 ^ 4) 0x01)
    then fixed + 4 + read16 buf (fixed + 2) * 4
    else fixed

abbrev pub padded : Bytes → Bool
padded buf = to_bool (bit_and (byte buf 0 / 2 ^ 5) 0x01)

-- On a buffer that holds the whole header and has no padding flag, or a padding of 0, the result is
-- the length of the format, and lies within the buffer.
pub header_length_lem :
    (buf : Bytes)
    → 12 ≤ length buf
    → rfc_length buf ≤ length buf
    → (padded buf ≡ false) ⊎ (byte buf (length buf - 1) ≡ 0)
    → (header_length buf ≡ rfc_length buf)
      × (12 ≤ header_length buf)
      × (header_length buf ≤ length buf)
unfolding header_length
header_length_lem buf long whole plain = ground arith

-- On a buffer of at least 12 and fewer than 2 ^ 63 bytes, with the padding flag and a last byte
-- that is not 0, the result is not the length of the header whenever header and padding leave room
-- for a payload, and where the last byte exceeds the buffer's length it is a length past the
-- buffer.
pub header_length-padded :
    (buf : Bytes)
    → 12 ≤ length buf
    → length buf < 2 ^ 63
    → padded buf ≡ true
    → 0 < byte buf (length buf - 1)
    → byte buf (length buf - 1) < 256
    → (rfc_length buf + byte buf (length buf - 1) < length buf → header_length buf ≢ rfc_length buf)
      × (length buf < byte buf (length buf - 1) → length buf < header_length buf)
unfolding header_length
header_length-padded buf long fits flagged pad pad_byte = (λ h e. ground arith, λ h. ground arith)
