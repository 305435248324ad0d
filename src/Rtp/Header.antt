-- ===== src/Rtp/Header.antt =====
-- The two packed bytes of RtpHeader, field by field.
use namecon.Common.{
  ℕ, ◌+◌, ◌*◌, ◌/◌, ◌%◌, ◌^◌, ◌≤◌, ◌<◌, ◌≡◌, ◌∙◌, Bool, true, false, length, ltb, arith,
}
use namecon.Common.Bytes.{Bytes}
use Prim.Native.Nat.{bit_and}
use namecon.Common.Bits.{low_1, low_2, low_4, low_7, or_fields, or_7}
use namecon.Rtp.{RtpHeader, to_bool, flag, first_byte, second_byte}

-- Each field fits its width.
pub record IsHeader (h : RtpHeader) : Type 0 where
  pub version-lt : h.version < 4
  pub csrc_count-lt : h.csrc_count < 16
  pub payload_type-lt : h.payload_type < 128
  pub sequence_number-lt : h.sequence_number < 2 ^ 16
  pub timestamp-lt : h.timestamp < 2 ^ 32
  pub ssrc-lt : h.ssrc < 2 ^ 32

flag-lt : (b : Bool) → flag b < 2
flag-lt true = omega arith
flag-lt false = omega arith

to_bool-flag : (b : Bool) (n : ℕ) → n ≡ flag b → to_bool n ≡ b
to_bool-flag true n e = ground arith
to_bool-flag false n e = ground arith

pub flag-to_bool : (n : ℕ) → n < 2 → flag (to_bool n) ≡ n
flag-to_bool n h = ground arith

pub long_enough : (xs : Bytes) → 12 ≤ length xs → ltb (length xs) 12 ≡ false
long_enough xs h = ground arith

pub first_byte_lem :
    (h : RtpHeader)
    → IsHeader h
    → first_byte h ≡ h.version * 64 + flag h.padding * 32 + flag h.extension * 16 + h.csrc_count
first_byte_lem h fits =
    rw (low_2 h.version (omega arith), low_4 h.csrc_count (omega arith))
      (or_fields (h.version % 4) (flag h.padding) (flag h.extension) (h.csrc_count % 16)
          (omega arith) (flag-lt h.padding) (flag-lt h.extension) (omega arith)
        ∙ omega arith)

pub second_byte_lem :
    (h : RtpHeader) → IsHeader h → second_byte h ≡ flag h.marker * 128 + h.payload_type
second_byte_lem h fits =
    rw (low_7 h.payload_type (omega arith))
      (or_7 (flag h.marker) (h.payload_type % 128) (flag-lt h.marker) (omega arith) ∙ omega arith)

-- Each field of the two packed bytes comes back.
module _ (h : RtpHeader) (fits : IsHeader h) where
  first_byte-lt : first_byte h < 256
  first_byte-lt = omega (arith, first_byte_lem h fits, flag-lt h.padding, flag-lt h.extension)

  second_byte-lt : second_byte h < 256
  second_byte-lt = omega (arith, second_byte_lem h fits, flag-lt h.marker)

  pub version-back : bit_and (first_byte h / 2 ^ 6) 0x03 ≡ h.version
  version-back =
      low_2 (first_byte h / 64) (omega (arith, first_byte-lt))
      ∙ omega (arith, first_byte_lem h fits, flag-lt h.padding, flag-lt h.extension)

  pub padding-back : to_bool (bit_and (first_byte h / 2 ^ 5) 0x01) ≡ h.padding
  padding-back = to_bool-flag h.padding _ (
      low_1 (first_byte h / 32) (omega (arith, first_byte-lt))
      ∙ omega (arith, first_byte_lem h fits, flag-lt h.padding, flag-lt h.extension))

  pub extension-back : to_bool (bit_and (first_byte h / 2 ^ 4) 0x01) ≡ h.extension
  extension-back = to_bool-flag h.extension _ (
      low_1 (first_byte h / 16) (omega (arith, first_byte-lt))
      ∙ omega (arith, first_byte_lem h fits, flag-lt h.padding, flag-lt h.extension))

  pub csrc_count-back : bit_and (first_byte h) 0x0f ≡ h.csrc_count
  csrc_count-back =
      low_4 (first_byte h) first_byte-lt
      ∙ omega (arith, first_byte_lem h fits, flag-lt h.padding, flag-lt h.extension)

  pub marker-back : to_bool (bit_and (second_byte h / 2 ^ 7) 0x01) ≡ h.marker
  marker-back = to_bool-flag h.marker _ (
      low_1 (second_byte h / 128) (omega (arith, second_byte-lt))
      ∙ omega (arith, second_byte_lem h fits, flag-lt h.marker))

  pub payload_type-back : bit_and (second_byte h) 0x7f ≡ h.payload_type
  payload_type-back =
      low_7 (second_byte h) second_byte-lt ∙ omega (arith, second_byte_lem h fits, flag-lt h.marker)

  pub be16-back : h.sequence_number / 256 % 256 * 256 + h.sequence_number % 256 ≡ h.sequence_number
  be16-back = omega arith
