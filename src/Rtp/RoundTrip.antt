-- ===== src/Rtp/RoundTrip.antt =====
-- RtpHeader::parse against RtpHeader::writeFixedHeader.
use namecon.Common.{
  [], ◌∷◌, refl, All, drop, ◌++◌, Bool-cases, inl, inr, ◌⊎◌, ℕ, ◌+◌, ◌*◌, ◌/◌, ◌%◌, ◌≤◌, ◌<◌, ◌≡◌,
  ap, ◌∙◌, some, length, ltb, arith,
}
use namecon.Common.Bytes.{
  memcpy, memcpy-nil, IsByte, be32, Bytes, length-memcpy, twelve_bytes, be32-back,
}
use mathlib.Core.Option.{none, some-injective}
use Prim.Native.Nat.{bit_and}
use namecon.Common.Bits.{low_1, low_2, low_4, low_7}
use namecon.Rtp.{RtpHeader, to_bool, flag, fields, parse, write_fields, write_fixed_header}
use namecon.Rtp.Header.{
  flag-to_bool, first_byte_lem, second_byte_lem, version-back, padding-back, extension-back,
  csrc_count-back, marker-back, payload_type-back, be16-back, IsHeader, long_enough,
}

fields-write_fields :
    (h : RtpHeader) → IsHeader h → (buf : Bytes) → 12 ≤ length buf → fields (write_fields buf h) ≡ h
fields-write_fields h fits =
    twelve_bytes (λ buf. fields (write_fields buf h) ≡ h)
      λ a b c d e f g i j k l m rest. λ t. record {
        version = version-back h fits t;
        padding = padding-back h fits t;
        extension = extension-back h fits t;
        csrc_count = csrc_count-back h fits t;
        marker = marker-back h fits t;
        payload_type = payload_type-back h fits t;
        sequence_number = be16-back h fits t;
        timestamp = be32-back h.timestamp fits.timestamp-lt t;
        ssrc = be32-back h.ssrc fits.ssrc-lt t;
      }

length-write_fields : (buf : Bytes) (h : RtpHeader) → length (write_fields buf h) ≡ length buf
length-write_fields buf h = simp length-memcpy

-- A header whose fields fit, written into a buffer of at least 12 bytes, is what `parse` then reads.
pub parse-write :
    (h : RtpHeader) (buf : Bytes)
    → IsHeader h
    → 12 ≤ length buf
    → parse (write_fixed_header buf h) ≡ some h
unfolding parse write_fixed_header
parse-write h buf fits long = rw (long_enough buf long) (
    rw (long_enough (write_fields buf h) (omega (arith, length-write_fields buf h)))
      (ap some (fields-write_fields h fits buf long)))

-- The header's ranges follow from the bytes.
fields-IsHeader :
    (a b c d e f g h i j k l : ℕ) (rest : Bytes)
    → All IsByte (a ∷ b ∷ c ∷ d ∷ e ∷ f ∷ g ∷ h ∷ i ∷ j ∷ k ∷ l ∷ rest)
    → IsHeader (fields (a ∷ b ∷ c ∷ d ∷ e ∷ f ∷ g ∷ h ∷ i ∷ j ∷ k ∷ l ∷ rest))
fields-IsHeader a b c d e f g h i j k l rest ok =
    omega (arith, low_2 (a / 64) (omega arith), low_4 a (omega arith), low_7 b (omega arith))

low-one-lt : (n : ℕ) → n < 256 → bit_and n 0x01 < 2
low-one-lt n h = omega (arith, low_1 n h)

first_byte_back :
    (a : ℕ)
    → a < 256
    → bit_and (a / 64) 3 * 64
        + flag (to_bool (bit_and (a / 32) 1)) * 32
        + flag (to_bool (bit_and (a / 16) 1)) * 16
        + bit_and a 15
      ≡ a
first_byte_back a h = omega (
  arith,
  low_2 (a / 64) (omega arith),
  low_4 a h,
  low_1 (a / 32) (omega arith),
  low_1 (a / 16) (omega arith),
  flag-to_bool (bit_and (a / 32) 1) (low-one-lt (a / 32) (omega arith)),
  flag-to_bool (bit_and (a / 16) 1) (low-one-lt (a / 16) (omega arith)),
)

second_byte_back :
    (b : ℕ) → b < 256 → flag (to_bool (bit_and (b / 128) 1)) * 128 + bit_and b 127 ≡ b
second_byte_back b h = omega (
  arith,
  low_7 b h,
  low_1 (b / 128) (omega arith),
  flag-to_bool (bit_and (b / 128) 1) (low-one-lt (b / 128) (omega arith)),
)

module _ (a b : ℕ) (ha : a < 256) (hb : b < 256) where
  high_of_16 : (a * 256 + b) / 256 % 256 ≡ a
  high_of_16 = omega arith

  low_of_16 : (a * 256 + b) % 256 ≡ b
  low_of_16 = omega arith

abbrev word : ℕ → ℕ → ℕ → ℕ → ℕ
word a b c d = a * 16777216 + b * 65536 + c * 256 + d

module _ (a b c d : ℕ) (ha : a < 256) (hb : b < 256) (hc : c < 256) (hd : d < 256) where
  byte_0 : word a b c d / 16777216 % 256 ≡ a
  byte_0 = omega arith

  byte_1 : word a b c d / 65536 % 256 ≡ b
  byte_1 = omega arith

  byte_2 : word a b c d / 256 % 256 ≡ c
  byte_2 = omega arith

  byte_3 : word a b c d % 256 ≡ d
  byte_3 = omega arith

  be32-word : (rest : Bytes) → be32 (word a b c d) ++ rest ≡ a ∷ b ∷ c ∷ d ∷ rest
  be32-word rest t = byte_0 t ∷ byte_1 t ∷ byte_2 t ∷ byte_3 t ∷ rest

write_fields-fields :
    (buf : Bytes) → 12 ≤ length buf → All IsByte buf → write_fields buf (fields buf) ≡ buf
write_fields-fields =
    twelve_bytes (λ buf. All IsByte buf → write_fields buf (fields buf) ≡ buf)
      λ a b c d e f g h i j k l rest ok.
        let buf : Bytes = a ∷ b ∷ c ∷ d ∷ e ∷ f ∷ g ∷ h ∷ i ∷ j ∷ k ∷ l ∷ rest in
        let fits = fields-IsHeader a b c d e f g h i j k l rest ok in
        λ t.
          (first_byte_lem (fields buf) fits ∙ first_byte_back a (omega arith)) t
          ∷ (second_byte_lem (fields buf) fits ∙ second_byte_back b (omega arith)) t
          ∷ high_of_16 c d (omega arith) (omega arith) t
          ∷ low_of_16 c d (omega arith) (omega arith) t
          ∷ (be32-word e f g h (omega arith) (omega arith) (omega arith) (omega arith)
                  (be32 (word i j k l) ++ memcpy rest 0 [])
                ∙ ap (λ (xs : Bytes). e ∷ f ∷ g ∷ h ∷ xs)
                    (be32-word i j k l (omega arith) (omega arith) (omega arith) (omega arith)
                      (memcpy rest 0 []))
                ∙ ap (λ (xs : Bytes). e ∷ f ∷ g ∷ h ∷ i ∷ j ∷ k ∷ l ∷ xs) (memcpy-nil rest))
              t

-- Parsing a buffer of bytes and writing the header back changes no byte.
pub write-parse :
    (buf : Bytes) (h : RtpHeader)
    → All IsByte buf
    → parse buf ≡ some h
    → write_fixed_header buf h ≡ buf
unfolding parse write_fixed_header
write-parse buf h ok e = elim (Bool-cases (ltb (length buf) 12)) [
  | inl short ↦ rw short
  | inr long ↦
      rw (long, ← some-injective (fields buf) h (rw long at e))
        (write_fields-fields buf (ground arith) ok)
]

-- On a buffer of bytes, what `parse` returns fits the fields' widths, and it fails on fewer than 12
-- bytes only.
pub parse-IsHeader :
    (buf : Bytes)
    → All IsByte buf
    → ((length buf < 12) × (parse buf ≡ none))
      ⊎ ((12 ≤ length buf) × ((h : RtpHeader) × (parse buf ≡ some h) × IsHeader h))
unfolding parse
parse-IsHeader buf ok = elim (Bool-cases (ltb (length buf) 12)) [
  | inl short ↦ inl (ground arith, rw short)
  | inr long ↦ inr (ground arith, (fields buf, rw long, fits buf (ground arith) ok))
]
  where
    fits : (xs : Bytes) → 12 ≤ length xs → All IsByte xs → IsHeader (fields xs)
    fits = twelve_bytes (λ xs. All IsByte xs → IsHeader (fields xs)) fields-IsHeader

-- Writing a header keeps the buffer's length and every byte past the first twelve.
pub write-rest :
    (buf : Bytes) (h : RtpHeader)
    → (length (write_fixed_header buf h) ≡ length buf)
      × (drop 12 (write_fixed_header buf h) ≡ drop 12 buf)
unfolding write_fixed_header
write-rest buf h = elim (Bool-cases (ltb (length buf) 12)) [
  | inl short ↦ rw short (refl, refl)
  | inr long ↦ rw long (length-write_fields buf h, kept buf (ground arith))
]
  where
    kept : (xs : Bytes) → 12 ≤ length xs → drop 12 (write_fields xs h) ≡ drop 12 xs
    kept =
        twelve_bytes (λ xs. drop 12 (write_fields xs h) ≡ drop 12 xs)
          λ _ _ _ _ _ _ _ _ _ _ _ _ rest. memcpy-nil rest
