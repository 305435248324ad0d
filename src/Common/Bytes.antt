-- ===== src/Common/Bytes.antt =====
-- Byte buffers as lists of numbers below 256, and the network byte order: `memcpy` with `htons`,
-- `htonl`, `ntohs` and `ntohl`.
use Prim.Native.Nat.{ℕ, zero, suc, ◌+◌, ◌*◌, ◌/◌, ◌^◌, ◌%◌, ◌≤◌, ◌<◌}
use mathlib.Core.Path.{◌≡◌, refl}
use mathlib.Core.List.{List, [], ◌∷◌}
use native.Mathlib.Omega.{arith}
use namecon.Common.Lists.{length, get_or}

abbrev pub Bytes : Type 0
Bytes = List ℕ

abbrev pub IsByte : ℕ → Type 0
IsByte b = b < 256

-- Two and four bytes, most significant first.
abbrev pub be16 : ℕ → Bytes
be16 x = (x / 256 % 256) ∷ (x % 256) ∷ []

abbrev pub be32 : ℕ → Bytes
be32 x = (x / 16777216 % 256) ∷ (x / 65536 % 256) ∷ (x / 256 % 256) ∷ (x % 256) ∷ []

-- Reads at an offset. The code reads under a length guard where these are used; past the end they
-- give 0.
abbrev pub byte : Bytes → ℕ → ℕ
byte data_ i = get_or data_ i 0

abbrev pub read16 : Bytes → ℕ → ℕ
read16 data_ i = byte data_ i * 256 + byte data_ (i + 1)

abbrev pub read32 : Bytes → ℕ → ℕ
read32 data_ i =
    byte data_ i * 16777216
    + byte data_ (i + 1) * 65536
    + byte data_ (i + 2) * 256
    + byte data_ (i + 3)

-- `memcpy(dst + i, src, length src)`. Bytes past the end of `dst` are dropped.
abbrev pub memcpy : Bytes → ℕ → Bytes → Bytes
memcpy [] i src = []
memcpy (d ∷ dst) zero [] = d ∷ dst
memcpy (d ∷ dst) zero (s ∷ src) = s ∷ memcpy dst zero src
memcpy (d ∷ dst) (suc i) src = d ∷ memcpy dst i src

pub length-memcpy : (dst : Bytes) (i : ℕ) (src : Bytes) → length (memcpy dst i src) ≡ length dst
length-memcpy [] i src = refl
length-memcpy (d ∷ dst) zero [] = refl
length-memcpy (d ∷ dst) zero (s ∷ src) = omega (arith, length-memcpy dst zero src)
length-memcpy (d ∷ dst) (suc i) src = omega (arith, length-memcpy dst i src)

-- A buffer of at least twelve bytes, taken apart.
pub twelve_bytes {ℓ} :
    (P : Bytes → Type ℓ)
    → ((a b c d e f g h i j k l : ℕ) (rest : Bytes)
        → P (a ∷ b ∷ c ∷ d ∷ e ∷ f ∷ g ∷ h ∷ i ∷ j ∷ k ∷ l ∷ rest))
    → (xs : Bytes) → 12 ≤ length xs
    → P xs
twelve_bytes P p (a ∷ b ∷ c ∷ d ∷ e ∷ f ∷ g ∷ h ∷ i ∷ j ∷ k ∷ l ∷ rest) _ =
    p a b c d e f g h i j k l rest
twelve_bytes P p _ long = absurd (omega arith)

pub memcpy-nil : (dst : Bytes) → memcpy dst 0 [] ≡ dst
memcpy-nil [] = refl
memcpy-nil (d ∷ dst) = refl

-- A number that fits comes back from its bytes.
pub be16-back : (x : ℕ) → x < 2 ^ 16 → x / 256 % 256 * 256 + x % 256 ≡ x
be16-back x h = omega arith

pub be32-back :
    (x : ℕ)
    → x < 2 ^ 32
    → x / 16777216 % 256 * 16777216 + x / 65536 % 256 * 65536 + x / 256 % 256 * 256 + x % 256 ≡ x
be32-back x h = omega arith
