-- ===== src/Common/Bits.antt =====
-- Masks and shifts on a byte as arithmetic, checked over all bytes by evaluation.
use Prim.Native.Nat.{ℕ, zero, suc, ◌+◌, ◌*◌, ◌/◌, ◌%◌, ◌<◌, bit_and, bit_or}
use mathlib.Core.Path.{◌≡◌, refl, sym, ◌∙◌, ap}
use native.Mathlib.Decide.{ℕ_discrete}
use mathlib.Core.Logic.{inl, inr}
use mathlib.Core.Bool.{Bool, true, false}
use native.Mathlib.Omega.{arith}
use namecon.Common.Tests.{◌==◌, ==_iff, if◌then◌else◌, Bool-cases}

-- Two functions agree on every number below a bound.
unfoldable pub agree_below : (ℕ → ℕ) → (ℕ → ℕ) → ℕ → Bool
agree_below f g zero = true
agree_below f g (suc bound) = if f bound == g bound then agree_below f g bound else false

pub eq_below :
    (f g : ℕ → ℕ) (bound : ℕ) → agree_below f g bound ≡ true → (x : ℕ) → x < bound → f x ≡ g x
unfolding agree_below
eq_below f g zero table x h = absurd (omega arith)
eq_below f g (suc bound) table x h = elim (Bool-cases (f bound == g bound)) [
  | inl same ↦
      let rest = eq_below f g bound (rw same at table) x in
      elim (ℕ_discrete x bound) [
        | yes last ↦ ap f last ∙ (==_iff (f bound) (g bound)).0 same ∙ ap g (sym last)
        | no below ↦ rest (omega (arith, below))
      ]
  | inr differ ↦ let e = rw differ at table in cc
]

pub low_4 : (b : ℕ) → b < 256 → bit_and b 0x0f ≡ b % 16
unfolding agree_below
low_4 = eq_below (λ b. bit_and b 0x0f) (λ b. b % 16) 256 refl

pub low_5 : (b : ℕ) → b < 256 → bit_and b 0x1f ≡ b % 32
unfolding agree_below
low_5 = eq_below (λ b. bit_and b 0x1f) (λ b. b % 32) 256 refl

pub low_7 : (b : ℕ) → b < 256 → bit_and b 0x7f ≡ b % 128
unfolding agree_below
low_7 = eq_below (λ b. bit_and b 0x7f) (λ b. b % 128) 256 refl

pub low_2 : (b : ℕ) → b < 256 → bit_and b 0x03 ≡ b % 4
unfolding agree_below
low_2 = eq_below (λ b. bit_and b 0x03) (λ b. b % 4) 256 refl

pub low_1 : (b : ℕ) → b < 256 → bit_and b 0x01 ≡ b % 2
unfolding agree_below
low_1 = eq_below (λ b. bit_and b 0x01) (λ b. b % 2) 256 refl

-- The first byte of a header out of its fields: two bits, two flags and four bits.
fields_table :
    (n : ℕ)
    → n < 256
    → bit_or (bit_or (bit_or (n / 64 * 64) (n / 32 % 2 * 32)) (n / 16 % 2 * 16)) (n % 16) ≡ n
unfolding agree_below
fields_table =
    eq_below
      (λ n. bit_or (bit_or (bit_or (n / 64 * 64) (n / 32 % 2 * 32)) (n / 16 % 2 * 16)) (n % 16))
      (λ n. n) 256 refl

pub or_fields :
    (v p x c : ℕ)
    → v < 4
    → p < 2
    → x < 2
    → c < 16
    → bit_or (bit_or (bit_or (v * 64) (p * 32)) (x * 16)) c ≡ v * 64 + p * 32 + x * 16 + c
or_fields v p x c hv hp hx hc = go (v * 64 + p * 32 + x * 16 + c) refl
  where
    go :
        (n : ℕ)
        → v * 64 + p * 32 + x * 16 + c ≡ n
        → bit_or (bit_or (bit_or (v * 64) (p * 32)) (x * 16)) c ≡ n
    go n e =
        let e₁ : n / 64 ≡ v = omega arith in
        let e₂ : n / 32 % 2 ≡ p = omega arith in
        let e₃ : n / 16 % 2 ≡ x = omega arith in
        let e₄ : n % 16 ≡ c = omega arith in rw (e₁, e₂, e₃, e₄) at (fields_table n (omega arith))

-- The second byte: a flag and seven bits.
or_7_table : (n : ℕ) → n < 256 → bit_or (n / 128 * 128) (n % 128) ≡ n
unfolding agree_below
or_7_table = eq_below (λ n. bit_or (n / 128 * 128) (n % 128)) (λ n. n) 256 refl

pub or_7 : (m t : ℕ) → m < 2 → t < 128 → bit_or (m * 128) t ≡ m * 128 + t
or_7 m t hm ht = go (m * 128 + t) refl
  where
    go : (n : ℕ) → m * 128 + t ≡ n → bit_or (m * 128) t ≡ n
    go n e =
        let e₁ : n / 128 ≡ m = omega arith in
        let e₂ : n % 128 ≡ t = omega arith in rw (e₁, e₂) at (or_7_table n (omega arith))
