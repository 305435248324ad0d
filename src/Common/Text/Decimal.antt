-- ===== src/Common/Text/Decimal.antt =====
-- Numbers in decimal, read back.
use Prim.Native.Nat.{ℕ, zero, suc, ◌+◌, ◌/◌, ◌%◌, ◌^◌, ◌<◌}
use mathlib.Core.Path.{◌≡◌, refl, ap, ◌∙◌}
use mathlib.Core.Bool.{Bool, true, false}
use mathlib.Core.Option.{some}
use mathlib.Core.List.{[], ◌∷◌}
use mathlib.Core.Logic.{inl, inr}
use native.Mathlib.Nat.{pow-suc}
use native.Mathlib.Omega.{arith}
use namecon.Common.Tests.{◌==◌, ltb, Bool-cases}
use namecon.Common.Bytes.{Bytes}
use namecon.Common.Text.{
  is_digit, is_space, digits_onto, decimal_onto, decimal, read_int, skip_space, in_range,
}

digit_is_digit : (n : ℕ) → is_digit (48 + n % 10) ≡ true
digit_is_digit n = ground arith

quotient-lt : (n k : ℕ) → n < 10 ^ suc k → n / 10 < 10 ^ k
quotient-lt n k h = omega (arith, pow-suc 10 k)

pub digits_onto-decimal_onto :
    (fuel n : ℕ) (rest : Bytes)
    → n < 10 ^ fuel
    → digits_onto 0 (decimal_onto fuel n rest) ≡ digits_onto n rest
unfolding digits_onto decimal_onto
digits_onto-decimal_onto zero n rest h = ap (λ k. digits_onto k rest) (omega arith)
digits_onto-decimal_onto (suc fuel) n rest h = elim (Bool-cases (ltb n 10)) [
  | inl e ↦ rw e (ground arith)
  | inr e ↦ rw e (
      digits_onto-decimal_onto fuel (n / 10) ((48 + n % 10) ∷ rest) (quotient-lt n fuel h)
      ∙ rw (digit_is_digit n) (ap (λ k. digits_onto k rest) (omega arith)))
]

-- A text that starts with a digit.
abbrev StartsDigit : Bytes → Type 0
StartsDigit [] = ⊥
StartsDigit (c ∷ text) = is_digit c ≡ true

decimal_onto-StartsDigit :
    (fuel n : ℕ) (rest : Bytes) → StartsDigit rest → StartsDigit (decimal_onto fuel n rest)
unfolding decimal_onto
decimal_onto-StartsDigit zero n rest h = h
decimal_onto-StartsDigit (suc fuel) n rest h = elim (Bool-cases (ltb n 10)) [
  | inl e ↦ rw e (ground arith)
  | inr e ↦ rw e (decimal_onto-StartsDigit fuel (n / 10) ((48 + n % 10) ∷ rest) (digit_is_digit n))
]

decimal-StartsDigit : (n : ℕ) (rest : Bytes) → StartsDigit (decimal_onto 10 n rest)
unfolding decimal_onto
decimal-StartsDigit n rest = elim (Bool-cases (ltb n 10)) [
  | inl e ↦ rw e (ground arith)
  | inr e ↦ rw e (decimal_onto-StartsDigit 9 (n / 10) ((48 + n % 10) ∷ rest) (digit_is_digit n))
]

read_int-StartsDigit :
    (text : Bytes)
    → StartsDigit text
    → read_int text ≡ in_range (some (false, (digits_onto 0 text).0, (digits_onto 0 text).1))
unfolding read_int skip_space
read_int-StartsDigit [] h = absurd h
read_int-StartsDigit (c ∷ text) h =
    let no_space : is_space c ≡ false = ground arith in
    let no_minus : (c == 45) ≡ false = ground arith in
    let no_plus : (c == 43) ≡ false = ground arith in rw (no_space, no_minus, no_plus, h)

-- A number of `int`, printed and read, with a text behind it that goes on with no digit.
pub read_int-decimal :
    (n : ℕ) (rest : Bytes)
    → n < 2 ^ 31
    → digits_onto n rest ≡ (n, rest)
    → read_int (decimal_onto 10 n rest) ≡ some (false, n, rest)
read_int-decimal n rest h end =
    let read = digits_onto-decimal_onto 10 n rest (omega (arith, h)) ∙ end in
    read_int-StartsDigit (decimal_onto 10 n rest) (decimal-StartsDigit n rest)
    ∙ rw read (ground arith)

abbrev pub is_empty : Bytes → Bool
is_empty [] = true
is_empty (c ∷ text) = false

pub decimal_full : (n : ℕ) → is_empty (decimal n) ≡ false
decimal_full n = full (decimal n) (decimal-StartsDigit n [])
  where
    full : (text : Bytes) → StartsDigit text → is_empty text ≡ false
    full [] h = absurd h
    full (c ∷ text) h = refl
