-- ===== src/Common/Text.antt =====
-- Texts as bytes: comparison, prefixes, `std::getline`, stream words and decimal numbers.
pub mod Decimal
use namecon.Common.{◌≢◌, All, ◌++◌}
use mathlib.Core.List.{List, [], ◌∷◌}
use Prim.Native.Char.{code}
use Prim.Native.String.{String}
use Prim.Native.Nat.{ℕ, zero, suc, ◌+◌, ◌-◌, ◌*◌, ◌/◌, ◌%◌, ◌^◌}
use mathlib.Core.Path.{◌≡◌, refl, ap, ◌∙◌}
use mathlib.Core.Bool.{Bool, true, false, ◌&&◌, ◌||◌}
use mathlib.Core.Option.{Option, none, some}
use mathlib.Core.Logic.{inl, inr}
use native.Mathlib.Omega.{arith}
use namecon.Common.Tests.{◌==◌, ==_iff, leb, ltb, if◌then◌else◌, Bool-cases}
use namecon.Common.Bytes.{Bytes}

-- A literal's bytes.
abbrev pub ascii : String → Bytes
ascii String.[] = []
ascii (String.◌∷◌ letter text) = code letter ∷ ascii text

unfoldable pub bytes_eq : Bytes → Bytes → Bool
bytes_eq [] [] = true
bytes_eq [] (c ∷ cs) = false
bytes_eq (b ∷ bs) [] = false
bytes_eq (b ∷ bs) (c ∷ cs) = b == c && bytes_eq bs cs

pub bytes_eq-true : (bs cs : Bytes) → bytes_eq bs cs ≡ true → bs ≡ cs
unfolding bytes_eq
bytes_eq-true [] [] e = refl
bytes_eq-true [] (c ∷ cs) e = cc
bytes_eq-true (b ∷ bs) [] e = cc
bytes_eq-true (b ∷ bs) (c ∷ cs) e = elim (Bool-cases (b == c)) [
  | inl same ↦
      let rest = bytes_eq-true bs cs (rw same at e) in
      ap (◌∷◌ b) rest ∙ ap (λ x. x ∷ cs) ((==_iff b c).0 same)
  | inr differ ↦ let e' = rw differ at e in cc
]

pub bytes_eq_refl : (bs : Bytes) → bytes_eq bs bs ≡ true
unfolding bytes_eq
bytes_eq_refl [] = refl
bytes_eq_refl (b ∷ bs) = ground (arith, bytes_eq_refl bs)

-- `text.compare(0, prefix.size(), prefix) == 0`, with what follows the prefix.
unfoldable pub after_prefix : Bytes → Bytes → Option Bytes
after_prefix [] text = some text
after_prefix (p ∷ prefix) [] = none
after_prefix (p ∷ prefix) (c ∷ text) = if c == p then after_prefix prefix text else none

abbrev pub is_some : Option Bytes → Bool
is_some none = false
is_some (some text) = true

-- `text.find(part) != npos`
unfoldable pub contains : Bytes → Bytes → Bool
contains part [] = is_some (after_prefix part [])
contains part (c ∷ text) = is_some (after_prefix part (c ∷ text)) || contains part text

-- `while (std::getline(stream, line))`: what stands behind the last line feed is a line if there is
-- any.
abbrev pub onto_first : ℕ → List Bytes → List Bytes
onto_first c [] = (c ∷ []) ∷ []
onto_first c (l ∷ ls) = (c ∷ l) ∷ ls

unfoldable pub lines : Bytes → List Bytes
lines [] = []
lines (c ∷ text) = if c == 10 then [] ∷ lines text else onto_first c (lines text)

-- No line feed in a text.
abbrev pub NoLf : Bytes → Type 0
NoLf text = All (λ c. c ≢ 10) text

pub NoLf-append : (a b : Bytes) → NoLf a → NoLf b → NoLf (a ++ b)
NoLf-append [] b ha hb = hb
NoLf-append (c ∷ a) b ha hb = (ha.0, NoLf-append a b ha.1 hb)

pub lines-append : (l rest : Bytes) → NoLf l → lines (l ++ 10 ∷ rest) ≡ l ∷ lines rest
unfolding lines
lines-append [] rest h = refl
lines-append (c ∷ l) rest h = ground (arith, lines-append l rest h.1)

-- `if (!line.empty() && line.back() == '\r') line.pop_back()`
unfoldable pub drop_cr : Bytes → Bytes
drop_cr [] = []
drop_cr (c ∷ []) = if c == 13 then [] else c ∷ []
drop_cr (c ∷ d ∷ line) = c ∷ drop_cr (d ∷ line)

abbrev pub is_blank : ℕ → Bool
is_blank c = c == 32 || c == 9

-- From the first character that is no blank on.
unfoldable pub skip_blanks : Bytes → Bytes
skip_blanks [] = []
skip_blanks (c ∷ line) = if is_blank c then skip_blanks line else c ∷ line

-- `isspace`: what `>>` skips and what ends a word.
abbrev pub is_space : ℕ → Bool
is_space c = c == 32 || (leb 9 c && leb c 13)

unfoldable pub skip_space : Bytes → Bytes
skip_space [] = []
skip_space (c ∷ text) = if is_space c then skip_space text else c ∷ text

unfoldable pub word_of : Bytes → Bytes
word_of [] = []
word_of (c ∷ text) = if is_space c then [] else c ∷ word_of text

unfoldable pub behind_word : Bytes → Bytes
behind_word [] = []
behind_word (c ∷ text) = if is_space c then c ∷ text else behind_word text

-- `stream >> word`: the word, and what is left of the stream.
abbrev pub next_word : Bytes → Bytes × Bytes
next_word text = (word_of (skip_space text), behind_word (skip_space text))

abbrev pub is_digit : ℕ → Bool
is_digit c = leb 48 c && leb c 57

-- The number that digits go on with, and what follows them.
unfoldable pub digits_onto : ℕ → Bytes → ℕ × Bytes
digits_onto n [] = (n, [])
digits_onto n (c ∷ text) =
    if is_digit c then digits_onto (n * 10 + (c - 48)) text else (n, c ∷ text)

-- A signed number: whether it is negative, its digits' value, and the rest.
abbrev pub digits_at : Bool → Bytes → Option (Bool × ℕ × Bytes)
digits_at negative [] = none
digits_at negative (c ∷ text) =
    let read = digits_onto 0 (c ∷ text) in
    if is_digit c then some (negative, read.0, read.1) else none

abbrev pub signed_at : Bytes → Option (Bool × ℕ × Bytes)
signed_at [] = none
signed_at (c ∷ text) =
    if c == 45
    then digits_at true text
    else (if c == 43 then digits_at false text else digits_at false (c ∷ text))

-- The range of `int`.
abbrev pub fits_int : Bool → ℕ → Bool
fits_int negative n = if negative then leb n (2 ^ 31) else ltb n (2 ^ 31)

abbrev pub in_range : Option (Bool × ℕ × Bytes) → Option (Bool × ℕ × Bytes)
in_range none = none
in_range (some (negative, n, rest)) = if fits_int negative n then some (negative, n, rest) else none

-- `stream >> number` and `std::stoi`: `none` where the stream fails, or `stoi` throws.
unfoldable pub read_int : Bytes → Option (Bool × ℕ × Bytes)
read_int text = in_range (signed_at (skip_space text))

-- `static_cast<uint8_t>`
abbrev pub to_uint8 : Bool → ℕ → ℕ
to_uint8 negative n = if negative then (256 - n % 256) % 256 else n % 256

-- A number in decimal, of at most as many digits as the fuel; a 32-bit number has at most 10.
unfoldable pub decimal_onto : ℕ → ℕ → Bytes → Bytes
decimal_onto zero n rest = rest
decimal_onto (suc fuel) n rest =
    let more = decimal_onto fuel (n / 10) ((48 + n % 10) ∷ rest) in
    if ltb n 10 then (48 + n) ∷ rest else more

abbrev pub decimal : ℕ → Bytes
decimal n = decimal_onto 10 n []
