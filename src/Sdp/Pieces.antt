-- ===== src/Sdp/Pieces.antt =====
-- The parts that lines are taken to, and line feeds.
use namecon.Common.Text.{
  NoLf, after_prefix, skip_blanks, skip_space, word_of, behind_word, is_space, is_blank, lines,
  drop_cr, onto_first,
}
use namecon.Common.{
  ℕ, ◌≡◌, ◌≢◌, refl, List, [], ◌∷◌, Option, none, some, ◌==◌, arith, All, Bool-cases, inl, inr,
}
use mathlib.Core.Option.{some-injective}
use namecon.Common.Bytes.{Bytes}
use namecon.Sdp.{extract_attr, drop_space, or_empty}
use namecon.Sdp.Sections.{IsWord}

pub skip_blanks-NoLf : (l : Bytes) → NoLf l → NoLf (skip_blanks l)
unfolding skip_blanks
skip_blanks-NoLf [] h = tt
skip_blanks-NoLf (c ∷ l) h = elim (Bool-cases (is_blank c)) [
  | inl e ↦ rw e (skip_blanks-NoLf l h.1)
  | inr e ↦ rw e h
]

pub drop_cr-NoLf : (l : Bytes) → NoLf l → NoLf (drop_cr l)
unfolding drop_cr
drop_cr-NoLf [] h = tt
drop_cr-NoLf (c ∷ []) h = elim (Bool-cases (c == 13)) [ inl e ↦ rw e tt | inr e ↦ rw e h ]
drop_cr-NoLf (c ∷ d ∷ l) h = (h.0, drop_cr-NoLf (d ∷ l) h.1)

pub onto_first-NoLf : (c : ℕ) (ls : List Bytes) → c ≢ 10 → All NoLf ls → All NoLf (onto_first c ls)
onto_first-NoLf c [] n h = ((n, tt), tt)
onto_first-NoLf c (l ∷ ls) n h = ((n, h.0), h.1)

pub lines-NoLf : (text : Bytes) → All NoLf (lines text)
unfolding lines
lines-NoLf [] = tt
lines-NoLf (c ∷ text) = elim (Bool-cases (c == 10)) [
  | inl e ↦ rw e (tt, lines-NoLf text)
  | inr e ↦ rw e (onto_first-NoLf c (lines text) (ground arith) (lines-NoLf text))
]

-- A part behind a prefix.
pub after_prefix-NoLf :
    (prefix l rest : Bytes) → after_prefix prefix l ≡ some rest → NoLf l → NoLf rest
unfolding after_prefix
after_prefix-NoLf [] l rest e h = rw (← some-injective _ _ e) h
after_prefix-NoLf (p ∷ prefix) [] rest e h = cc
after_prefix-NoLf (p ∷ prefix) (c ∷ l) rest e h = elim (Bool-cases (c == p)) [
  | inl same ↦ after_prefix-NoLf prefix l rest (rw same at e) h.1
  | inr differ ↦ let e' = rw differ at e in cc
]

pub skip_space-NoLf : (l : Bytes) → NoLf l → NoLf (skip_space l)
unfolding skip_space
skip_space-NoLf [] h = tt
skip_space-NoLf (c ∷ l) h = elim (Bool-cases (is_space c)) [
  | inl e ↦ rw e (skip_space-NoLf l h.1)
  | inr e ↦ rw e h
]

pub behind_word-NoLf : (l : Bytes) → NoLf l → NoLf (behind_word l)
unfolding behind_word
behind_word-NoLf [] h = tt
behind_word-NoLf (c ∷ l) h = elim (Bool-cases (is_space c)) [
  | inl e ↦ rw e h
  | inr e ↦ rw e (behind_word-NoLf l h.1)
]

pub word_of-IsWord : (l : Bytes) → IsWord (word_of l)
unfolding word_of
word_of-IsWord [] = tt
word_of-IsWord (c ∷ l) = elim (Bool-cases (is_space c)) [
  | inl e ↦ rw e tt
  | inr e ↦ rw e (e, word_of-IsWord l)
]

pub drop_space-NoLf : (l : Bytes) → NoLf l → NoLf (drop_space l)
unfolding drop_space
drop_space-NoLf [] h = tt
drop_space-NoLf (c ∷ l) h = elim (Bool-cases (c == 32)) [ inl e ↦ rw e h.1 | inr e ↦ rw e h ]

pub or_empty-NoLf :
    (prefix l : Bytes) (o : Option Bytes) → after_prefix prefix l ≡ o → NoLf l → NoLf (or_empty o)
or_empty-NoLf prefix l none e line = tt
or_empty-NoLf prefix l (some rest) e line = after_prefix-NoLf prefix l rest e line

pub extract_attr-NoLf : (l key : Bytes) → NoLf l → NoLf (extract_attr l key)
unfolding extract_attr
extract_attr-NoLf l key line = or_empty-NoLf _ l _ refl line
