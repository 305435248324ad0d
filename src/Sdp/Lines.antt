-- ===== src/Sdp/Lines.antt =====
-- Lines that end in CR LF, printed and split again, and the current section of a vector.
use namecon.Common.Text.{NoLf-append, lines-append, NoLf, lines, drop_cr, after_prefix, skip_blanks}
use namecon.Common.{sym, ◌≡◌, refl, ap, ◌∙◌, List, [], ◌∷◌, ◌++◌, some, map, arith, All}
use mathlib.Core.List.{append_assoc}
use namecon.Sdp.Types.{MediaSection, SdpParser}
use namecon.Common.Bytes.{Bytes}
use namecon.Sdp.{current, in_current, parse_line, text_line}
use namecon.Sdp.Answer.{print_lines}

abbrev pub cr : Bytes → Bytes
cr l = l ++ 13 ∷ []

pub lines-print_lines : (ls : List Bytes) → All NoLf ls → lines (print_lines ls) ≡ map cr ls
unfolding print_lines lines
lines-print_lines [] h = refl
lines-print_lines (l ∷ ls) h =
    ap lines (sym (append_assoc l (13 ∷ []) (10 ∷ print_lines ls)))
    ∙ lines-append (cr l) (print_lines ls) (NoLf-append l (13 ∷ []) h.0 (omega arith))
    ∙ ap (λ x. cr l ∷ x) (lines-print_lines ls h.1)

drop_cr-cr : (l : Bytes) → drop_cr (cr l) ≡ l
unfolding drop_cr
drop_cr-cr [] = refl
drop_cr-cr (c ∷ []) = refl
drop_cr-cr (c ∷ d ∷ l) = ap (λ x. c ∷ x) (drop_cr-cr (d ∷ l))

pub parse_line-cr : (l : Bytes) (p : SdpParser) → parse_line (cr l) p ≡ text_line (skip_blanks l) p
unfolding parse_line
parse_line-cr l p = ap (λ x. text_line (skip_blanks x) p) (drop_cr-cr l)

pub after_prefix-some :
    (prefix text rest : Bytes) → after_prefix prefix text ≡ some rest → text ≡ prefix ++ rest
unfolding after_prefix
after_prefix-some [] text rest e = cc
after_prefix-some (c ∷ prefix) [] rest e = cc
after_prefix-some (c ∷ prefix) (d ∷ text) rest e =
    ground (arith, after_prefix-some prefix text rest)

pub current-append : (xs : List MediaSection) (s : MediaSection) → current (xs ++ s ∷ []) ≡ some s
unfolding current
current-append [] s = refl
current-append (x ∷ []) s = refl
current-append (x ∷ y ∷ xs) s = current-append (y ∷ xs) s

pub in_current-append :
    (f : MediaSection → MediaSection) (xs : List MediaSection) (s : MediaSection)
    → in_current f (xs ++ s ∷ []) ≡ xs ++ f s ∷ []
unfolding in_current
in_current-append f [] s = refl
in_current-append f (x ∷ []) s = refl
in_current-append f (x ∷ y ∷ xs) s = ap (λ l. x ∷ l) (in_current-append f (y ∷ xs) s)
