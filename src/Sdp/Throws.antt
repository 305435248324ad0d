-- ===== src/Sdp/Throws.antt =====
-- `std::stoi` in parseOffer.
use namecon.Sdp.Types.{Direction, MediaSection, SdpParser, Parse, parsed, throws}
use mathlib.Core.List.{Mem, mem-cons_self, mem-cons_of_mem}
use namecon.Common.{
  ℕ, ◌≡◌, refl, ◌⊎◌, inl, inr, Bool, true, false, ◌&&◌, List, [], ◌∷◌, Option, none, some,
  if◌then◌else◌,
}
use mathlib.Core.Path.{subst}
use namecon.Common.Bytes.{Bytes}
use namecon.Common.Text.{ascii, bytes_eq, after_prefix, skip_blanks, read_int, lines, drop_cr}
use namecon.Sdp.{
  start_section, attribute_line, section_line, extract_attr, codec_line, main_codec,
  push_codec_line, parse_line, parse_lines, parse_offer, current, in_current, split_space, is_vp8,
  is_opus, attribute_of, text_line, empty, direction_of, and_then, is_feedback,
}
use namecon.Sdp.Reads.{set_pt}

-- An rtpmap of VP8 or opus whose payload type `std::stoi` does not take.
abbrev pub BadMap : Bytes → Type 0
BadMap rv =
    (read_int (split_space rv).0 ≡ none)
    × ((is_vp8 (split_space rv).1 ≡ true) ⊎ (is_opus (split_space rv).1 ≡ true))

abbrev pub BadLine : Bytes → Type 0
BadLine l =
    (rv : Bytes) × (after_prefix (ascii "a=rtpmap:") (skip_blanks (drop_cr l)) ≡ some rv)
    × BadMap rv

-- What is to blame where a parse throws.
abbrev Blames : Type 0 → Parse → Type 0
Blames B (parsed p) = Unit {0}
Blames B (throws p) = B

Blames-if :
    (B : Type 0) (b : Bool) (x y : Parse) → Blames B x → Blames B y → Blames B (if b then x else y)
Blames-if B true x y hx hy = hx
Blames-if B false x y hx hy = hy

set_pt-Blames :
    (video audio vp8 opus : Bool) (read : Option (Bool × ℕ × Bytes)) (p : SdpParser)
    → Blames
        ((read ≡ none) × ((vp8 ≡ true) ⊎ (opus ≡ true)))
        (set_pt (video && vp8) (audio && opus) read p)
set_pt-Blames true audio true opus none p = (refl, inl refl)
set_pt-Blames true audio true opus (some (negative, n, rest)) p = tt
set_pt-Blames true true false true none p = (refl, inr refl)
set_pt-Blames true true false true (some (negative, n, rest)) p = tt
set_pt-Blames true true false false read p = tt
set_pt-Blames true false false opus read p = tt
set_pt-Blames false true vp8 true none p = (refl, inr refl)
set_pt-Blames false true vp8 true (some (negative, n, rest)) p = tt
set_pt-Blames false true vp8 false read p = tt
set_pt-Blames false false vp8 opus read p = tt

main_codec-Blames : (type rv : Bytes) (p : SdpParser) → Blames (BadMap rv) (main_codec type rv p)
unfolding main_codec
main_codec-Blames type rv p =
    let split = split_space rv in
    set_pt-Blames (bytes_eq type (ascii "video")) (bytes_eq type (ascii "audio")) (is_vp8 split.1)
      (is_opus split.1) (read_int split.0) p

-- A line as `text_line` sees it.
abbrev BadText : Bytes → Type 0
BadText l = (rv : Bytes) × (after_prefix (ascii "a=rtpmap:") l ≡ some rv) × BadMap rv

blame_map :
    (l rv : Bytes) (o : Parse)
    → after_prefix (ascii "a=rtpmap:") l ≡ some rv
    → Blames (BadMap rv) o
    → Blames (BadText l) o
blame_map l rv (parsed p) e h = tt
blame_map l rv (throws p) e h = (rv, e, h)

codec_line-Blames : (type l : Bytes) (p : SdpParser) → Blames (BadText l) (codec_line type l p)
unfolding codec_line
codec_line-Blames type l p = by_map (after_prefix (ascii "a=rtpmap:") l) refl
  where
    by_map :
        (o : Option Bytes)
        → after_prefix (ascii "a=rtpmap:") l ≡ o
        → Blames (BadText l) (elim o [
          | some rv ↦ main_codec type rv (push_codec_line l p)
          | none ↦ parsed (if is_feedback l then push_codec_line l p else p)
        ])
    by_map none e = tt
    by_map (some rv) e =
        blame_map l rv (main_codec type rv (push_codec_line l p)) e
          (main_codec-Blames type rv (push_codec_line l p))

direction-Blames :
    (type l : Bytes) (p : SdpParser) (o : Option Direction)
    → Blames (BadText l) (elim o [
      | some d ↦
          parsed (record p { sections = in_current (λ s. record s { direction = d }) p.sections })
      | none ↦ codec_line type l p
    ])
direction-Blames type l p (some d) = tt
direction-Blames type l p none = codec_line-Blames type l p

attribute_of-Blames :
    (o : Option MediaSection) (l : Bytes) (p : SdpParser) → Blames (BadText l) (attribute_of o l p)
unfolding section_line
attribute_of-Blames none l p = tt
attribute_of-Blames (some sec) l p =
    Blames-if (BadText l) (empty (extract_attr l (ascii "mid"))) _ _
      (direction-Blames sec.type l p (direction_of l)) tt

attribute_line-Blames : (l : Bytes) (p : SdpParser) → Blames (BadText l) (attribute_line l p)
unfolding attribute_line
attribute_line-Blames l p =
    Blames-if (BadText l) (empty (extract_attr l (ascii "ice-ufrag"))) _ _
      (Blames-if (BadText l) (empty (extract_attr l (ascii "ice-pwd"))) _ _
        (Blames-if (BadText l) (empty (extract_attr l (ascii "fingerprint"))) _ _
          (attribute_of-Blames (current p.sections) l p) tt)
        tt)
      tt

text_line-Blames : (l : Bytes) (p : SdpParser) → Blames (BadText l) (text_line l p)
text_line-Blames [] p = tt
text_line-Blames (c ∷ l) p =
    elim (after_prefix (ascii "m=") (c ∷ l))
      as (λ o.
        Blames (BadText (c ∷ l)) (elim o [
          | some text ↦ parsed (start_section text p)
          | none ↦ attribute_line (c ∷ l) p
        ])) [ some text ↦ tt | none ↦ attribute_line-Blames (c ∷ l) p ]

blame_more :
    (l : Bytes) (ls : List Bytes) (o : Parse) (next : SdpParser → Parse)
    → Blames (BadLine l) o
    → ((p : SdpParser) → Blames ((m : Bytes) × Mem m ls × BadLine m) (next p))
    → Blames ((m : Bytes) × Mem m (l ∷ ls) × BadLine m) (and_then o next)
blame_more l ls (throws p) next bad more = (l, mem-cons_self, bad)
blame_more l ls (parsed p) next bad more = later (next p) (more p)
  where
    later :
        (o : Parse)
        → Blames ((m : Bytes) × Mem m ls × BadLine m) o
        → Blames ((m : Bytes) × Mem m (l ∷ ls) × BadLine m) o
    later (parsed p') h = tt
    later (throws p') (m, at_m, h) = (m, mem-cons_of_mem l at_m, h)

parse_lines-Blames :
    (ls : List Bytes) (p : SdpParser)
    → Blames ((l : Bytes) × Mem l ls × BadLine l) (parse_lines ls p)
unfolding parse_lines parse_line
parse_lines-Blames [] p = tt
parse_lines-Blames (l ∷ ls) p =
    blame_more l ls (parse_line l p) (parse_lines ls) (text_line-Blames (skip_blanks (drop_cr l)) p)
      (parse_lines-Blames ls)

-- parseOffer lets an exception out only where the offer has a line that is, but for the blanks
-- before it, an rtpmap of VP8 or opus whose payload type is no number that fits an `int`.
pub parse_offer-throws :
    (sdp : Bytes) (p p' : SdpParser)
    → parse_offer sdp p ≡ throws p'
    → (l : Bytes) × Mem l (lines sdp) × BadLine l
unfolding parse_offer
parse_offer-throws sdp p p' e =
    let blame = parse_lines-Blames (lines sdp) (record p { sections = [] }) in
    subst (Blames ((l : Bytes) × Mem l (lines sdp) × BadLine l)) e blame
