-- ===== src/Sdp/Clean.antt =====
-- What parsing an offer leaves in the sections.
use namecon.Common.Text.{NoLf, ascii, after_prefix, skip_blanks, lines, drop_cr}
use namecon.Sdp.Types.{MediaSection, SdpParser, parsed}
use namecon.Common.{◌≡◌, refl, List, [], ◌∷◌, Option, none, some, All}
use mathlib.Core.Path.{subst}
use namecon.Common.Bytes.{Bytes}
use namecon.Sdp.{
  start_section, attribute_line, extract_attr, parse_line, parse_lines, parse_offer, current,
  attribute_of, text_line, empty,
}
use namecon.Sdp.Pieces.{skip_blanks-NoLf, drop_cr-NoLf, lines-NoLf, after_prefix-NoLf}
use namecon.Sdp.Ready.{Ready, Post, Post-if, Post-and_then, section_line-Ready, start_section-Ready}

module _ (p₀ : SdpParser) where
  module _ (p : SdpParser) (r : Ready p₀ p) where
    attribute_of-Ready :
        (o : Option MediaSection) (l : Bytes)
        → current p.sections ≡ o
        → NoLf l
        → Post (Ready p₀) (attribute_of o l p)
    attribute_of-Ready none l now line = r
    attribute_of-Ready (some sec) l now line = section_line-Ready p₀ sec p r now l line

    attribute_line-Ready : (l : Bytes) → NoLf l → Post (Ready p₀) (attribute_line l p)
    unfolding attribute_line
    attribute_line-Ready l line =
        Post-if (Ready p₀) (empty (extract_attr l (ascii "ice-ufrag"))) _ _
          (Post-if (Ready p₀) (empty (extract_attr l (ascii "ice-pwd"))) _ _
            (Post-if (Ready p₀) (empty (extract_attr l (ascii "fingerprint"))) _ _
              (attribute_of-Ready (current p.sections) l refl line) r)
            r)
          r

    text_line-Ready : (l : Bytes) → NoLf l → Post (Ready p₀) (text_line l p)
    text_line-Ready [] line = r
    text_line-Ready (c ∷ l) line = media_or (after_prefix (ascii "m=") (c ∷ l)) refl
      where
        media_or :
            (o : Option Bytes)
            → after_prefix (ascii "m=") (c ∷ l) ≡ o
            → Post (Ready p₀) (elim o [
              | some text ↦ parsed (start_section text p)
              | none ↦ attribute_line (c ∷ l) p
            ])
        media_or none e = attribute_line-Ready (c ∷ l) line
        media_or (some text) e =
            start_section-Ready p₀ p r text (after_prefix-NoLf (ascii "m=") (c ∷ l) text e line)

  parse_line-Ready :
      (l : Bytes) (p : SdpParser) → NoLf l → Ready p₀ p → Post (Ready p₀) (parse_line l p)
  unfolding parse_line
  parse_line-Ready l p line r =
      text_line-Ready p r (skip_blanks (drop_cr l))
        (skip_blanks-NoLf (drop_cr l) (drop_cr-NoLf l line))

  parse_lines-Ready :
      (ls : List Bytes) (p : SdpParser)
      → All NoLf ls
      → Ready p₀ p
      → Post (Ready p₀) (parse_lines ls p)
  unfolding parse_lines
  parse_lines-Ready [] p line r = r
  parse_lines-Ready (l ∷ ls) p line r =
      Post-and_then (Ready p₀) (Ready p₀) (parse_line l p) (parse_lines ls)
        (parse_line-Ready l p line.0 r) (λ p' r'. parse_lines-Ready ls p' line.1 r')

  pub parse_offer-Ready :
      (sdp : Bytes) (p' : SdpParser) → parse_offer sdp p₀ ≡ parsed p' → Ready p₀ p'
  unfolding parse_offer
  parse_offer-Ready sdp p' e = subst (Post (Ready p₀)) e (
      parse_lines-Ready (lines sdp) (record p₀ { sections = [] }) (lines-NoLf sdp)
        (tt, refl, refl, refl, refl, refl, refl))
