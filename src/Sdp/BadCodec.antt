-- ===== src/Sdp/BadCodec.antt =====
-- An rtpmap whose payload type is no number.
use namecon.Common.Text.{NoLf, ascii, bytes_eq, after_prefix, contains, skip_blanks, read_int}
use namecon.Sdp.Types.{MediaSection, SdpParser, parsed, throws}
use mathlib.Core.List.{map-append, map}
use namecon.Common.{◌≡◌, ◌≢◌, refl, ◌∙◌, List, [], ◌∷◌, ◌++◌, none, some, arith, All}
use namecon.Common.Bytes.{Bytes}
use namecon.Sdp.{
  attribute_line, section_line, extract_attr, codec_line, main_codec, push_codec_line, parse_line,
  parse_lines, parse_offer, current, split_space, and_then,
}
use namecon.Sdp.Lines.{cr, parse_line-cr, lines-print_lines}
use namecon.Sdp.Answer.{print_lines}

split_space_at :
    (pt rest : Bytes) → All (λ c. c ≢ 32) pt → split_space (pt ++ (32 ∷ rest)) ≡ (pt, rest)
unfolding split_space
split_space_at [] rest h = refl
split_space_at (c ∷ pt) rest h = ground (arith, split_space_at pt rest h.1)

parse_lines-append :
    (a b : List Bytes) (p p' : SdpParser)
    → parse_lines a p ≡ parsed p'
    → parse_lines (a ++ b) p ≡ parse_lines b p'
unfolding parse_lines
parse_lines-append [] b p p' e = ground (arith, e)
parse_lines-append (l ∷ a) b p p' e =
    elim (parse_line l p)
        as (λ o.
          and_then o (parse_lines a) ≡ parsed p'
          → and_then o (parse_lines (a ++ b)) ≡ parse_lines b p') [
            | parsed p₁ ↦ λ e'. parse_lines-append a b p₁ p' e'
            | throws p₁ ↦ λ e'. cc
          ]
      e

-- A line "a=rtpmap:<pt> VP8<rest>".
abbrev pub vp8_line : Bytes → Bytes → Bytes
vp8_line pt rest = ascii "a=rtpmap:" ++ (pt ++ (ascii " VP8" ++ rest))

vp8_map-throws :
    (type pt rest : Bytes) (p : SdpParser)
    → type ≡ ascii "video"
    → All (λ c. c ≢ 32) pt
    → read_int pt ≡ none
    → main_codec type (pt ++ (ascii " VP8" ++ rest)) p ≡ throws p
unfolding main_codec bytes_eq contains after_prefix
vp8_map-throws type pt rest p video word bad =
    rw (video, split_space_at pt (ascii "VP8" ++ rest) word, bad)

vp8_line-throws :
    (pt rest : Bytes) (p : SdpParser) (sec : MediaSection)
    → current p.sections ≡ some sec
    → sec.type ≡ ascii "video"
    → All (λ c. c ≢ 32) pt
    → read_int pt ≡ none
    → parse_line (cr (vp8_line pt rest)) p ≡ throws (push_codec_line (vp8_line pt rest) p)
unfolding skip_blanks after_prefix attribute_line section_line extract_attr codec_line bytes_eq
vp8_line-throws pt rest p sec now video word bad =
    parse_line-cr (vp8_line pt rest) p
    ∙ rw now (vp8_map-throws sec.type pt rest (push_codec_line (vp8_line pt rest) p) video word bad)

-- In a video section, behind lines that are parsed, a line "a=rtpmap:<pt> VP8..." whose payload
-- type is no number that fits an `int` makes parseOffer throw, whatever follows it.
pub vp8_without_pt-throws :
    (before after : List Bytes) (pt rest : Bytes) (p p' : SdpParser) (sec : MediaSection)
    → All NoLf (before ++ vp8_line pt rest ∷ after)
    → parse_lines (map cr before) (record p { sections = [] }) ≡ parsed p'
    → current p'.sections ≡ some sec
    → sec.type ≡ ascii "video"
    → All (λ c. c ≢ 32) pt
    → read_int pt ≡ none
    → parse_offer (print_lines (before ++ vp8_line pt rest ∷ after)) p
      ≡ throws (push_codec_line (vp8_line pt rest) p')
unfolding parse_offer parse_lines
vp8_without_pt-throws before after pt rest p p' sec line took now video word bad =
    rw
      (
        lines-print_lines (before ++ vp8_line pt rest ∷ after) line,
        map-append cr before (vp8_line pt rest ∷ after),
      )
      (parse_lines-append (map cr before) (map cr (vp8_line pt rest ∷ after))
          (record p { sections = [] }) p' took
        ∙ rw (vp8_line-throws pt rest p' sec now video word bad))
