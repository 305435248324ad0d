-- ===== src/Sdp/Runs.antt =====
-- SdpParser on a small offer.
use namecon.Sdp.Payload.{Keeps, parse_offer-Keeps, left}
use namecon.Sdp.Sections.{media_text}
use namecon.Sdp.PtList.{Added, start_section-Added, print_pts}
use namecon.Sdp.Types.{unset, recvonly, MediaSection, Payloads, SdpParser, parsed, throws}
use namecon.Common.{◌≡◌, refl, true, false, List, [], ◌∷◌, ◌++◌, map, arith}
use mathlib.Core.List.{Mem}
use namecon.Common.Bytes.{Bytes}
use namecon.Common.Int.{pos}
use namecon.Common.Text.{
  ascii, bytes_eq, after_prefix, contains, lines, drop_cr, skip_blanks, skip_space, word_of,
  behind_word, digits_onto, read_int, decimal_onto,
}
use namecon.Sdp.{
  extract_attr, current, in_current, insert_pt, add_pt, add_pts, drop_space, media_section,
  start_section, split_space, behind_space, main_codec, push_codec_line, codec_line, section_line,
  attribute_line, parse_line, parse_lines, parse_offer, accepted,
}
use namecon.Sdp.Answer.{print_lines, generate_answer, answer, outlet_lines, ssrc_lines, find_ssrc}
use namecon.Sdp.Lines.{cr}
use namecon.Sdp.ReadBack.{HasRead, generate_answer_read_back}
use namecon.Sdp.BadCodec.{vp8_without_pt-throws, vp8_line}
use namecon.Sdp.Throws.{parse_offer-throws, BadLine}

abbrev no_payloads : Payloads
no_payloads = record {
  video_pts = λ pt. false;
  audio_pts = λ pt. false;
  video_pt = 96;
  audio_pt = 111;
}

abbrev new_parser : SdpParser
new_parser = record {
  sections = [];
  ice_ufrag = [];
  ice_pwd = [];
  fingerprint = [];
  server_ip = ascii "10.0.0.1";
  server_port = pos 5000;
  server_ufrag = ascii "uf";
  server_pwd = ascii "pw";
  server_fingerprint = ascii "AA";
  mid_ssrc = (ascii "0", 77) ∷ [];
  shared = no_payloads;
}

-- A viewer's offer.
abbrev before_media : List Bytes
before_media =
    ascii "v=0"
    ∷ ascii "a=ice-ufrag:u"
    ∷ ascii "a=fingerprint:sha-256 BB"
    ∷ ascii "m=video 9 X 96"
    ∷ []

abbrev offer : Bytes
offer =
    print_lines
      (before_media ++ ascii "a=mid:0" ∷ ascii "a=recvonly" ∷ ascii "a=rtpmap:96 VP8" ∷ [])

abbrev read_section : MediaSection
read_section = record {
  type = ascii "video";
  mid = ascii "0";
  direction = recvonly;
  pt_list = ascii "96";
  codec_lines = ascii "a=rtpmap:96 VP8" ∷ [];
}

abbrev taken : SdpParser
taken = record new_parser {
  sections = read_section ∷ [];
  ice_ufrag = ascii "u";
  fingerprint = ascii "BB";
  shared = record no_payloads { video_pts = insert_pt 96 (λ pt. false) };
}

offer-taken : parse_offer offer new_parser ≡ parsed taken
unfolding parse_offer lines print_lines parse_lines parse_line drop_cr skip_blanks after_prefix
    start_section media_section skip_space word_of behind_word drop_space add_pts read_int
    digits_onto add_pt bytes_eq attribute_line extract_attr current in_current section_line
    codec_line main_codec split_space contains behind_space
offer-taken = refl

-- The last lines of the answer carry the SSRC of the mid.
answered_ssrc :
    outlet_lines recvonly (ascii "0") taken.mid_ssrc
    ≡ ascii "a=ssrc:77 cname:namecon"
      ∷ ascii "a=ssrc:77 msid:namecon namecon77"
      ∷ ascii "a=ssrc:77 mslabel:namecon"
      ∷ ascii "a=ssrc:77 label:namecon77"
      ∷ []
unfolding outlet_lines find_ssrc bytes_eq ssrc_lines decimal_onto
answered_ssrc = refl

accepted-taken : accepted taken ≡ true
unfolding accepted
accepted-taken = refl

generate_answer_read_back_example :
    (text : Bytes) × (q' : SdpParser) × (generate_answer offer new_parser ≡ answer text taken)
    × (parse_offer text new_parser ≡ parsed q')
    × HasRead new_parser taken q'
generate_answer_read_back_example =
    generate_answer_read_back offer new_parser taken new_parser (omega arith) (omega arith)
      (omega arith) (omega arith) offer-taken accepted-taken (cc, tt) refl refl refl

parse_offer-Keeps_example : Keeps taken.shared (left (parse_offer offer taken)).shared
parse_offer-Keeps_example = parse_offer-Keeps offer taken

abbrev media_taken : SdpParser
media_taken = record taken {
  sections = record read_section { mid = []; direction = unset; codec_lines = [] } ∷ [];
}

media_parsed : parse_lines (map cr before_media) new_parser ≡ parsed media_taken
unfolding parse_lines parse_line drop_cr skip_blanks after_prefix start_section media_section
    skip_space word_of behind_word drop_space add_pts read_int digits_onto add_pt bytes_eq
    attribute_line extract_attr current behind_space
media_parsed = refl

vp8_without_pt-throws_example :
    parse_offer (print_lines (before_media ++ vp8_line (ascii "x") [] ∷ [])) new_parser
    ≡ throws (push_codec_line (vp8_line (ascii "x") []) media_taken)
unfolding current read_int skip_space
vp8_without_pt-throws_example =
    vp8_without_pt-throws before_media [] (ascii "x") [] new_parser media_taken _ (omega arith)
      media_parsed refl refl (omega arith) refl

x_throws :
    parse_offer (print_lines (before_media ++ vp8_line (ascii "x") [] ∷ [])) new_parser
    ≡ throws (push_codec_line (vp8_line (ascii "x") []) media_taken)
unfolding parse_offer lines print_lines parse_lines parse_line drop_cr skip_blanks after_prefix
    start_section media_section skip_space word_of behind_word drop_space add_pts read_int
    digits_onto add_pt bytes_eq attribute_line extract_attr current in_current section_line
    codec_line main_codec split_space contains behind_space
x_throws = refl

parse_offer-throws_example :
    (l : Bytes) × Mem l (lines (print_lines (before_media ++ vp8_line (ascii "x") [] ∷ [])))
    × BadLine l
parse_offer-throws_example =
    parse_offer-throws (print_lines (before_media ++ vp8_line (ascii "x") [] ∷ [])) new_parser
      (push_codec_line (vp8_line (ascii "x") []) media_taken) x_throws

start_section-Added_example :
    Added
      (96 ∷ 97 ∷ [])
      no_payloads
      (start_section
        (media_text
          (ascii "video")
          (ascii "9")
          (ascii "UDP/TLS/RTP/SAVPF")
          (print_pts (96 ∷ 97 ∷ [])))
        new_parser).shared
start_section-Added_example =
    start_section-Added (ascii "9") (ascii "UDP/TLS/RTP/SAVPF") (96 ∷ 97 ∷ []) new_parser (refl, tt)
      (cc)
      (
        refl,
        (
          refl,
          (
            refl,
            (
              refl,
              (
                refl,
                (
                  refl,
                  (
                    refl,
                    (
                      refl,
                      (refl, (refl, (refl, (refl, (refl, (refl, (refl, (refl, (refl, tt))))))))),
                    ),
                  ),
                ),
              ),
            ),
          ),
        ),
      )
      (cc) (omega arith)
