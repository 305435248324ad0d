-- ===== src/Sdp.antt =====
-- media-svc/sdp/SdpParser.cpp: parseOffer.
pub mod Answer
pub mod Lines
pub mod Sections
pub mod Clean
pub mod Ready
pub mod Reads
pub mod Pieces
pub mod Texts
pub mod Payload
pub mod PtList
pub mod Throws
pub mod BadCodec
pub mod Types
mod Runs
pub mod ReadBack
pub mod RoundTrip
use namecon.Sdp.Types.{
  Direction, MediaSection, Parse, Payloads, SdpParser, inactive, parsed, recvonly, sendonly,
  sendrecv, throws, unset,
}
use namecon.Common.{
  ℕ, zero, suc, Bool, true, false, ◌&&◌, ◌||◌, List, [], ◌∷◌, ◌++◌, Option, none, some, ◌==◌,
  if◌then◌else◌, length,
}
use namecon.Common.Bytes.{Bytes}
use namecon.Common.Int.{ℤ}
use namecon.Common.Text.{
  ascii, bytes_eq, after_prefix, contains, lines, drop_cr, skip_blanks, next_word, read_int,
  to_uint8,
}

-- `extractAttr`
abbrev pub or_empty : Option Bytes → Bytes
or_empty none = []
or_empty (some text) = text

unfoldable pub extract_attr : Bytes → Bytes → Bytes
extract_attr line key = or_empty (after_prefix (ascii "a=" ++ key ++ ascii ":") line)

abbrev pub empty : Bytes → Bool
empty [] = true
empty (c ∷ text) = false

-- `current`: the last section, or null before the first. It is set anew whenever the vector grows.
unfoldable pub current : List MediaSection → Option MediaSection
current [] = none
current (s ∷ []) = some s
current (s ∷ t ∷ rest) = current (t ∷ rest)

unfoldable pub in_current : (MediaSection → MediaSection) → List MediaSection → List MediaSection
in_current f [] = []
in_current f (s ∷ []) = f s ∷ []
in_current f (s ∷ t ∷ rest) = s ∷ in_current f (t ∷ rest)

unfoldable pub insert_pt : ℕ → (ℕ → Bool) → ℕ → Bool
insert_pt pt pts other = (other == pt) || pts other

unfoldable pub add_pt : Bytes → ℕ → Payloads → Payloads
add_pt type pt g =
    if bytes_eq type (ascii "video")
    then record g { video_pts = insert_pt pt g.video_pts }
    else (if bytes_eq type (ascii "audio")
        then record g { audio_pts = insert_pt pt g.audio_pts }
        else g)

-- `while (pts >> pt)`; each round reads a character at least.
unfoldable pub add_pts : ℕ → Bytes → Bytes → Payloads → Payloads
add_pts zero type text g = g
add_pts (suc fuel) type text g = elim (read_int text) [
  | none ↦ g
  | some (negative, n, rest) ↦ add_pts fuel type rest (add_pt type (to_uint8 negative n) g)
]

-- `if (!rest.empty() && rest[0] == ' ') rest.erase(0, 1)`
unfoldable pub drop_space : Bytes → Bytes
drop_space [] = []
drop_space (c ∷ text) = if c == 32 then text else c ∷ text

-- A line `m=`, from its third character on.
unfoldable pub media_section : Bytes → MediaSection
media_section text =
    let type = next_word text in
    let port = next_word type.1 in
    let proto = next_word port.1 in
    record {
      type = type.0;
      mid = [];
      direction = unset;
      pt_list = drop_space proto.1;
      codec_lines = [];
    }

unfoldable pub start_section : Bytes → SdpParser → SdpParser
start_section text p =
    let sec = media_section text in
    record p {
      sections = p.sections ++ sec ∷ [];
      shared = add_pts (suc (length sec.pt_list)) sec.type sec.pt_list p.shared;
    }

-- What stands before the first space, and behind it.
unfoldable pub split_space : Bytes → Bytes × Bytes
split_space [] = ([], [])
split_space (c ∷ text) =
    let split = split_space text in if c == 32 then ([], text) else (c ∷ split.0, split.1)

-- `val.substr(val.find(' ') + 1)`, or `val` where there is no space.
unfoldable pub behind_space : Bytes → Bytes → Bytes
behind_space all [] = all
behind_space all (c ∷ text) = if c == 32 then text else behind_space all text

abbrev pub first_of : Bytes → Bytes → Bytes
first_of old new = if empty old then new else old

abbrev pub set_video_pt : Option (Bool × ℕ × Bytes) → SdpParser → Parse
set_video_pt none p = throws p
set_video_pt (some (negative, n, rest)) p =
    parsed (record p { shared = record p.shared { video_pt = to_uint8 negative n } })

abbrev pub set_audio_pt : Option (Bool × ℕ × Bytes) → SdpParser → Parse
set_audio_pt none p = throws p
set_audio_pt (some (negative, n, rest)) p =
    parsed (record p { shared = record p.shared { audio_pt = to_uint8 negative n } })

abbrev pub is_vp8 : Bytes → Bool
is_vp8 codec = contains (ascii "VP8") codec || contains (ascii "vp8") codec

abbrev pub is_opus : Bytes → Bool
is_opus codec = contains (ascii "opus") codec || contains (ascii "Opus") codec

-- An rtpmap of a section of this type, from the payload type on.
unfoldable pub main_codec : Bytes → Bytes → SdpParser → Parse
main_codec type rv p =
    let split = split_space rv in
    if bytes_eq type (ascii "video") && is_vp8 split.1
    then set_video_pt (read_int split.0) p
    else (if bytes_eq type (ascii "audio") && is_opus split.1
        then set_audio_pt (read_int split.0) p
        else parsed p)

abbrev pub push_codec_line : Bytes → SdpParser → SdpParser
push_codec_line line p = record p {
  sections = in_current (λ s. record s { codec_lines = s.codec_lines ++ line ∷ [] }) p.sections;
}

abbrev pub direction_of : Bytes → Option Direction
direction_of line =
    if bytes_eq line (ascii "a=sendrecv")
    then some sendrecv
    else (if bytes_eq line (ascii "a=sendonly")
        then some sendonly
        else (if bytes_eq line (ascii "a=recvonly")
            then some recvonly
            else (if bytes_eq line (ascii "a=inactive") then some inactive else none)))

abbrev pub is_feedback : Bytes → Bool
is_feedback line = elim (after_prefix (ascii "a=rtcp-fb:") line) [
  | some _ ↦ true
  | none ↦ elim (after_prefix (ascii "a=fmtp:") line) [ some _ ↦ true | none ↦ false ]
]

unfoldable pub codec_line : Bytes → Bytes → SdpParser → Parse
codec_line type line p = elim (after_prefix (ascii "a=rtpmap:") line) [
  | some rv ↦ main_codec type rv (push_codec_line line p)
  | none ↦ parsed (if is_feedback line then push_codec_line line p else p)
]

unfoldable pub section_line : Bytes → Bytes → SdpParser → Parse
section_line type line p =
    let mid = extract_attr line (ascii "mid") in
    if empty mid
    then (elim (direction_of line) [
      | some d ↦
          parsed (record p { sections = in_current (λ s. record s { direction = d }) p.sections })
      | none ↦ codec_line type line p
    ])
    else parsed (record p { sections = in_current (λ s. record s { mid = mid }) p.sections })

abbrev pub attribute_of : Option MediaSection → Bytes → SdpParser → Parse
attribute_of none line p = parsed p
attribute_of (some sec) line p = section_line sec.type line p

unfoldable pub attribute_line : Bytes → SdpParser → Parse
attribute_line line p =
    let ufrag = extract_attr line (ascii "ice-ufrag") in
    let pwd = extract_attr line (ascii "ice-pwd") in
    let print = extract_attr line (ascii "fingerprint") in
    if empty ufrag
    then (if empty pwd
        then (if empty print
            then attribute_of (current p.sections) line p
            else parsed
                (record p { fingerprint = first_of p.fingerprint (behind_space print print) }))
        else parsed (record p { ice_pwd = first_of p.ice_pwd pwd }))
    else parsed (record p { ice_ufrag = first_of p.ice_ufrag ufrag })

-- A line without the carriage return and the blanks before it.
abbrev pub text_line : Bytes → SdpParser → Parse
text_line [] p = parsed p
text_line (c ∷ line) p = elim (after_prefix (ascii "m=") (c ∷ line)) [
  | some text ↦ parsed (start_section text p)
  | none ↦ attribute_line (c ∷ line) p
]

unfoldable pub parse_line : Bytes → SdpParser → Parse
parse_line line p = text_line (skip_blanks (drop_cr line)) p

abbrev pub and_then : Parse → (SdpParser → Parse) → Parse
and_then (parsed p) next = next p
and_then (throws p) next = throws p

unfoldable pub parse_lines : List Bytes → SdpParser → Parse
parse_lines [] p = parsed p
parse_lines (line ∷ rest) p = and_then (parse_line line p) (λ p'. parse_lines rest p')

-- `parseOffer`, up to its result.
unfoldable pub parse_offer : Bytes → SdpParser → Parse
parse_offer sdp p = parse_lines (lines sdp) (record p { sections = [] })

abbrev pub no_section : List MediaSection → Bool
no_section [] = true
no_section (s ∷ rest) = false

-- The result of `parseOffer`.
unfoldable pub accepted : SdpParser → Bool
accepted p =
    if empty p.ice_ufrag
    then false
    else (if empty p.fingerprint then false else (if no_section p.sections then false else true))
