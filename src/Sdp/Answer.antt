-- ===== src/Sdp/Answer.antt =====
-- media-svc/sdp/SdpParser.cpp: generateAnswer, with setServerInfo and setMidSsrcMap.
use namecon.Sdp.Types.{
  Direction, unset, sendrecv, sendonly, recvonly, inactive, MediaSection, SdpParser, Parse, parsed,
  throws,
}
use namecon.Common.{ℕ, List, [], ◌∷◌, ◌++◌, Option, none, some, ◌==◌, if◌then◌else◌}
use namecon.Common.Bytes.{Bytes}
use namecon.Common.Int.{ℤ, pos, negsuc}
use namecon.Common.Text.{ascii, bytes_eq, decimal}
use namecon.Sdp.{empty, parse_offer, accepted}

unfoldable pub set_server_info : Bytes → ℤ → Bytes → Bytes → Bytes → SdpParser → SdpParser
set_server_info ip port ufrag pwd fingerprint p = record p {
  server_ip = ip;
  server_port = port;
  server_ufrag = ufrag;
  server_pwd = pwd;
  server_fingerprint = fingerprint;
}

unfoldable pub set_mid_ssrc_map : List (Bytes × ℕ) → SdpParser → SdpParser
set_mid_ssrc_map m p = record p { mid_ssrc = m }

abbrev pub or_default : Bytes → Bytes → Bytes
or_default text default = if empty text then default else text

unfoldable pub srv_ip : SdpParser → Bytes
srv_ip p = or_default p.server_ip (ascii "127.0.0.1")

abbrev pub port_or_default : ℤ → ℕ
port_or_default (pos n) = if n == 0 then 10000 else n
port_or_default (negsuc n) = 10000

unfoldable pub srv_port : SdpParser → ℕ
srv_port p = port_or_default p.server_port

unfoldable pub srv_uf : SdpParser → Bytes
srv_uf p = or_default p.server_ufrag (ascii "sfu_default")

unfoldable pub srv_pwd : SdpParser → Bytes
srv_pwd p = or_default p.server_pwd (ascii "default_pwd")

unfoldable pub srv_fp : SdpParser → Bytes
srv_fp p = or_default p.server_fingerprint (ascii "00:00:00:00:00")

-- `offerDir`
abbrev pub offer_dir : Direction → Direction
offer_dir unset = sendrecv
offer_dir d = d

unfoldable pub answer_dir : Direction → Direction
answer_dir sendrecv = sendrecv
answer_dir sendonly = recvonly
answer_dir recvonly = sendonly
answer_dir d = inactive

abbrev pub direction_text : Direction → Bytes
direction_text unset = []
direction_text sendrecv = ascii "sendrecv"
direction_text sendonly = ascii "sendonly"
direction_text recvonly = ascii "recvonly"
direction_text inactive = ascii "inactive"

unfoldable pub find_ssrc : Bytes → List (Bytes × ℕ) → Option ℕ
find_ssrc mid [] = none
find_ssrc mid ((m, ssrc) ∷ rest) = if bytes_eq m mid then some ssrc else find_ssrc mid rest

unfoldable pub bundle : List MediaSection → Bytes
bundle [] = []
bundle (sec ∷ rest) = ascii " " ++ (sec.mid ++ bundle rest)

unfoldable pub header_lines : SdpParser → List Bytes
header_lines p =
    ascii "v=0"
    ∷ (ascii "o=- 0 0 IN IP4 " ++ srv_ip p)
    ∷ ascii "s=NameCon"
    ∷ ascii "t=0 0"
    ∷ (ascii "a=group:BUNDLE" ++ bundle p.sections)
    ∷ ascii "a=msid-semantic: WMS"
    ∷ ascii "a=ice-lite"
    ∷ []

unfoldable pub ssrc_lines : Bytes → List Bytes
ssrc_lines ssrc =
    (ascii "a=ssrc:" ++ (ssrc ++ ascii " cname:namecon"))
    ∷ (ascii "a=ssrc:" ++ (ssrc ++ (ascii " msid:namecon namecon" ++ ssrc)))
    ∷ (ascii "a=ssrc:" ++ (ssrc ++ ascii " mslabel:namecon"))
    ∷ (ascii "a=ssrc:" ++ (ssrc ++ (ascii " label:namecon" ++ ssrc)))
    ∷ []

abbrev pub found_ssrc : Option ℕ → List Bytes
found_ssrc none = []
found_ssrc (some ssrc) = ssrc_lines (decimal ssrc)

unfoldable pub outlet_lines : Direction → Bytes → List (Bytes × ℕ) → List Bytes
outlet_lines recvonly mid mid_ssrc = found_ssrc (find_ssrc mid mid_ssrc)
outlet_lines d mid mid_ssrc = []

-- The lines of every section that stand before its codecs.
unfoldable pub fixed_lines : SdpParser → MediaSection → List Bytes
fixed_lines p sec =
    (ascii "m=" ++ (sec.type ++ (ascii " 9 UDP/TLS/RTP/SAVPF " ++ sec.pt_list)))
    ∷ ascii "c=IN IP4 0.0.0.0"
    ∷ (ascii "a=ice-ufrag:" ++ srv_uf p)
    ∷ (ascii "a=ice-pwd:" ++ srv_pwd p)
    ∷ (ascii "a=candidate:1 1 UDP 2130706433 "
        ++ (srv_ip p ++ (ascii " " ++ (decimal (srv_port p) ++ ascii " typ host"))))
    ∷ ascii "a=rtcp:9 IN IP4 0.0.0.0"
    ∷ (ascii "a=fingerprint:sha-256 " ++ srv_fp p)
    ∷ ascii "a=setup:passive"
    ∷ ascii "a=rtcp-mux"
    ∷ (ascii "a=mid:" ++ sec.mid)
    ∷ (ascii "a=" ++ direction_text (answer_dir (offer_dir sec.direction)))
    ∷ []

unfoldable pub section_lines : SdpParser → MediaSection → List Bytes
section_lines p sec =
    fixed_lines p sec
    ++ (sec.codec_lines ++ outlet_lines (offer_dir sec.direction) sec.mid p.mid_ssrc)

unfoldable pub all_section_lines : SdpParser → List MediaSection → List Bytes
all_section_lines p [] = []
all_section_lines p (sec ∷ rest) = section_lines p sec ++ all_section_lines p rest

unfoldable pub answer_lines : SdpParser → List Bytes
answer_lines p = header_lines p ++ all_section_lines p p.sections

-- Lines, each with "\r\n" behind it.
unfoldable pub print_lines : List Bytes → Bytes
print_lines [] = []
print_lines (l ∷ ls) = l ++ (13 ∷ 10 ∷ print_lines ls)

-- The answer, empty where the offer is refused, or what `std::stoi` throws; with the parser as it
-- is left.
pub data Answer : Type 0 where
  answer : Bytes → SdpParser → Answer
  threw : SdpParser → Answer

abbrev pub answer_of : Parse → Answer
answer_of (throws p) = threw p
answer_of (parsed p) = answer (if accepted p then print_lines (answer_lines p) else []) p

unfoldable pub generate_answer : Bytes → SdpParser → Answer
generate_answer offer p = answer_of (parse_offer offer p)
