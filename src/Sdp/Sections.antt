-- ===== src/Sdp/Sections.antt =====
-- The lines of an answer, read back one by one.
use namecon.Sdp.Types.{
  sendrecv, sendonly, recvonly, inactive, Direction, unset, MediaSection, SdpParser, parsed,
}
use namecon.Sdp.Answer.{direction_text}
use namecon.Sdp.{
  first_of, behind_space, media_section, drop_space, attribute_line, section_line, extract_attr,
  codec_line, parse_line,
}
use namecon.Sdp.Lines.{in_current-append, cr, parse_line-cr, current-append}
use namecon.Common.{◌≡◌, ◌≢◌, refl, ◌∙◌, false, List, [], ◌∷◌, ◌++◌, All}
use namecon.Common.Bytes.{Bytes}
use namecon.Common.Text.{
  ascii, bytes_eq, after_prefix, skip_blanks, skip_space, word_of, behind_word, is_space,
}

-- No white space in a word.
abbrev pub IsWord : Bytes → Type 0
IsWord text = All (λ c. is_space c ≡ false) text

word_of-word :
    (w rest : Bytes)
    → IsWord w
    → (word_of (w ++ 32 ∷ rest) ≡ w) × (behind_word (w ++ 32 ∷ rest) ≡ 32 ∷ rest)
unfolding word_of behind_word
word_of-word [] rest h = (refl, refl)
word_of-word (c ∷ w) rest h =
    let (first, behind) = word_of-word w rest h.1 in (rw (h.0, first), rw (h.0, behind))

skip_space-word : (w rest : Bytes) → IsWord w → w ≢ [] → skip_space (w ++ rest) ≡ w ++ rest
unfolding skip_space
skip_space-word [] rest h n = absurd (n refl)
skip_space-word (c ∷ w) rest h n = rw h.0

skip_space-blank : (text : Bytes) → skip_space (32 ∷ text) ≡ skip_space text
unfolding skip_space
skip_space-blank text = refl

-- Four words of an m= line, the last of which is the rest of the line.
abbrev pub media_text : Bytes → Bytes → Bytes → Bytes → Bytes
media_text type port proto pts = type ++ 32 ∷ (port ++ 32 ∷ (proto ++ 32 ∷ pts))

pub media_section-words :
    (type port proto pts : Bytes)
    → IsWord type
    → type ≢ []
    → IsWord port
    → port ≢ []
    → IsWord proto
    → proto ≢ []
    → media_section (media_text type port proto pts)
      ≡ record { type = type; mid = []; direction = unset; pt_list = pts; codec_lines = [] }
unfolding media_section drop_space
media_section-words type port proto pts hT nT hP nP hQ nQ =
    let (first, behind) = word_of-word type (port ++ 32 ∷ (proto ++ 32 ∷ pts)) hT in
    let second = (word_of-word port (proto ++ 32 ∷ pts) hP).1 in
    let third = (word_of-word proto pts hQ).1 in
    rw
      (
        skip_space-word type (32 ∷ (port ++ 32 ∷ (proto ++ 32 ∷ pts))) hT nT,
        first,
        behind,
        skip_space-blank (port ++ 32 ∷ (proto ++ 32 ∷ pts)),
        skip_space-word port (32 ∷ (proto ++ 32 ∷ pts)) hP nP,
        second,
        skip_space-blank (proto ++ 32 ∷ pts),
        skip_space-word proto (32 ∷ pts) hQ nQ,
        third,
      )
      refl

pub media_section-printed :
    (type pts : Bytes)
    → IsWord type
    → type ≢ []
    → media_section (type ++ (ascii " 9 UDP/TLS/RTP/SAVPF " ++ pts))
      ≡ record { type = type; mid = []; direction = unset; pt_list = pts; codec_lines = [] }
unfolding media_section drop_space skip_space word_of behind_word
media_section-printed type pts h n =
    let tail = ascii "9 UDP/TLS/RTP/SAVPF " ++ pts in
    let (first, behind) = word_of-word type tail h in
    rw (skip_space-word type (32 ∷ tail) h n, first, behind)

-- A parser whose last section is `s`, behind the sections `xs`.
abbrev pub at : SdpParser → List MediaSection → MediaSection → SdpParser
at q xs s = record q { sections = xs ++ s ∷ [] }

-- A line that no branch takes.
abbrev pub Skipped : Bytes → Type 0
Skipped l =
    (q : SdpParser) (xs : List MediaSection) (s : MediaSection)
    → parse_line (cr l) (at q xs s) ≡ parsed (at q xs s)

pub candidate-Skipped : (v : Bytes) → Skipped (ascii "a=candidate:1 1 UDP 2130706433 " ++ v)
unfolding skip_blanks after_prefix attribute_line section_line extract_attr codec_line bytes_eq
candidate-Skipped v q xs s =
    parse_line-cr (ascii "a=candidate:1 1 UDP 2130706433 " ++ v) (at q xs s)
    ∙ rw (current-append xs s)

pub connection-Skipped : Skipped (ascii "c=IN IP4 0.0.0.0")
unfolding skip_blanks after_prefix attribute_line section_line extract_attr codec_line bytes_eq
connection-Skipped q xs s =
    parse_line-cr (ascii "c=IN IP4 0.0.0.0") (at q xs s) ∙ rw (current-append xs s)

pub rtcp-Skipped : Skipped (ascii "a=rtcp:9 IN IP4 0.0.0.0")
unfolding skip_blanks after_prefix attribute_line section_line extract_attr codec_line bytes_eq
rtcp-Skipped q xs s =
    parse_line-cr (ascii "a=rtcp:9 IN IP4 0.0.0.0") (at q xs s) ∙ rw (current-append xs s)

pub setup-Skipped : Skipped (ascii "a=setup:passive")
unfolding skip_blanks after_prefix attribute_line section_line extract_attr codec_line bytes_eq
setup-Skipped q xs s =
    parse_line-cr (ascii "a=setup:passive") (at q xs s) ∙ rw (current-append xs s)

pub mux-Skipped : Skipped (ascii "a=rtcp-mux")
unfolding skip_blanks after_prefix attribute_line section_line extract_attr codec_line bytes_eq
mux-Skipped q xs s = parse_line-cr (ascii "a=rtcp-mux") (at q xs s) ∙ rw (current-append xs s)

pub ssrc-Skipped : (v : Bytes) → Skipped (ascii "a=ssrc:" ++ v)
unfolding skip_blanks after_prefix attribute_line section_line extract_attr codec_line bytes_eq
ssrc-Skipped v q xs s = parse_line-cr (ascii "a=ssrc:" ++ v) (at q xs s) ∙ rw (current-append xs s)

module _ (q : SdpParser) (xs : List MediaSection) (s : MediaSection) where
  pub ufrag_line :
      (v : Bytes)
      → v ≢ []
      → parse_line (cr (ascii "a=ice-ufrag:" ++ v)) (at q xs s)
        ≡ parsed (at (record q { ice_ufrag = first_of q.ice_ufrag v }) xs s)
  unfolding skip_blanks after_prefix attribute_line extract_attr
  ufrag_line [] n = absurd (n refl)
  ufrag_line (c ∷ v) n = parse_line-cr (ascii "a=ice-ufrag:" ++ c ∷ v) (at q xs s)

  pub pwd_line :
      (v : Bytes)
      → v ≢ []
      → parse_line (cr (ascii "a=ice-pwd:" ++ v)) (at q xs s)
        ≡ parsed (at (record q { ice_pwd = first_of q.ice_pwd v }) xs s)
  unfolding skip_blanks after_prefix attribute_line extract_attr
  pwd_line [] n = absurd (n refl)
  pwd_line (c ∷ v) n = parse_line-cr (ascii "a=ice-pwd:" ++ c ∷ v) (at q xs s)

  pub fingerprint_line :
      (v : Bytes)
      → parse_line (cr (ascii "a=fingerprint:sha-256 " ++ v)) (at q xs s)
        ≡ parsed (at (record q { fingerprint = first_of q.fingerprint v }) xs s)
  unfolding skip_blanks after_prefix attribute_line extract_attr behind_space
  fingerprint_line v = parse_line-cr (ascii "a=fingerprint:sha-256 " ++ v) (at q xs s)

  pub mid_line :
      (v : Bytes)
      → s.mid ≡ []
      → parse_line (cr (ascii "a=mid:" ++ v)) (at q xs s) ≡ parsed (at q xs (record s { mid = v }))
  unfolding skip_blanks after_prefix attribute_line section_line extract_attr codec_line bytes_eq
  mid_line [] fresh = parse_line-cr (ascii "a=mid:") (at q xs s) ∙ rw (current-append xs s, fresh)
  mid_line (c ∷ v) fresh =
      parse_line-cr (ascii "a=mid:" ++ c ∷ v) (at q xs s)
      ∙ rw (current-append xs s, in_current-append (λ t. record t { mid = c ∷ v }) xs s)

  pub direction_line :
      (d : Direction)
      → d ≢ unset
      → parse_line (cr (ascii "a=" ++ direction_text d)) (at q xs s)
        ≡ parsed (at q xs (record s { direction = d }))
  unfolding skip_blanks after_prefix attribute_line section_line extract_attr bytes_eq
  direction_line unset n = absurd (n refl)
  direction_line sendrecv n =
      parse_line-cr (ascii "a=sendrecv") (at q xs s)
      ∙ rw (current-append xs s, in_current-append (λ t. record t { direction = sendrecv }) xs s)
  direction_line sendonly n =
      parse_line-cr (ascii "a=sendonly") (at q xs s)
      ∙ rw (current-append xs s, in_current-append (λ t. record t { direction = sendonly }) xs s)
  direction_line recvonly n =
      parse_line-cr (ascii "a=recvonly") (at q xs s)
      ∙ rw (current-append xs s, in_current-append (λ t. record t { direction = recvonly }) xs s)
  direction_line inactive n =
      parse_line-cr (ascii "a=inactive") (at q xs s)
      ∙ rw (current-append xs s, in_current-append (λ t. record t { direction = inactive }) xs s)
