-- ===== src/Sdp/Reads.antt =====
-- The codec lines and the sections of an answer, read back.
use namecon.Common.Text.{
  NoLf, to_uint8, ascii, bytes_eq, after_prefix, skip_blanks, read_int, decimal,
}
use namecon.Sdp.Types.{
  Direction, unset, sendrecv, sendonly, recvonly, inactive, MediaSection, SdpParser, Payloads,
  Parse, parsed,
}
use namecon.Common.{
  ℕ, ◌≡◌, ◌≢◌, refl, sym, ap, ◌∙◌, Bool, true, false, List, [], ◌∷◌, ◌++◌, Option, none, some, ◌&&◌,
  if◌then◌else◌, map, All,
}
use mathlib.Core.List.{append_assoc, append-nil}
use mathlib.Core.Path.{subst}
use namecon.Common.Bytes.{Bytes}
use namecon.Sdp.{
  set_video_pt, set_audio_pt, attribute_line, section_line, extract_attr, codec_line, main_codec,
  push_codec_line, parse_line, parse_lines, is_vp8, is_opus, split_space,
}
use namecon.Sdp.Answer.{answer_dir, offer_dir, outlet_lines, ssrc_lines, found_ssrc, find_ssrc}
use namecon.Sdp.Lines.{cr, parse_line-cr, current-append, in_current-append}
use namecon.Sdp.Sections.{IsWord, at, Skipped, ssrc-Skipped}

-- `std::stoi` accepts the payload type, where it is asked to read it.
abbrev pub is_int : Option (Bool × ℕ × Bytes) → Bool
is_int none = false
is_int (some n) = true

unfoldable pub readable : Bytes → Bytes → Bool
readable type rv =
    let split = split_space rv in
    if bytes_eq type (ascii "video") && is_vp8 split.1
    then is_int (read_int split.0)
    else (if bytes_eq type (ascii "audio") && is_opus split.1
        then is_int (read_int split.0)
        else true)

-- The codec lines that a section of this type can hold.
pub data CodecLine (type : Bytes) : Bytes → Type 0 where
  rtpmap : (rv : Bytes) → readable type rv ≡ true → CodecLine type (ascii "a=rtpmap:" ++ rv)
  feedback : (v : Bytes) → CodecLine type (ascii "a=rtcp-fb:" ++ v)
  fmtp : (v : Bytes) → CodecLine type (ascii "a=fmtp:" ++ v)

-- A section that parsing can leave.
pub record IsClean (s : MediaSection) : Type 0 where
  pub type_word : IsWord s.type
  pub mid_line : NoLf s.mid
  pub pts_line : NoLf s.pt_list
  pub codecs : All (CodecLine s.type) s.codec_lines
  pub codecs_line : All NoLf s.codec_lines

-- Lines that take a parser from one state to another.
pub data Reads : List Bytes → SdpParser → SdpParser → Type 0 where
  done : (q : SdpParser) → Reads [] q q
  line :
      {l : Bytes} {ls : List Bytes} {q q₁ q' : SdpParser}
      → parse_line (cr l) q ≡ parsed q₁
      → Reads ls q₁ q'
      → Reads (l ∷ ls) q q'

pub Reads-sound :
    {ls : List Bytes} {q q' : SdpParser} → Reads ls q q' → parse_lines (map cr ls) q ≡ parsed q'
unfolding parse_lines
Reads-sound (done q) = refl
Reads-sound (line one more) = rw one (Reads-sound more)

pub Reads-append :
    {a b : List Bytes} {q q₁ q' : SdpParser} → Reads a q q₁ → Reads b q₁ q' → Reads (a ++ b) q q'
Reads-append (done q) hb = hb
Reads-append (line one more) hb = line one (Reads-append more hb)

abbrev pub set_pt : Bool → Bool → Option (Bool × ℕ × Bytes) → SdpParser → Parse
set_pt video audio read p =
    if video then set_video_pt read p else (if audio then set_audio_pt read p else parsed p)

set_pt-readable :
    (video audio : Bool) (read : Option (Bool × ℕ × Bytes)) (p : SdpParser)
    → (if video then is_int read else (if audio then is_int read else true)) ≡ true
    → (g : Payloads) × (set_pt video audio read p ≡ parsed (record p { shared = g }))
set_pt-readable false false read p h = (p.shared, refl)
set_pt-readable false true none p h = cc
set_pt-readable false true (some (negative, n, rest)) p h =
    (record p.shared { audio_pt = to_uint8 negative n }, refl)
set_pt-readable true audio none p h = cc
set_pt-readable true audio (some (negative, n, rest)) p h =
    (record p.shared { video_pt = to_uint8 negative n }, refl)

main_codec-readable :
    (type rv : Bytes) (p : SdpParser)
    → readable type rv ≡ true
    → (g : Payloads) × (main_codec type rv p ≡ parsed (record p { shared = g }))
unfolding main_codec readable
main_codec-readable type rv p h =
    let split = split_space rv in
    set_pt-readable (bytes_eq type (ascii "video") && is_vp8 split.1)
      (bytes_eq type (ascii "audio") && is_opus split.1) (read_int split.0) p h

in_current-push :
    (q : SdpParser) (xs : List MediaSection) (s : MediaSection) (l : Bytes)
    → push_codec_line l (at q xs s) ≡ at q xs (record s { codec_lines = s.codec_lines ++ l ∷ [] })
in_current-push q xs s l =
    ap (λ (ss : List MediaSection). record q { sections = ss })
      (in_current-append (λ t. record t { codec_lines = t.codec_lines ++ l ∷ [] }) xs s)

CodecLine-again :
    (q : SdpParser) (xs : List MediaSection) (s : MediaSection) (l : Bytes)
    → CodecLine s.type l
    → (g : Payloads) × (parse_line (cr l) (at q xs s)
        ≡ parsed
            (at (record q { shared = g }) xs (record s { codec_lines = s.codec_lines ++ l ∷ [] })))
unfolding skip_blanks after_prefix attribute_line section_line extract_attr codec_line bytes_eq
CodecLine-again q xs s l (rtpmap rv ok) =
    let line = ascii "a=rtpmap:" ++ rv in
    let pushed = at q xs (record s { codec_lines = s.codec_lines ++ line ∷ [] }) in
    let (g, e) = main_codec-readable s.type rv pushed ok in
    (
      g,
      parse_line-cr line (at q xs s)
          ∙ rw (current-append xs s) (rw (in_current-push q xs s line) e),
    )
CodecLine-again q xs s l (feedback v) =
    let line = ascii "a=rtcp-fb:" ++ v in
    (
      q.shared,
      parse_line-cr line (at q xs s)
          ∙ rw (current-append xs s) (ap parsed (in_current-push q xs s line)),
    )
CodecLine-again q xs s l (fmtp v) =
    let line = ascii "a=fmtp:" ++ v in
    (
      q.shared,
      parse_line-cr line (at q xs s)
          ∙ rw (current-append xs s) (ap parsed (in_current-push q xs s line)),
    )

-- All codec lines of a section.
pub codecs_again :
    (q : SdpParser) (xs : List MediaSection) (s : MediaSection) (ls : List Bytes)
    → All (CodecLine s.type) ls
    → (g : Payloads) × Reads ls
        (at q xs s)
        (at (record q { shared = g }) xs (record s { codec_lines = s.codec_lines ++ ls }))
codecs_again q xs s [] h = (
  q.shared,
  subst (λ x. Reads [] (at q xs s) (at q xs (record s { codec_lines = x })))
      (sym (append-nil s.codec_lines)) (done _),
)
codecs_again q xs s (l ∷ ls) h =
    let (g, one) = CodecLine-again q xs s l h.0 in
    let s₁ = record s { codec_lines = s.codec_lines ++ l ∷ [] } in
    let q₁ = record q { shared = g } in
    let (g', more) = codecs_again q₁ xs s₁ ls h.1 in
    (
      g',
      subst
          (λ x.
            Reads (l ∷ ls) (at q xs s)
              (at (record q { shared = g' }) xs (record s { codec_lines = x })))
          (append_assoc s.codec_lines (l ∷ []) ls) (line one more),
    )

pub skips_read :
    (ls : List Bytes) (q : SdpParser) (xs : List MediaSection) (s : MediaSection)
    → All Skipped ls
    → Reads ls (at q xs s) (at q xs s)
skips_read [] q xs s h = done _
skips_read (l ∷ ls) q xs s h = line (h.0 q xs s) (skips_read ls q xs s h.1)

found-Skipped : (found : Option ℕ) → All Skipped (found_ssrc found)
unfolding ssrc_lines
found-Skipped none = tt
found-Skipped (some n) =
    let ssrc = decimal n in
    (
      ssrc-Skipped (ssrc ++ ascii " cname:namecon"),
      (
        ssrc-Skipped (ssrc ++ (ascii " msid:namecon namecon" ++ ssrc)),
        (
          ssrc-Skipped (ssrc ++ ascii " mslabel:namecon"),
          (ssrc-Skipped (ssrc ++ (ascii " label:namecon" ++ ssrc)), tt),
        ),
      ),
    )

pub outlet-Skipped :
    (d : Direction) (mid : Bytes) (m : List (Bytes × ℕ)) → All Skipped (outlet_lines d mid m)
unfolding outlet_lines
outlet-Skipped recvonly mid m = found-Skipped (find_ssrc mid m)
outlet-Skipped unset mid m = tt
outlet-Skipped sendrecv mid m = tt
outlet-Skipped sendonly mid m = tt
outlet-Skipped inactive mid m = tt

pub answer_dir-ne-unset : (d : Direction) → answer_dir (offer_dir d) ≢ unset
unfolding answer_dir
answer_dir-ne-unset unset = cc
answer_dir-ne-unset sendrecv = cc
answer_dir-ne-unset sendonly = cc
answer_dir-ne-unset recvonly = cc
answer_dir-ne-unset inactive = cc
