-- ===== src/Sdp/Payload.antt =====
-- The sets of payload types that all parsers share.
use namecon.Sdp.Types.{Direction, MediaSection, SdpParser, Payloads, Parse, parsed, throws}
use namecon.Sdp.{
  in_current, start_section, attribute_line, section_line, extract_attr, codec_line, main_codec,
  push_codec_line, parse_line, parse_lines, parse_offer, current, split_space, is_vp8, is_opus,
  attribute_of, text_line, empty, direction_of, insert_pt, add_pt, add_pts, and_then, is_feedback,
}
use namecon.Common.{
  ◌&&◌, ℕ, zero, suc, ◌≡◌, Bool, true, false, List, [], ◌∷◌, Option, none, some, if◌then◌else◌,
  arith, Bool-cases, inl, inr,
}
use namecon.Common.Bytes.{Bytes}
use namecon.Common.Text.{
  ascii, bytes_eq, after_prefix, skip_blanks, read_int, lines, drop_cr, to_uint8,
}
use namecon.Sdp.Reads.{set_pt}

-- The parser that a parse leaves, whether it returns or throws.
abbrev pub left : Parse → SdpParser
left (parsed p) = p
left (throws p) = p

-- Every payload type of the first is in the second.
abbrev pub Keeps : Payloads → Payloads → Type 0
Keeps g g' =
    (pt : ℕ)
    → ((g.video_pts pt ≡ true) → g'.video_pts pt ≡ true)
      × ((g.audio_pts pt ≡ true) → g'.audio_pts pt ≡ true)

Keeps-refl : (g : Payloads) → Keeps g g
Keeps-refl g pt = (λ h. h, λ h. h)

Keeps-trans : (a b c : Payloads) → Keeps a b → Keeps b c → Keeps a c
Keeps-trans a b c f g pt = (λ h. (g pt).0 ((f pt).0 h), λ h. (g pt).1 ((f pt).1 h))

insert_pt-keeps : (pt other : ℕ) (pts : ℕ → Bool) → pts other ≡ true → insert_pt pt pts other ≡ true
unfolding insert_pt
insert_pt-keeps pt other pts h = ground arith

add_pt-Keeps : (type : Bytes) (pt : ℕ) (g : Payloads) → Keeps g (add_pt type pt g)
unfolding add_pt
add_pt-Keeps type pt g other = elim (Bool-cases (bytes_eq type (ascii "video"))) [
  | inl video ↦ rw video (λ h. insert_pt-keeps pt other g.video_pts h, λ h. h)
  | inr e ↦ elim (Bool-cases (bytes_eq type (ascii "audio"))) [
    | inl audio ↦ rw (e, audio) (λ h. h, λ h. insert_pt-keeps pt other g.audio_pts h)
    | inr e' ↦ rw (e, e') (λ h. h, λ h. h)
  ]
]

add_pts-Keeps : (fuel : ℕ) (type text : Bytes) (g : Payloads) → Keeps g (add_pts fuel type text g)
unfolding add_pts
add_pts-Keeps zero type text g = Keeps-refl g
add_pts-Keeps (suc fuel) type text g =
    elim (read_int text)
      as (λ o. Keeps g (elim o [
        | none ↦ g
        | some (negative, n, rest) ↦ add_pts fuel type rest (add_pt type (to_uint8 negative n) g)
      ])) [
        | none ↦ Keeps-refl g
        | some (negative, n, rest) ↦
            let g' = add_pt type (to_uint8 negative n) g in
            Keeps-trans g g' (add_pts fuel type rest g') (add_pt-Keeps type (to_uint8 negative n) g)
              (add_pts-Keeps fuel type rest g')
      ]

abbrev Kept : SdpParser → Parse → Type 0
Kept p o = Keeps p.shared (left o).shared

Kept-if :
    (p : SdpParser) (b : Bool) (x y : Parse) → Kept p x → Kept p y → Kept p (if b then x else y)
Kept-if p true x y hx hy = hx
Kept-if p false x y hx hy = hy

set_pt-Kept :
    (p : SdpParser) (video audio : Bool) (read : Option (Bool × ℕ × Bytes))
    → Kept p (set_pt video audio read p)
set_pt-Kept p false false read = Keeps-refl p.shared
set_pt-Kept p false true none = Keeps-refl p.shared
set_pt-Kept p false true (some (negative, n, rest)) = λ pt. (λ h. h, λ h. h)
set_pt-Kept p true audio none = Keeps-refl p.shared
set_pt-Kept p true audio (some (negative, n, rest)) = λ pt. (λ h. h, λ h. h)

codec_line-Kept : (type l : Bytes) (p : SdpParser) → Kept p (codec_line type l p)
unfolding codec_line main_codec
codec_line-Kept type l p =
    elim (after_prefix (ascii "a=rtpmap:") l)
      as (λ o. Kept p (elim o [
        | some rv ↦ main_codec type rv (push_codec_line l p)
        | none ↦ parsed (if is_feedback l then push_codec_line l p else p)
      ])) [
        | some rv ↦
            let split = split_space rv in
            set_pt-Kept (push_codec_line l p) (bytes_eq type (ascii "video") && is_vp8 split.1)
              (bytes_eq type (ascii "audio") && is_opus split.1) (read_int split.0)
        | none ↦
            elim (is_feedback l) as (λ b. Kept p (parsed (if b then push_codec_line l p else p))) [
              | true ↦ Keeps-refl p.shared
              | false ↦ Keeps-refl p.shared
            ]
      ]

direction-Kept :
    (type l : Bytes) (p : SdpParser) (o : Option Direction)
    → Kept p (elim o [
      | some d ↦
          parsed (record p { sections = in_current (λ s. record s { direction = d }) p.sections })
      | none ↦ codec_line type l p
    ])
direction-Kept type l p (some d) = Keeps-refl p.shared
direction-Kept type l p none = codec_line-Kept type l p

section_line-Kept : (type l : Bytes) (p : SdpParser) → Kept p (section_line type l p)
unfolding section_line
section_line-Kept type l p =
    Kept-if p (empty (extract_attr l (ascii "mid"))) _ _ (direction-Kept type l p (direction_of l))
      (Keeps-refl p.shared)

attribute_of-Kept :
    (o : Option MediaSection) (l : Bytes) (p : SdpParser) → Kept p (attribute_of o l p)
attribute_of-Kept none l p = Keeps-refl p.shared
attribute_of-Kept (some sec) l p = section_line-Kept sec.type l p

attribute_line-Kept : (l : Bytes) (p : SdpParser) → Kept p (attribute_line l p)
unfolding attribute_line
attribute_line-Kept l p =
    Kept-if p (empty (extract_attr l (ascii "ice-ufrag"))) _ _
      (Kept-if p (empty (extract_attr l (ascii "ice-pwd"))) _ _
        (Kept-if p (empty (extract_attr l (ascii "fingerprint"))) _ _
          (attribute_of-Kept (current p.sections) l p) (Keeps-refl p.shared))
        (Keeps-refl p.shared))
      (Keeps-refl p.shared)

text_line-Kept : (l : Bytes) (p : SdpParser) → Kept p (text_line l p)
unfolding start_section
text_line-Kept [] p = Keeps-refl p.shared
text_line-Kept (c ∷ l) p =
    elim (after_prefix (ascii "m=") (c ∷ l))
      as (λ o.
        Kept p (elim o [
          | some text ↦ parsed (start_section text p)
          | none ↦ attribute_line (c ∷ l) p
        ])) [ some text ↦ add_pts-Keeps _ _ _ p.shared | none ↦ attribute_line-Kept (c ∷ l) p ]

parse_lines-Kept : (ls : List Bytes) (p : SdpParser) → Kept p (parse_lines ls p)
unfolding parse_lines parse_line
parse_lines-Kept [] p = Keeps-refl p.shared
parse_lines-Kept (l ∷ ls) p =
    elim (parse_line l p) as (λ o. Kept p o → Kept p (and_then o (parse_lines ls))) [
      | parsed p' ↦ λ h.
          Keeps-trans p.shared p'.shared (left (parse_lines ls p')).shared h
            (parse_lines-Kept ls p')
      | throws p' ↦ λ h. h
    ]
      (text_line-Kept (skip_blanks (drop_cr l)) p)

-- No offer, accepted, refused or thrown out of, takes a payload type out of the sets of video and
-- audio payload types, which all peers share.
pub parse_offer-Keeps :
    (sdp : Bytes) (p : SdpParser) → Keeps p.shared (left (parse_offer sdp p)).shared
unfolding parse_offer
parse_offer-Keeps sdp p = parse_lines-Kept (lines sdp) (record p { sections = [] })
