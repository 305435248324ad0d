-- ===== src/Sdp/Ready.antt =====
-- Sections that an answer can print, kept by each kind of line.
use namecon.Common.Text.{NoLf, ascii, bytes_eq, after_prefix, skip_space, read_int}
use namecon.Sdp.Types.{Direction, MediaSection, SdpParser, Parse, parsed, throws}
use namecon.Common.{
  sym, ℕ, ◌≡◌, refl, ◌∙◌, Bool, true, false, List, [], ◌∷◌, ◌++◌, Option, none, some, ◌&&◌,
  if◌then◌else◌, All,
}
use mathlib.Core.Path.{subst}
use mathlib.Core.Option.{some-injective}
use namecon.Common.Bytes.{Bytes}
use namecon.Sdp.{
  and_then, start_section, media_section, section_line, extract_attr, codec_line, main_codec,
  push_codec_line, current, in_current, split_space, is_vp8, is_opus, is_feedback, empty,
  direction_of,
}
use namecon.Sdp.Pieces.{
  skip_space-NoLf, behind_word-NoLf, word_of-IsWord, drop_space-NoLf, extract_attr-NoLf,
}
use namecon.Sdp.Lines.{after_prefix-some}
use namecon.Sdp.Reads.{IsClean, CodecLine, readable, set_pt, rtpmap, feedback, fmtp, is_int}

media_section-IsClean : (text : Bytes) → NoLf text → IsClean (media_section text)
unfolding media_section
media_section-IsClean text h =
    let one = behind_word-NoLf _ (skip_space-NoLf text h) in
    let two = behind_word-NoLf _ (skip_space-NoLf _ one) in
    let three = behind_word-NoLf _ (skip_space-NoLf _ two) in
    record {
      type_word = word_of-IsWord (skip_space text);
      mid_line = tt;
      pts_line = drop_space-NoLf _ three;
      codecs = tt;
      codecs_line = tt;
    }

module _ (f : MediaSection → MediaSection) where
  in_current-IsClean :
      (ss : List MediaSection)
      → ((s : MediaSection) → current ss ≡ some s → IsClean s → IsClean (f s))
      → All IsClean ss
      → All IsClean (in_current f ss)
  unfolding in_current current
  in_current-IsClean [] keep h = tt
  in_current-IsClean (s ∷ []) keep h = (keep s refl h.0, tt)
  in_current-IsClean (s ∷ t ∷ ss) keep h = (h.0, in_current-IsClean (t ∷ ss) keep h.1)

All-snoc {ℓ κ} :
    {A : Type ℓ} (P : A → Type κ) (xs : List A) (x : A) → All P xs → P x → All P (xs ++ x ∷ [])
All-snoc P [] x h hx = (hx, tt)
All-snoc P (y ∷ xs) x h hx = (h.0, All-snoc P xs x h.1 hx)

-- A property of the parser that a parse returns.
abbrev pub Post : (SdpParser → Type 0) → Parse → Type 0
Post P (parsed p) = P p
Post P (throws p) = Unit {0}

pub Post-if :
    (P : SdpParser → Type 0) (b : Bool) (x y : Parse)
    → Post P x
    → Post P y
    → Post P (if b then x else y)
Post-if P true x y hx hy = hx
Post-if P false x y hx hy = hy

pub Post-and_then :
    (P Q : SdpParser → Type 0) (o : Parse) (next : SdpParser → Parse)
    → Post P o
    → ((p : SdpParser) → P p → Post Q (next p))
    → Post Q (and_then o next)
Post-and_then P Q (parsed p) next h more = more p h
Post-and_then P Q (throws p) next h more = tt

module _ (p₀ : SdpParser) where
  -- Clean sections, and the server's texts and SSRCs as they were at the start.
  abbrev pub Ready : SdpParser → Type 0
  Ready p =
      All IsClean p.sections
      × (p.server_ip ≡ p₀.server_ip)
      × (p.server_port ≡ p₀.server_port)
      × (p.server_ufrag ≡ p₀.server_ufrag)
      × (p.server_pwd ≡ p₀.server_pwd)
      × (p.server_fingerprint ≡ p₀.server_fingerprint)
      × (p.mid_ssrc ≡ p₀.mid_ssrc)

  pub start_section-Ready :
      (p : SdpParser) → Ready p → (text : Bytes) → NoLf text → Ready (start_section text p)
  unfolding start_section
  start_section-Ready p r text line = (
    All-snoc IsClean p.sections (media_section text) r.0 (media_section-IsClean text line),
    r.1,
    r.2,
    r.3,
    r.4,
    r.5,
    r.6,
  )

  module _ (type : Bytes) (p : SdpParser) where
    set_pt-Ready :
        (video audio : Bool) (read : Option (Bool × ℕ × Bytes))
        → ((if video then is_int read else (if audio then is_int read else true)) ≡ true → Ready p)
        → Post Ready (set_pt video audio read p)
    set_pt-Ready false false read h = h refl
    set_pt-Ready false true none h = tt
    set_pt-Ready false true (some (negative, n, rest)) h = h refl
    set_pt-Ready true audio none h = tt
    set_pt-Ready true audio (some (negative, n, rest)) h = h refl

    main_codec-Ready :
        (rv : Bytes) → (readable type rv ≡ true → Ready p) → Post Ready (main_codec type rv p)
    unfolding main_codec readable
    main_codec-Ready rv h =
        let split = split_space rv in
        set_pt-Ready (bytes_eq type (ascii "video") && is_vp8 split.1)
          (bytes_eq type (ascii "audio") && is_opus split.1) (read_int split.0) h

  module _ (sec : MediaSection) (p : SdpParser) (r : Ready p)
      (now : current p.sections ≡ some sec) where
    push-Ready : (l : Bytes) → NoLf l → CodecLine sec.type l → Ready (push_codec_line l p)
    push-Ready l line ok = (
      in_current-IsClean _ p.sections
          (λ s at_s clean. record {
            type_word = clean.type_word;
            mid_line = clean.mid_line;
            pts_line = clean.pts_line;
            codecs = All-snoc (CodecLine s.type) s.codec_lines l clean.codecs (
                subst (λ (t : MediaSection). CodecLine t.type l)
                  (some-injective _ _ (sym now ∙ at_s)) ok);
            codecs_line = All-snoc NoLf s.codec_lines l clean.codecs_line line;
          })
          r.0,
      r.1,
      r.2,
      r.3,
      r.4,
      r.5,
      r.6,
    )

    feedback-Ready :
        (l : Bytes) (fb fm : Option Bytes)
        → after_prefix (ascii "a=rtcp-fb:") l ≡ fb
        → after_prefix (ascii "a=fmtp:") l ≡ fm
        → NoLf l
        → Ready (
            if (elim fb [ some _ ↦ true | none ↦ elim fm [ some _ ↦ true | none ↦ false ] ])
            then push_codec_line l p
            else p)
    feedback-Ready l (some v) fm e e' line =
        push-Ready l line
          (subst (CodecLine sec.type) (sym (after_prefix-some _ l v e)) (feedback v))
    feedback-Ready l none (some v) e e' line =
        push-Ready l line (subst (CodecLine sec.type) (sym (after_prefix-some _ l v e')) (fmtp v))
    feedback-Ready l none none e e' line = r

    mapped-Ready :
        (l : Bytes) (o : Option Bytes)
        → after_prefix (ascii "a=rtpmap:") l ≡ o
        → NoLf l
        → Post Ready (elim o [
          | some rv ↦ main_codec sec.type rv (push_codec_line l p)
          | none ↦ parsed (if is_feedback l then push_codec_line l p else p)
        ])
    mapped-Ready l (some rv) e line = main_codec-Ready sec.type (push_codec_line l p) rv λ ok.
        push-Ready l line
          (subst (CodecLine sec.type) (sym (after_prefix-some _ l rv e)) (rtpmap rv ok))
    mapped-Ready l none e line = feedback-Ready l _ _ refl refl line

    direction-Ready :
        (l : Bytes) (o : Option Direction)
        → NoLf l
        → Post Ready (elim o [
          | some d ↦
              parsed
                (record p { sections = in_current (λ s. record s { direction = d }) p.sections })
          | none ↦ codec_line sec.type l p
        ])
    unfolding codec_line
    direction-Ready l (some d) line = (
      in_current-IsClean _ p.sections
          (λ s _ clean. record {
            type_word = clean.type_word;
            mid_line = clean.mid_line;
            pts_line = clean.pts_line;
            codecs = clean.codecs;
            codecs_line = clean.codecs_line;
          })
          r.0,
      r.1,
      r.2,
      r.3,
      r.4,
      r.5,
      r.6,
    )
    direction-Ready l none line = mapped-Ready l _ refl line

    pub section_line-Ready : (l : Bytes) → NoLf l → Post Ready (section_line sec.type l p)
    unfolding section_line
    section_line-Ready l line =
        Post-if Ready (empty (extract_attr l (ascii "mid"))) _ _
          (direction-Ready l (direction_of l) line)
          (
            in_current-IsClean _ p.sections
                (λ s _ clean. record {
                  type_word = clean.type_word;
                  mid_line = extract_attr-NoLf l (ascii "mid") line;
                  pts_line = clean.pts_line;
                  codecs = clean.codecs;
                  codecs_line = clean.codecs_line;
                })
                r.0,
            r.1,
            r.2,
            r.3,
            r.4,
            r.5,
            r.6,
          )
