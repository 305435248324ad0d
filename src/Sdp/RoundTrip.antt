-- ===== src/Sdp/RoundTrip.antt =====
-- An answer, read back section by section.
use namecon.Sdp.Types.{unset, MediaSection, SdpParser, Payloads, parsed}
use namecon.Common.{
  suc, length, ℕ, ◌≡◌, ◌≢◌, refl, ◌∙◌, List, [], ◌∷◌, ◌++◌, if◌then◌else◌, map, All,
}
use mathlib.Core.List.{append_assoc}
use mathlib.Core.Path.{subst}
use namecon.Common.Bytes.{Bytes}
use namecon.Common.Text.{ascii, after_prefix, skip_blanks, decimal}
use namecon.Sdp.{
  add_pts, start_section, parse_line, first_of, empty, attribute_line, extract_attr, current,
}
use namecon.Sdp.Answer.{
  srv_ip, srv_uf, srv_pwd, srv_fp, srv_port, answer_dir, offer_dir, section_lines, fixed_lines,
  outlet_lines, all_section_lines, header_lines, bundle,
}
use namecon.Sdp.Lines.{cr, parse_line-cr}
use namecon.Sdp.Sections.{
  at, candidate-Skipped, connection-Skipped, rtcp-Skipped, setup-Skipped, mux-Skipped, ufrag_line,
  pwd_line, fingerprint_line, mid_line, direction_line, media_section-printed,
}
use namecon.Sdp.Reads.{
  IsClean, Reads, done, line, Reads-append, codecs_again, skips_read, outlet-Skipped,
  answer_dir-ne-unset,
}

-- The section that the other side reads.
unfoldable pub answered : MediaSection → MediaSection
answered s = record s { direction = answer_dir (offer_dir s.direction) }

or_default-ne-nil : (text : Bytes) (c : ℕ) (d : Bytes) → (if empty text then c ∷ d else text) ≢ []
or_default-ne-nil [] c d = cc
or_default-ne-nil (b ∷ text) c d = cc

-- The server's texts are never empty.
pub srv_uf-ne-nil : (p : SdpParser) → srv_uf p ≢ []
unfolding srv_uf
srv_uf-ne-nil p = or_default-ne-nil p.server_ufrag 115 (ascii "fu_default")

srv_pwd-ne-nil : (p : SdpParser) → srv_pwd p ≢ []
unfolding srv_pwd
srv_pwd-ne-nil p = or_default-ne-nil p.server_pwd 100 (ascii "efault_pwd")

pub srv_fp-ne-nil : (p : SdpParser) → srv_fp p ≢ []
unfolding srv_fp
srv_fp-ne-nil p = or_default-ne-nil p.server_fingerprint 48 (ascii "0:00:00:00:00")

abbrev pub with_creds : SdpParser → Payloads → SdpParser → SdpParser
with_creds p g q = record q {
  ice_ufrag = first_of q.ice_ufrag (srv_uf p);
  ice_pwd = first_of q.ice_pwd (srv_pwd p);
  fingerprint = first_of q.fingerprint (srv_fp p);
  shared = g;
}

module _ (p q : SdpParser) (s : MediaSection) where
  abbrev section_start : MediaSection
  section_start = record {
    type = s.type;
    mid = [];
    direction = unset;
    pt_list = s.pt_list;
    codec_lines = [];
  }

  media_line_again :
      IsClean s
      → s.type ≢ []
      → (g : Payloads) × (parse_line
            (cr (ascii "m=" ++ (s.type ++ (ascii " 9 UDP/TLS/RTP/SAVPF " ++ s.pt_list))))
            q
          ≡ parsed (at (record q { shared = g }) q.sections section_start))
  unfolding skip_blanks after_prefix start_section
  media_line_again clean n =
      let text = s.type ++ (ascii " 9 UDP/TLS/RTP/SAVPF " ++ s.pt_list) in
      (
        add_pts (suc (length s.pt_list)) s.type s.pt_list q.shared,
        parse_line-cr (ascii "m=" ++ text) q
            ∙ rw (media_section-printed s.type s.pt_list clean.type_word n),
      )

  -- The lines before the codecs.
  fixed_lines_again :
      IsClean s
      → s.type ≢ []
      → (g : Payloads) × Reads (fixed_lines p s) q (
          at
            (with_creds p g q)
            q.sections
            (record section_start { mid = s.mid; direction = answer_dir (offer_dir s.direction) }))
  unfolding fixed_lines
  fixed_lines_again clean n =
      let (g, media) = media_line_again clean n in
      let d = answer_dir (offer_dir s.direction) in
      let candidate = srv_ip p ++ (ascii " " ++ (decimal (srv_port p) ++ ascii " typ host")) in
      let q₁ = record q { shared = g } in
      let q₂ = record q₁ { ice_ufrag = first_of q.ice_ufrag (srv_uf p) } in
      let q₃ = record q₂ { ice_pwd = first_of q.ice_pwd (srv_pwd p) } in
      let q₄ = with_creds p g q in
      let xs = q.sections in
      let s₁ = section_start in
      let s₂ = record section_start { mid = s.mid } in
      (
        g,
        line media (
            line (connection-Skipped q₁ xs s₁) (
              line (ufrag_line q₁ xs s₁ (srv_uf p) (srv_uf-ne-nil p)) (
                line (pwd_line q₂ xs s₁ (srv_pwd p) (srv_pwd-ne-nil p)) (
                  line (candidate-Skipped candidate q₃ xs s₁) (
                    line (rtcp-Skipped q₃ xs s₁) (
                      line (fingerprint_line q₃ xs s₁ (srv_fp p)) (
                        line (setup-Skipped q₄ xs s₁) (
                          line (mux-Skipped q₄ xs s₁) (
                            line (mid_line q₄ xs s₁ s.mid refl) (
                              line (direction_line q₄ xs s₂ d (answer_dir-ne-unset s.direction))
                                (done (at q₄ xs (record s₂ { direction = d }))))))))))))),
      )

  pub section_again :
      IsClean s
      → s.type ≢ []
      → (g : Payloads) × Reads (section_lines p s) q (at (with_creds p g q) q.sections (answered s))
  unfolding section_lines answered
  section_again clean n =
      let (g, fixed) = fixed_lines_again clean n in
      let q₁ = with_creds p g q in
      let s₁ = record section_start {
        mid = s.mid;
        direction = answer_dir (offer_dir s.direction);
      } in
      let (g', codecs) = codecs_again q₁ q.sections s₁ s.codec_lines clean.codecs in
      let outlets = outlet_lines (offer_dir s.direction) s.mid p.mid_ssrc in
      (
        g',
        Reads-append fixed (
            Reads-append codecs (
              skips_read outlets (with_creds p g' q) q.sections (answered s)
                (outlet-Skipped (offer_dir s.direction) s.mid p.mid_ssrc))),
      )

first_of_again : (a b : Bytes) → first_of (first_of a b) b ≡ first_of a b
first_of_again [] [] = refl
first_of_again [] (c ∷ b) = refl
first_of_again (c ∷ a) b = refl

-- All sections.
abbrev pub read_sections : SdpParser → Payloads → List MediaSection → SdpParser → SdpParser
read_sections p g ss q = record (with_creds p g q) { sections = q.sections ++ map answered ss }

read_sections_cons :
    (p q : SdpParser) (s : MediaSection) (ss : List MediaSection) (g g' : Payloads)
    → read_sections p g' ss (at (with_creds p g q) q.sections (answered s))
      ≡ read_sections p g' (s ∷ ss) q
read_sections_cons p q s ss g g' = rw (
  first_of_again q.ice_ufrag (srv_uf p),
  first_of_again q.ice_pwd (srv_pwd p),
  first_of_again q.fingerprint (srv_fp p),
  append_assoc q.sections (answered s ∷ []) (map answered ss),
)

pub sections_again :
    (p q : SdpParser) (s : MediaSection) (ss : List MediaSection)
    → All IsClean (s ∷ ss)
    → All (λ t. t.type ≢ []) (s ∷ ss)
    → (g : Payloads) × Reads (all_section_lines p (s ∷ ss)) q (read_sections p g (s ∷ ss) q)
unfolding all_section_lines
sections_again p q s [] clean typed =
    let (g, one) = section_again p q s clean.0 typed.0 in (g, Reads-append one (done _))
sections_again p q s (t ∷ ss) clean typed =
    let (g, one) = section_again p q s clean.0 typed.0 in
    let (g', more) =
      sections_again p (at (with_creds p g q) q.sections (answered s)) t ss clean.1 typed.1 in
    (
      g',
      Reads-append one (
          subst
            (λ x.
              Reads (all_section_lines p (t ∷ ss)) (at (with_creds p g q) q.sections (answered s))
                x)
            (read_sections_cons p q s (t ∷ ss) g g') more),
    )

pub header_again : (p q : SdpParser) → q.sections ≡ [] → Reads (header_lines p) q q
unfolding header_lines skip_blanks after_prefix attribute_line extract_attr current
header_again p q none_yet = line (parse_line-cr (ascii "v=0") q ∙ rw none_yet) (
    line (parse_line-cr (ascii "o=- 0 0 IN IP4 " ++ srv_ip p) q ∙ rw none_yet) (
      line (parse_line-cr (ascii "s=NameCon") q ∙ rw none_yet) (
        line (parse_line-cr (ascii "t=0 0") q ∙ rw none_yet) (
          line (parse_line-cr (ascii "a=group:BUNDLE" ++ bundle p.sections) q ∙ rw none_yet) (
            line (parse_line-cr (ascii "a=msid-semantic: WMS") q ∙ rw none_yet)
              (line (parse_line-cr (ascii "a=ice-lite") q ∙ rw none_yet) (done q)))))))
