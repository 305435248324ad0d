-- ===== src/Sdp/Texts.antt =====
-- The lines of an answer, and line feeds.
use namecon.Common.Text.{NoLf, NoLf-append, is_space, ascii, decimal, decimal_onto}
use namecon.Sdp.Types.{
  Direction, MediaSection, SdpParser, unset, sendrecv, sendonly, recvonly, inactive,
}
use namecon.Common.{
  ℕ, zero, suc, ◌≡◌, false, List, [], ◌∷◌, ◌++◌, Option, none, some, ◌+◌, ◌%◌, ◌/◌, ltb, arith, All,
  Bool-cases, inl, inr,
}
use namecon.Common.Bytes.{Bytes}
use namecon.Sdp.Answer.{
  srv_ip, srv_uf, srv_pwd, srv_fp, srv_port, direction_text, answer_dir, offer_dir, section_lines,
  fixed_lines, outlet_lines, all_section_lines, header_lines, answer_lines, bundle, or_default,
  found_ssrc, ssrc_lines, find_ssrc,
}
use namecon.Sdp.Reads.{IsClean}

All-join {ℓ κ} :
    {A : Type ℓ} (P : A → Type κ) (xs ys : List A) → All P xs → All P ys → All P (xs ++ ys)
All-join P [] ys hx hy = hy
All-join P (x ∷ xs) ys hx hy = (hx.0, All-join P xs ys hx.1 hy)

or_default-NoLf : (text d : Bytes) → NoLf text → NoLf d → NoLf (or_default text d)
or_default-NoLf [] d h hd = hd
or_default-NoLf (c ∷ text) d h hd = h

decimal_onto-NoLf : (fuel n : ℕ) (rest : Bytes) → NoLf rest → NoLf (decimal_onto fuel n rest)
unfolding decimal_onto
decimal_onto-NoLf zero n rest h = h
decimal_onto-NoLf (suc fuel) n rest h = elim (Bool-cases (ltb n 10)) [
  | inl e ↦ rw e (omega arith, h)
  | inr e ↦ rw e (decimal_onto-NoLf fuel (n / 10) ((48 + n % 10) ∷ rest) (omega arith, h))
]

decimal-NoLf : (n : ℕ) → NoLf (decimal n)
decimal-NoLf n = decimal_onto-NoLf 10 n [] tt

ssrc_lines-NoLf : (ssrc : Bytes) → NoLf ssrc → All NoLf (ssrc_lines ssrc)
unfolding ssrc_lines
ssrc_lines-NoLf ssrc h = (
  NoLf-append (ascii "a=ssrc:") _ (omega arith)
      (NoLf-append ssrc (ascii " cname:namecon") h (omega arith)),
  (
    NoLf-append (ascii "a=ssrc:") _ (omega arith)
        (NoLf-append ssrc _ h (NoLf-append (ascii " msid:namecon namecon") ssrc (omega arith) h)),
    (
      NoLf-append (ascii "a=ssrc:") _ (omega arith)
          (NoLf-append ssrc (ascii " mslabel:namecon") h (omega arith)),
      (
        NoLf-append (ascii "a=ssrc:") _ (omega arith)
            (NoLf-append ssrc _ h (NoLf-append (ascii " label:namecon") ssrc (omega arith) h)),
        tt,
      ),
    ),
  ),
)

found-NoLf : (o : Option ℕ) → All NoLf (found_ssrc o)
found-NoLf none = tt
found-NoLf (some ssrc) = ssrc_lines-NoLf (decimal ssrc) (decimal-NoLf ssrc)

outlet-NoLf : (d : Direction) (mid : Bytes) (m : List (Bytes × ℕ)) → All NoLf (outlet_lines d mid m)
unfolding outlet_lines
outlet-NoLf recvonly mid m = found-NoLf (find_ssrc mid m)
outlet-NoLf unset mid m = tt
outlet-NoLf sendrecv mid m = tt
outlet-NoLf sendonly mid m = tt
outlet-NoLf inactive mid m = tt

direction-NoLf : (d : Direction) → NoLf (direction_text d)
direction-NoLf unset = tt
direction-NoLf sendrecv = omega arith
direction-NoLf sendonly = omega arith
direction-NoLf recvonly = omega arith
direction-NoLf inactive = omega arith

bundle-NoLf : (ss : List MediaSection) → All IsClean ss → NoLf (bundle ss)
unfolding bundle
bundle-NoLf [] h = tt
bundle-NoLf (s ∷ ss) h =
    (omega arith, NoLf-append s.mid (bundle ss) h.0.mid_line (bundle-NoLf ss h.1))

IsWord-NoLf : (w : Bytes) → All (λ c. is_space c ≡ false) w → NoLf w
IsWord-NoLf [] h = tt
IsWord-NoLf (c ∷ w) h = (ground (arith, h.0), IsWord-NoLf w h.1)

module _ (p : SdpParser) (clean_sections : All IsClean p.sections) (ip : NoLf p.server_ip)
    (ufrag : NoLf p.server_ufrag) (pwd : NoLf p.server_pwd) (fp : NoLf p.server_fingerprint) where
  srv_ip-NoLf : NoLf (srv_ip p)
  unfolding srv_ip
  srv_ip-NoLf = or_default-NoLf p.server_ip (ascii "127.0.0.1") ip (omega arith)

  srv_uf-NoLf : NoLf (srv_uf p)
  unfolding srv_uf
  srv_uf-NoLf = or_default-NoLf p.server_ufrag (ascii "sfu_default") ufrag (omega arith)

  srv_pwd-NoLf : NoLf (srv_pwd p)
  unfolding srv_pwd
  srv_pwd-NoLf = or_default-NoLf p.server_pwd (ascii "default_pwd") pwd (omega arith)

  srv_fp-NoLf : NoLf (srv_fp p)
  unfolding srv_fp
  srv_fp-NoLf = or_default-NoLf p.server_fingerprint (ascii "00:00:00:00:00") fp (omega arith)

  header-NoLf : All NoLf (header_lines p)
  unfolding header_lines
  header-NoLf = (
    omega arith,
    (
      NoLf-append (ascii "o=- 0 0 IN IP4 ") (srv_ip p) (omega arith) srv_ip-NoLf,
      (
        omega arith,
        (
          omega arith,
          (
            NoLf-append (ascii "a=group:BUNDLE") _ (omega arith)
                (bundle-NoLf p.sections clean_sections),
            (omega arith, (omega arith, tt)),
          ),
        ),
      ),
    ),
  )

  fixed-NoLf : (s : MediaSection) → IsClean s → All NoLf (fixed_lines p s)
  unfolding fixed_lines
  fixed-NoLf s clean = (
    NoLf-append (ascii "m=") _ (omega arith) (
        NoLf-append s.type _ (IsWord-NoLf s.type clean.type_word)
          (NoLf-append (ascii " 9 UDP/TLS/RTP/SAVPF ") s.pt_list (omega arith) clean.pts_line)),
    (
      omega arith,
      (
        NoLf-append (ascii "a=ice-ufrag:") _ (omega arith) srv_uf-NoLf,
        (
          NoLf-append (ascii "a=ice-pwd:") _ (omega arith) srv_pwd-NoLf,
          (
            NoLf-append (ascii "a=candidate:1 1 UDP 2130706433 ") _ (omega arith) (
                NoLf-append (srv_ip p) _ srv_ip-NoLf (
                  omega arith,
                  NoLf-append (decimal (srv_port p)) (ascii " typ host") (decimal-NoLf (srv_port p))
                      (omega arith),
                )),
            (
              omega arith,
              (
                NoLf-append (ascii "a=fingerprint:sha-256 ") _ (omega arith) srv_fp-NoLf,
                (
                  omega arith,
                  (
                    omega arith,
                    (
                      NoLf-append (ascii "a=mid:") s.mid (omega arith) clean.mid_line,
                      (
                        NoLf-append (ascii "a=") _ (omega arith)
                            (direction-NoLf (answer_dir (offer_dir s.direction))),
                        tt,
                      ),
                    ),
                  ),
                ),
              ),
            ),
          ),
        ),
      ),
    ),
  )

  section-NoLf : (s : MediaSection) → IsClean s → All NoLf (section_lines p s)
  unfolding section_lines
  section-NoLf s clean = All-join NoLf (fixed_lines p s) _ (fixed-NoLf s clean) (
      All-join NoLf s.codec_lines _ clean.codecs_line
        (outlet-NoLf (offer_dir s.direction) s.mid p.mid_ssrc))

  sections-NoLf : (ss : List MediaSection) → All IsClean ss → All NoLf (all_section_lines p ss)
  unfolding all_section_lines
  sections-NoLf [] h = tt
  sections-NoLf (s ∷ ss) h =
      All-join NoLf (section_lines p s) (all_section_lines p ss) (section-NoLf s h.0)
        (sections-NoLf ss h.1)

  pub answer-NoLf : All NoLf (answer_lines p)
  unfolding answer_lines
  answer-NoLf =
      All-join NoLf (header_lines p) (all_section_lines p p.sections) header-NoLf
        (sections-NoLf p.sections clean_sections)
