-- ===== src/Sdp/ReadBack.antt =====
-- generateAnswer's text, parsed by another parser.
use namecon.Common.Text.{NoLf}
use namecon.Sdp.Types.{
  Direction, MediaSection, SdpParser, Payloads, parsed, unset, sendrecv, sendonly, recvonly,
  inactive,
}
use namecon.Common.{◌≡◌, ◌≢◌, refl, ap, true, false, List, [], ◌∷◌, map, arith, All}
use mathlib.Core.Path.{fun_ext}
use namecon.Common.Bytes.{Bytes}
use namecon.Sdp.{parse_offer, accepted, empty, no_section}
use namecon.Sdp.Answer.{
  srv_uf, srv_pwd, srv_fp, answer_dir, offer_dir, all_section_lines, answer_lines, print_lines,
  generate_answer, answer,
}
use namecon.Sdp.Lines.{lines-print_lines}
use namecon.Sdp.Reads.{IsClean, Reads, Reads-append, Reads-sound}
use namecon.Sdp.Ready.{Ready}
use namecon.Sdp.Clean.{parse_offer-Ready}
use namecon.Sdp.Texts.{answer-NoLf}
use namecon.Sdp.RoundTrip.{
  header_again, sections_again, read_sections, with_creds, answered, srv_uf-ne-nil, srv_fp-ne-nil,
}

-- What one side sends the other receives; a section with no direction is for both.
unfoldable pub opposite : Direction → Direction
opposite unset = sendrecv
opposite sendrecv = sendrecv
opposite sendonly = recvonly
opposite recvonly = sendonly
opposite inactive = inactive

unfoldable pub turned : MediaSection → MediaSection
turned s = record s { direction = opposite s.direction }

answer_dir-opposite : (d : Direction) → answer_dir (offer_dir d) ≡ opposite d
unfolding answer_dir opposite
answer_dir-opposite unset = refl
answer_dir-opposite sendrecv = refl
answer_dir-opposite sendonly = refl
answer_dir-opposite recvonly = refl
answer_dir-opposite inactive = refl

answered-turned : (s : MediaSection) → answered s ≡ turned s
unfolding answered turned
answered-turned s = rw (answer_dir-opposite s.direction)

nonempty : (text : Bytes) → text ≢ [] → empty text ≡ false
nonempty [] n = absurd (n refl)
nonempty (c ∷ text) n = refl

some_section : (ss : List MediaSection) → ss ≢ [] → no_section ss ≡ false
some_section [] n = absurd (n refl)
some_section (s ∷ ss) n = refl

accepted_lem :
    (p : SdpParser) → p.ice_ufrag ≢ [] → p.fingerprint ≢ [] → p.sections ≢ [] → accepted p ≡ true
unfolding accepted
accepted_lem p u f n =
    ground (arith, nonempty p.ice_ufrag u, nonempty p.fingerprint f, some_section p.sections n)

accepted-sections : (p : SdpParser) → accepted p ≡ true → p.sections ≢ []
unfolding accepted
accepted-sections p h e = let h' = rw e at h in ground arith

read_sections_again :
    (p q : SdpParser) (ss : List MediaSection)
    → ss ≢ []
    → All IsClean ss
    → All (λ s. s.type ≢ []) ss
    → (g : Payloads) × Reads (all_section_lines p ss) q (read_sections p g ss q)
read_sections_again p q [] n clean typed = absurd (n refl)
read_sections_again p q (s ∷ ss) n clean typed = sections_again p q s ss clean typed

read_answer :
    (p q : SdpParser)
    → All NoLf (answer_lines p)
    → All IsClean p.sections
    → p.sections ≢ []
    → All (λ s. s.type ≢ []) p.sections
    → (g : Payloads) × (parse_offer (print_lines (answer_lines p)) q
        ≡ parsed (record (with_creds p g q) { sections = map answered p.sections }))
unfolding parse_offer answer_lines
read_answer p q line clean n typed =
    let q₀ = record q { sections = [] } in
    let (g, read) = read_sections_again p q₀ p.sections n clean typed in
    (
      g,
      rw (lines-print_lines (answer_lines p) line)
          (Reads-sound (Reads-append (header_again p q₀ refl) read)),
    )

-- What another parser has read in the answer to an offer that `p` took as `p'`.
pub record HasRead (p p' q' : SdpParser) : Type 0 where
  pub sections_turned : q'.sections ≡ map turned p'.sections
  pub ufrag_read : q'.ice_ufrag ≡ srv_uf p
  pub pwd_read : q'.ice_pwd ≡ srv_pwd p
  pub fingerprint_read : q'.fingerprint ≡ srv_fp p
  pub offer_accepted : accepted q' ≡ true

map-ne-nil : (f : MediaSection → MediaSection) (ss : List MediaSection) → ss ≢ [] → map f ss ≢ []
map-ne-nil f [] n = n
map-ne-nil f (s ∷ ss) n = cc

module _ (p p' q : SdpParser) (r : Ready p p') (some_ : p'.sections ≢ [])
    (no_ufrag : q.ice_ufrag ≡ []) (no_pwd : q.ice_pwd ≡ []) (no_fp : q.fingerprint ≡ [])
    (g : Payloads) where
  reader : SdpParser
  reader = record (with_creds p' g q) { sections = map answered p'.sections }

  reader-ufrag : reader.ice_ufrag ≡ srv_uf p
  unfolding reader srv_uf
  reader-ufrag = rw (no_ufrag, r.3)

  reader-pwd : reader.ice_pwd ≡ srv_pwd p
  unfolding reader srv_pwd
  reader-pwd = rw (no_pwd, r.4)

  reader-fp : reader.fingerprint ≡ srv_fp p
  unfolding reader srv_fp
  reader-fp = rw (no_fp, r.5)

  reader-HasRead : HasRead p p' reader
  unfolding reader
  reader-HasRead = record {
    sections_turned = ap (λ f. map f p'.sections) (fun_ext answered-turned);
    ufrag_read = reader-ufrag;
    pwd_read = reader-pwd;
    fingerprint_read = reader-fp;
    offer_accepted =
        accepted_lem reader (rw reader-ufrag (srv_uf-ne-nil p)) (rw reader-fp (srv_fp-ne-nil p))
          (map-ne-nil answered p'.sections some_);
  }

-- An accepted offer whose sections all have a type is answered by a text that a new parser accepts
-- and reads back: the same sections in the same order, with their mids, payload types and codec
-- lines, each in the opposite direction, and the server's credentials, or the defaults for those
-- that are empty; provided that the server's texts hold no line feed.
pub generate_answer_read_back :
    (offer : Bytes) (p p' q : SdpParser)
    → NoLf p.server_ip
    → NoLf p.server_ufrag
    → NoLf p.server_pwd
    → NoLf p.server_fingerprint
    → parse_offer offer p ≡ parsed p'
    → accepted p' ≡ true
    → All (λ s. s.type ≢ []) p'.sections
    → q.ice_ufrag ≡ []
    → q.ice_pwd ≡ []
    → q.fingerprint ≡ []
    → (text : Bytes) × (q' : SdpParser) × (generate_answer offer p ≡ answer text p')
      × (parse_offer text q ≡ parsed q')
      × HasRead p p' q'
unfolding generate_answer reader
generate_answer_read_back offer p p' q ip ufrag pwd fp took ok typed no_ufrag no_pwd no_fp =
    let r = parse_offer-Ready p offer p' took in
    let line = answer-NoLf p' r.0 (rw r.1 ip) (rw r.3 ufrag) (rw r.4 pwd) (rw r.5 fp) in
    let some_ = accepted-sections p' ok in
    let (g, read) = read_answer p' q line r.0 some_ typed in
    (
      print_lines (answer_lines p'),
      record (with_creds p' g q) { sections = map answered p'.sections },
      rw (took, ok),
      read,
      reader-HasRead p p' q r some_ no_ufrag no_pwd no_fp g,
    )
