-- ===== src/Service/Offer.antt =====
-- SendOffer, and what the browser reads.
use Prim.Native.String.{String}
use namecon.Common.{
  ℕ, ◌≡◌, ◌≢◌, refl, Bool, true, false, List, [], ◌∷◌, some, All, Bool-cases, inl, inr,
}
use mathlib.Core.Path.{subst}
use namecon.Common.Bytes.{Bytes}
use namecon.Common.Text.{lines, NoLf}
use namecon.Transport.Ice.{IceServer}
use namecon.Transport.Srtp.{Lib}
use namecon.Sdp.{parse_lines, parse_offer, accepted, empty}
use namecon.Sdp.Types.{SdpParser, Payloads, Parse, parsed, throws}
use namecon.Sdp.Answer.{set_server_info, set_mid_ssrc_map}
use namecon.Sdp.ReadBack.{HasRead, generate_answer_read_back}
use namecon.Service.{MediaService, RecvMid, offer_mids}
use namecon.Service.Rpcs.{Host, get_public_ip, offer_parser, new_parser, send_offer, answer_sdp}

-- No line feed in what the service says of itself.
pub record HostLines (host : Host) (server : IceServer) : Type 0 where
  pub ice_given : host.ice ≡ some server
  pub ip_line : NoLf (get_public_ip host)
  pub ufrag_line : NoLf server.ice_ufrag
  pub pwd_line : NoLf server.ice_pwd
  pub fingerprint_line : NoLf host.dtls_fingerprint

module _ (host : Host) (server : IceServer) (shared : Payloads) (m : List (String × ℕ))
    (told : HostLines host server) where
  told_ip : NoLf (offer_parser host shared m).server_ip
  unfolding offer_parser set_server_info set_mid_ssrc_map
  told_ip = simp told.ice_given told.ip_line

  told_ufrag : NoLf (offer_parser host shared m).server_ufrag
  unfolding offer_parser set_server_info set_mid_ssrc_map
  told_ufrag = rw told.ice_given told.ufrag_line

  told_pwd : NoLf (offer_parser host shared m).server_pwd
  unfolding offer_parser set_server_info set_mid_ssrc_map
  told_pwd = rw told.ice_given told.pwd_line

  told_fingerprint : NoLf (offer_parser host shared m).server_fingerprint
  unfolding offer_parser set_server_info set_mid_ssrc_map
  told_fingerprint = simp told.ice_given told.fingerprint_line

abbrev accepted_of : Parse → Bool
accepted_of (parsed p) = accepted p
accepted_of (throws p) = false

accepted-none : (q : SdpParser) → accepted (record q { sections = [] }) ≡ false
unfolding accepted
accepted-none q = elim (Bool-cases (empty q.ice_ufrag)) [
  | inl e ↦ rw e
  | inr e ↦ elim (Bool-cases (empty q.fingerprint)) [ inl e' ↦ rw (e, e') | inr e' ↦ rw (e, e') ]
]

read-nonempty :
    (text : Bytes) (q q' : SdpParser)
    → parse_offer text q ≡ parsed q'
    → accepted q' ≡ true
    → empty text ≡ false
unfolding parse_offer parse_lines lines
read-nonempty [] q q' read good =
    let none_ = subst (λ x. accepted_of x ≡ false) read (accepted-none q) in cc
read-nonempty (c ∷ text) q q' read good = refl

-- SendOffer on an accepted offer, with whatever the service says of itself.
pub send_offer-answered :
    {L S : Type 0} ⦃lib : Lib S⦄ (host : Host) (server : IceServer) (shared other : Payloads)
    (name : String) (rms : List RecvMid) (sdp : Bytes) (s s' : MediaService L S)
    (m : List (String × ℕ)) (p' : SdpParser)
    → HostLines host server
    → offer_mids name rms s ≡ some (m, s')
    → parse_offer sdp (offer_parser host shared m) ≡ parsed p'
    → accepted p' ≡ true
    → All (λ t. t.type ≢ []) p'.sections
    → (text : Bytes) × (q' : SdpParser) × (send_offer host shared name rms sdp s
        ≡ some (answer_sdp text, p'.shared, s'))
      × (parse_offer text (new_parser other) ≡ parsed q')
      × HasRead (offer_parser host shared m) p' q'
unfolding send_offer new_parser
send_offer-answered host server shared other name rms sdp s s' m p' told bound took good typed =
    let p = offer_parser host shared m in
    let (text, q', made, read, has) =
      generate_answer_read_back sdp p p' (new_parser other) (told_ip host server shared m told)
        (told_ufrag host server shared m told) (told_pwd host server shared m told)
        (told_fingerprint host server shared m told) took good typed refl refl refl in
    let full = read-nonempty text (new_parser other) q' read has.offer_accepted in
    (text, q', rw (bound, made) (rw full), read, has)
