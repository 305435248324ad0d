-- ===== src/Service/Negotiation.antt =====
-- SendOffer of a server with generated credentials, up to the browser's first STUN request.
use Prim.Native.String.{String}
use namecon.Common.{ℕ, ◌≡◌, ◌≢◌, ◌<◌, refl, ◌∙◌, true, List, [], ◌∷◌, ◌++◌, Option, some, All, map}
use namecon.Common.Bytes.{Bytes}
use namecon.Common.Text.{NoLf, ascii}
use namecon.Config.{ConfigMgr}
use namecon.Transport.Ice.{Scan, on_username, split_colon, accept}
use namecon.Transport.Credentials.{
  new_ice_server, random_string, random_string-NoLf, fingerprint, fingerprint_from,
  fingerprint_from-NoLf, on_username_own,
}
use namecon.Sdp.{parse_offer, accepted}
use namecon.Sdp.Types.{SdpParser, Payloads, parsed}
use namecon.Transport.Srtp.{Lib}
use namecon.Sdp.Answer.{or_default, set_server_info, set_mid_ssrc_map, srv_uf, srv_pwd, srv_fp}
use namecon.Sdp.ReadBack.{turned}
use namecon.Service.{MediaService, RecvMid, offer_mids}
use namecon.Service.Rpcs.{Host, get_public_ip, offer_parser, new_parser, send_offer, answer_sdp}
use namecon.Service.Offer.{HostLines, send_offer-answered}

-- A service with credentials from the draws and a certificate of this digest.
unfoldable pub made_host : (ℕ → ℕ) → Bytes → Option Bytes → ConfigMgr → Host
made_host dis md env config = record {
  public_ip_env = env;
  config = config;
  ice = some (new_ice_server dis);
  dtls_fingerprint = fingerprint md;
}

-- What the browser knows of the server, and that its USERNAME passes the credential check.
pub record Joined (dis : ℕ → ℕ) (md : Bytes) (p' q' : SdpParser) : Type 0 where
  pub offer_accepted : accepted q' ≡ true
  pub sections_turned : q'.sections ≡ map turned p'.sections
  pub pwd_read : q'.ice_pwd ≡ (new_ice_server dis).ice_pwd
  pub fingerprint_read : q'.fingerprint ≡ fingerprint md
  pub username_passes :
      (peer : Bytes) (st : Scan)
      → on_username (new_ice_server dis).ice_ufrag st (split_colon (q'.ice_ufrag ++ 58 ∷ peer))
        ≡ accept (record st { peer_ufrag = peer })

print_full : (md d : Bytes) → md ≢ [] → or_default (fingerprint md) d ≡ fingerprint md
unfolding fingerprint fingerprint_from
print_full [] d n = absurd (n refl)
print_full (b ∷ md) d n = refl

module _ (dis : ℕ → ℕ) (md : Bytes) (env : Option Bytes) (config : ConfigMgr)
    (range : (n : ℕ) → dis n < 36) (digest : md ≢ []) where
  made-HostLines :
      NoLf (get_public_ip (made_host dis md env config))
      → HostLines (made_host dis md env config) (new_ice_server dis)
  unfolding made_host new_ice_server fingerprint
  made-HostLines ip = record {
    ice_given = refl;
    ip_line = ip;
    ufrag_line = random_string-NoLf dis 0 4 range;
    pwd_line = random_string-NoLf dis 4 22 range;
    fingerprint_line = fingerprint_from-NoLf 0 md;
  }

  module _ (shared : Payloads) (m : List (String × ℕ)) where
    made_uf :
        srv_uf (offer_parser (made_host dis md env config) shared m)
        ≡ (new_ice_server dis).ice_ufrag
    unfolding srv_uf offer_parser made_host set_server_info set_mid_ssrc_map new_ice_server
        random_string
    made_uf = refl

    made_pwd :
        srv_pwd (offer_parser (made_host dis md env config) shared m) ≡ (new_ice_server dis).ice_pwd
    unfolding srv_pwd offer_parser made_host set_server_info set_mid_ssrc_map new_ice_server
        random_string
    made_pwd = refl

    made_fp : srv_fp (offer_parser (made_host dis md env config) shared m) ≡ fingerprint md
    unfolding srv_fp offer_parser made_host set_server_info set_mid_ssrc_map
    made_fp = print_full md (ascii "00:00:00:00:00") digest

-- A service with credentials drawn from its alphabet, a certificate with a digest, and an address
-- without a line feed, answers an offer that its parser accepts, with sections that all have a type,
-- whatever subscriptions were bound before. A new parser accepts the answer and reads the offer's
-- sections in the opposite directions, the service's own password and fingerprint, and a ufrag with
-- which the browser's USERNAME, in front of a colon and its own ufrag, passes the ICE check.
pub send_offer_read_back :
    {L S : Type 0} ⦃lib : Lib S⦄ (dis : ℕ → ℕ) (md : Bytes) (env : Option Bytes)
    (config : ConfigMgr) (shared other : Payloads) (name : String) (rms : List RecvMid)
    (sdp : Bytes) (s s' : MediaService L S) (m : List (String × ℕ)) (p' : SdpParser)
    → ((n : ℕ) → dis n < 36)
    → md ≢ []
    → NoLf (get_public_ip (made_host dis md env config))
    → offer_mids name rms s ≡ some (m, s')
    → parse_offer sdp (offer_parser (made_host dis md env config) shared m) ≡ parsed p'
    → accepted p' ≡ true
    → All (λ t. t.type ≢ []) p'.sections
    → (text : Bytes) × (q' : SdpParser) × (send_offer
          (made_host dis md env config)
          shared
          name
          rms
          sdp
          s
        ≡ some (answer_sdp text, p'.shared, s'))
      × (parse_offer text (new_parser other) ≡ parsed q')
      × Joined dis md p' q'
send_offer_read_back dis md env config shared other name rms sdp s s' m p' range digest ip bound
      took good typed =
    let host = made_host dis md env config in
    let told = made-HostLines dis md env config range digest ip in
    let (text, q', replied, read, has) =
      send_offer-answered host (new_ice_server dis) shared other name rms sdp s s' m p' told bound
        took good typed in
    let ufrag = has.ufrag_read ∙ made_uf dis md env config range digest shared m in
    (
      text,
      q',
      replied,
      read,
      record {
        offer_accepted = has.offer_accepted;
        sections_turned = has.sections_turned;
        pwd_read = has.pwd_read ∙ made_pwd dis md env config range digest shared m;
        fingerprint_read = has.fingerprint_read ∙ made_fp dis md env config range digest shared m;
        username_passes = λ peer st. rw ufrag (on_username_own dis peer st range);
      },
    )
