-- ===== src/Service/Rpcs.antt =====
-- media-svc/grpc/MediaServiceImpl.cpp: SendOffer with its answer, and the replies of the other RPCs.
-- Names and mids are Strings in the service and bytes in SDP: they are taken to be ASCII.
use Prim.Native.String.{String}
use namecon.Common.{ℕ, List, [], ◌++◌, Option, none, some, if◌then◌else◌, map}
use namecon.Common.Store.{◌>>=◌}
use namecon.Common.Bytes.{Bytes}
use namecon.Common.Int.{pos}
use namecon.Common.Text.{ascii, decimal}
use namecon.Config.{ConfigMgr, get, section}
use namecon.Transport.Ice.{IceServer}
use namecon.Sdp.{empty}
use namecon.Sdp.Types.{SdpParser, Payloads}
use namecon.Sdp.Answer.{set_server_info, set_mid_ssrc_map, generate_answer, Answer, answer, threw}
use namecon.Service.{MediaService, RecvMid, offer_mids}

-- What the service reads besides its peers: `PUBLIC_IP`, the configuration, `_ice` and
-- `DtlsContext::fingerprint()`.
pub record Host : Type 0 where
  pub public_ip_env : Option Bytes
  pub config : ConfigMgr
  pub ice : Option IceServer
  pub dtls_fingerprint : Bytes

abbrev pub first_text : Bytes → Bytes → Bytes
first_text text other = if empty text then other else text

abbrev pub env_or : Option Bytes → Bytes → Bytes
env_or none other = other
env_or (some text) other = first_text text other

unfoldable pub get_public_ip : Host → Bytes
get_public_ip host = env_or host.public_ip_env (
    first_text (get (ascii "public_ip") (section (ascii "server") host.config)) (ascii "127.0.0.1"))

-- The reply to AddPeer.
pub record PeerReply : Type 0 where
  pub sfu_ip : Bytes
  pub sfu_port : ℕ
  pub ice_ufrag : Bytes
  pub ice_pwd : Bytes
  pub fingerprint : Bytes

abbrev pub ufrag_of : Option IceServer → Bytes
ufrag_of none = []
ufrag_of (some ice) = ice.ice_ufrag

abbrev pub pwd_of : Option IceServer → Bytes
pwd_of none = []
pwd_of (some ice) = ice.ice_pwd

unfoldable pub peer_reply : Host → PeerReply
peer_reply host = record {
  sfu_ip = get_public_ip host;
  sfu_port = 10000;
  ice_ufrag = ufrag_of host.ice;
  ice_pwd = pwd_of host.ice;
  fingerprint = host.dtls_fingerprint;
}

-- CreateRoom with the number that is drawn: the room and its token.
unfoldable pub create_room : ℕ → Bytes × Bytes
create_room n = (decimal n, ascii "token_" ++ decimal n)

-- `SdpParser parser`, over the static members.
unfoldable pub new_parser : Payloads → SdpParser
new_parser shared = record {
  sections = [];
  ice_ufrag = [];
  ice_pwd = [];
  fingerprint = [];
  server_ip = [];
  server_port = pos 10000;
  server_ufrag = [];
  server_pwd = [];
  server_fingerprint = [];
  mid_ssrc = [];
  shared = shared;
}

abbrev pub server_info : Host → Option IceServer → SdpParser → SdpParser
server_info host none p = p
server_info host (some ice) p =
    set_server_info (get_public_ip host) (pos 10000) ice.ice_ufrag ice.ice_pwd host.dtls_fingerprint
      p

abbrev pub mid_bytes : List (String × ℕ) → List (Bytes × ℕ)
mid_bytes m = map (λ (e : String × ℕ). (ascii e.0, e.1)) m

-- The parser that the answer is made with.
unfoldable pub offer_parser : Host → Payloads → List (String × ℕ) → SdpParser
offer_parser host shared m =
    set_mid_ssrc_map (mid_bytes m) (server_info host host.ice (new_parser shared))

-- The reply to SendOffer: with an answer, with none, or an exception.
pub data OfferReply : Type 0 where
  answer_sdp : Bytes → OfferReply
  no_answer : OfferReply
  raised : OfferReply

abbrev pub offer_reply : Answer → OfferReply
offer_reply (answer text p) = if empty text then no_answer else answer_sdp text
offer_reply (threw p) = raised

abbrev pub shared_after : Answer → Payloads
shared_after (answer text p) = p.shared
shared_after (threw p) = p.shared

module _ {L S : Type 0} where
  -- The RPC SendOffer.
  unfoldable pub send_offer :
      Host
      → Payloads
      → String
      → List RecvMid
      → Bytes
      → MediaService L S
      → Option (OfferReply × Payloads × MediaService L S)
  send_offer host shared name rms sdp s = do
    (m, s') ← offer_mids name rms s
    let out = generate_answer sdp (offer_parser host shared m)
    some (offer_reply out, shared_after out, s')
