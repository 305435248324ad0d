-- ===== src/Server.antt =====
-- media-svc/core/MediaServer.cpp and media-svc/transport/UdpServer.cpp: the components put
-- together, the receive loop, and the RPCs of the service as events of the server.
pub mod Start
pub mod Safety
pub mod Receive
mod Runs
use Prim.Native.String.{String}
use namecon.Common.{ℕ, Bool, true, false, List, [], ◌∷◌, Option, none, some, if◌then◌else◌}
use namecon.Common.Store.{◌>>=◌}
use namecon.Common.Bytes.{Bytes}
use namecon.Config.{ConfigMgr}
use namecon.Transport.Ice.{Crypto, IceServer}
use namecon.Transport.Srtp.{Lib}
use namecon.Sfu.Types.{Endpoint, Peer}
use namecon.Sfu.State.{Router}
use namecon.Dispatch.{Openssl, PacketRouter, DtlsContext, on_packet}
use namecon.Sdp.Types.{Payloads}
use namecon.Service.{MediaService, RecvMid, Reply, add_peer, remove_named, add_named}
use namecon.Service.Rpcs.{Host, OfferReply, send_offer}

-- Whether a receive is pending on the socket, and whether there is a callback.
pub record UdpServer : Type 0 where
  pub armed : Bool
  pub on_receive : Bool

pub record MediaServer (L S : Type 0) : Type 0 where
  pub udp : UdpServer
  pub service : MediaService L S
  pub shared : Payloads
  pub host : Host

-- How a pending receive ends.
pub data Completion : Type 0 where
  datagram : Endpoint → Bytes → Completion
  failed : Completion

-- A completion, with the position that `begin()` of the pending peers has then, or an RPC.
pub data Event : Type 0 where
  received : ℕ → Completion → Event
  add_peer_rpc : String → Event
  remove_peer_rpc : String → Event
  add_consumer_rpc : String → String → Bool → Event
  send_offer_rpc : String → List RecvMid → Bytes → Event

-- What the application outside the server is: OpenSSL, HMAC and CRC-32, and the draws of SSRCs.
pub record Outside (L : Type 0) : Type 0 where
  pub openssl : Openssl L
  pub crypto : Crypto
  pub dis : ℕ → ℕ

module _ {L S : Type 0} where
  abbrev pub with_service : MediaService L S → MediaServer L S → MediaServer L S
  with_service s m = record m { service = s }

  -- `doReceive`
  abbrev pub do_receive : MediaServer L S → MediaServer L S
  do_receive m = record m { udp = record m.udp { armed = true } }

  unfoldable pub start_receive : MediaServer L S → MediaServer L S
  start_receive m = record m { udp = record { armed = true; on_receive = true } }

  -- A receive is pending no more once it completes.
  abbrev pub taken : MediaServer L S → MediaServer L S
  taken m = record m { udp = record m.udp { armed = false } }

  -- The parts as setupComponents puts them together, on a new router.
  unfoldable pub assemble : Router S (DtlsContext L) → Host → Payloads → MediaServer L S
  unfolding start_receive
  assemble r host shared = start_receive (record {
    udp = record { armed = false; on_receive = false };
    service = record {
      packet_router = record {
        router = r;
        has_router = true;
        ice = host.ice;
        peer_map = [];
        pending_peers = [];
        next_peer = 0;
        freed_peers = [];
      };
      has_packet_router = true;
      has_router = true;
      peers = [];
    };
    shared = shared;
    host = host;
  })

  abbrev pub routed : MediaServer L S → PacketRouter L S → MediaServer L S
  routed m d = with_service (record m.service { packet_router = d }) m

  module _ (outside : Outside L) ⦃lib : Lib S⦄ where
    -- `onReceive`, with the callback that setupComponents gives.
    unfoldable pub on_receive : ℕ → Completion → MediaServer L S → Option (MediaServer L S)
    on_receive i failed m = some m
    on_receive i (datagram ep data_) m =
        if m.udp.on_receive
        then (on_packet outside.openssl outside.crypto m.shared.video_pts i ep data_
              m.service.packet_router
            >>= λ d. some (do_receive (routed m d)))
        else some (do_receive m)

    -- Where no receive is pending nothing completes.
    unfoldable pub handle : Event → MediaServer L S → Option (MediaServer L S)
    handle (received i completion) m =
        if m.udp.armed then on_receive i completion (taken m) else some m
    handle (add_peer_rpc name) m = some (with_service (add_peer name m.service) m)
    handle (remove_peer_rpc name) m = do s ← remove_named name m.service; some (with_service s m)
    handle (add_consumer_rpc subscriber publisher is_video) m =
        add_named outside.dis subscriber publisher is_video m.service
        >>= λ (out : Reply × MediaService L S). some (with_service out.1 m)
    handle (send_offer_rpc name rms sdp) m =
        send_offer m.host m.shared name rms sdp m.service
        >>= λ (out : OfferReply × Payloads × MediaService L S).
            some (record m { service = out.2; shared = out.1 })

    -- Events one after the other; what two handlers do to one peer at the same time, where no lock
    -- is held, is not modelled.
    unfoldable pub run : List Event → MediaServer L S → Option (MediaServer L S)
    run [] m = some m
    run (e ∷ es) m = handle e m >>= λ m'. run es m'
