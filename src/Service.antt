-- ===== src/Service.antt =====
-- media-svc/grpc/MediaServiceImpl.h and MediaServiceImpl.cpp: the RPCs that change peers and
-- subscriptions. `none` is a read of a freed object, as in Sfu.
pub mod Safety
pub mod Rpcs
pub mod Offer
pub mod Negotiation
pub mod Fixtures
pub mod Ghost
pub mod Replaced
mod Runs
use Prim.Native.String.{String}
use text.Mathlib.Text.{◌==◌ as str_eq}
use namecon.Common.{
  ℕ, ◌+◌, Bool, true, false, List, [], ◌∷◌, Option, none, some, ◌==◌, if◌then◌else◌,
}
use namecon.Common.Store.{◌>>=◌}
use namecon.Transport.Srtp.{Lib}
use namecon.Sfu.State.{Router, set_peer}
use namecon.Sfu.Setup.{remove_peer, add_consumer}
use namecon.Sfu.Mids.{bind_consumer_by_mid, get_all_bound_ssrcs, put}
use namecon.Dispatch.{
  PacketRouter, DtlsContext, register_pending, find_name, holds_name, drop_pointer,
}

-- The members of the service: `_pktRouter`, with the router that both use, and `_peers`.
pub record MediaService (L S : Type 0) : Type 0 where
  pub packet_router : PacketRouter L S
  pub has_packet_router : Bool
  pub has_router : Bool
  pub peers : List (String × ℕ)

-- An entry of `recv_mids`.
pub record RecvMid : Type 0 where
  pub publisher_peer_id : String
  pub is_video : Bool
  pub mid : String

pub data Reply : Type 0 where
  not_found : Reply
  ok : ℕ → Reply

unfoldable pub drop_name : String → List (String × ℕ) → List (String × ℕ)
drop_name name [] = []
drop_name name ((n, p) ∷ rest) =
    if str_eq n name then drop_name name rest else (n, p) ∷ drop_name name rest

unfoldable pub put_all : List (String × ℕ) → List (String × ℕ) → List (String × ℕ)
put_all [] m = m
put_all ((mid, ssrc) ∷ rest) m = put_all rest (put mid ssrc m)

-- `if (ssrc != 0) midToSsrc[mid] = ssrc`
abbrev pub note_mid : String → ℕ → List (String × ℕ) → List (String × ℕ)
note_mid mid ssrc m = if ssrc == 0 then m else put mid ssrc m

module _ {L S : Type 0} where
  abbrev pub with_router : Router S (DtlsContext L) → MediaService L S → MediaService L S
  with_router r s = record s { packet_router = record s.packet_router { router = r } }

  abbrev pub named_peer : String → PacketRouter L S → PacketRouter L S
  named_peer name d = record d {
    router = set_peer d.next_peer (record (d.router.peers d.next_peer) { peer_id = name }) d.router;
    next_peer = d.next_peer + 1;
  }

  -- The pointers that `_peers[name] = peer` and `registerPeer` drop may be the last ones to the peer
  -- that had the name before.
  unfoldable pub add_peer : String → MediaService L S → MediaService L S
  add_peer name s =
      let p = s.packet_router.next_peer in
      let peers = put name p s.peers in
      let d =
        drop_pointer (holds_name peers) (find_name name s.peers)
          (named_peer name s.packet_router) in
      record s {
        packet_router = if s.has_packet_router then register_pending (holds_name peers) p d else d;
        peers = peers;
      }

  abbrev pub remove_found : String → MediaService L S → Option ℕ → Option (MediaService L S)
  remove_found name s none = some s
  remove_found name s (some p) =
      let s' = record s { peers = drop_name name s.peers } in
      if s.has_router
      then (remove_peer p s.packet_router.router >>= λ r. some (with_router r s'))
      else some s'

  -- The RPC RemovePeer. PacketRouter keeps its own pointer to the peer, pending or by the endpoint.
  unfoldable pub remove_named : String → MediaService L S → Option (MediaService L S)
  remove_named name s = remove_found name s (find_name name s.peers)

  abbrev pub add_found :
      (ℕ → ℕ) → Bool → MediaService L S → Option ℕ → Option ℕ → Option (Reply × MediaService L S)
  add_found dis is_video s none pub_ = some (not_found, s)
  add_found dis is_video s (some sub) none = some (not_found, s)
  add_found dis is_video s (some sub) (some pub_) =
      if s.has_router
      then (add_consumer dis sub pub_ is_video s.packet_router.router >>= λ (out : ℕ × _).
          some (ok out.0, with_router out.1 s))
      else some (ok 0, s)

  -- The RPC AddConsumer.
  unfoldable pub add_named :
      (ℕ → ℕ) → String → String → Bool → MediaService L S → Option (Reply × MediaService L S)
  add_named dis subscriber publisher is_video s =
      add_found dis is_video s (find_name subscriber s.peers) (find_name publisher s.peers)

  unfoldable pub bind_mids :
      ℕ
      → List RecvMid
      → List (String × ℕ)
      → Router S (DtlsContext L)
      → Option (List (String × ℕ) × Router S (DtlsContext L))
  bind_mids sub [] m r = some (m, r)
  bind_mids sub (rm ∷ rms) m r = do
    (ssrc, r') ← bind_consumer_by_mid sub rm.publisher_peer_id rm.is_video rm.mid r
    bind_mids sub rms (note_mid rm.mid ssrc m) r'

  abbrev pub mids_of :
      List RecvMid → MediaService L S → Option ℕ → Option (List (String × ℕ) × MediaService L S)
  mids_of rms s none = some ([], s)
  mids_of rms s (some sub) =
      if s.has_router
      then (bind_mids sub rms [] s.packet_router.router >>= λ out.
          get_all_bound_ssrcs sub out.1 >>= λ bound.
          some (put_all bound out.0, with_router out.1 s))
      else some ([], s)

  -- The RPC SendOffer, up to the map from mids to SSRCs that the answer is made with.
  unfoldable pub offer_mids :
      String → List RecvMid → MediaService L S → Option (List (String × ℕ) × MediaService L S)
  offer_mids name rms s = mids_of rms s (find_name name s.peers)
