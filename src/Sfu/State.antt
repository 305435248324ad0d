-- ===== src/Sfu/State.antt =====
-- The state of Router (media-svc/sfu/Router.h), and the packets that leave through UdpServer.
use namecon.Common.{
  ◌≡◌, ℕ, Bool, true, false, List, [], ◌∷◌, ◌++◌, Option, none, some, ◌==◌, if◌then◌else◌, ◌||◌,
}
use namecon.Common.Bytes.{Bytes}
use namecon.Common.Store.{update}
use namecon.Transport.Srtp.{SrtpContext, Lib, protect_rtcp}
use namecon.Sfu.Types.{Consumer, Peer, Endpoint}
use namecon.Sfu.RouteTable.{RouteTable}

-- `_udp->sendTo(data, len, target)`
pub record Datagram : Type 0 where
  pub target : Endpoint
  pub payload : Bytes

-- `overruns` counts the writes past the end of a buffer in `handleRR`. The peers stand at the addresses that their owners keep; `consumers` is the memory of the
-- `Consumer` objects, where `none` is memory that is free, and `next` an address above all in use.
pub record Router (S D : Type 0) : Type 0 where
  pub peers : ℕ → Peer S D
  pub consumers : ℕ → Option Consumer
  pub next : ℕ
  pub all_peers : List ℕ
  pub out_ssrcs : List (ℕ × ℕ)
  pub table : RouteTable
  pub draws : ℕ
  pub sent : List Datagram
  pub overruns : ℕ

-- Whether a peer is on a list.
unfoldable pub listed : ℕ → List ℕ → Bool
listed p [] = false
listed p (q ∷ qs) = q == p || listed p qs

module _ {S D : Type 0} where
  abbrev pub set_peer : ℕ → Peer S D → Router S D → Router S D
  set_peer q p r = record r { peers = update r.peers q p }

  abbrev pub set_consumer : ℕ → Consumer → Router S D → Router S D
  set_consumer c k r = record r { consumers = update r.consumers c (some k) }

  abbrev pub send_to : Endpoint → Bytes → Router S D → Router S D
  send_to ep buf r = record r { sent = r.sent ++ (record { target = ep; payload = buf } ∷ []) }

  -- `registerPeer`: add the peer once.
  unfoldable pub register_peer : ℕ → Router S D → Router S D
  register_peer p r =
      if listed p r.all_peers then r else record r { all_peers = r.all_peers ++ (p ∷ []) }

  -- After a call of the SRTP context of peer `q`: its new state, and the packet if there is one,
  -- which goes to the peer's endpoint.
  abbrev pub sent_on : ℕ → SrtpContext S × Option Bytes → Router S D → Router S D × Bool
  sent_on q (ctx, none) r = (set_peer q (record (r.peers q) { srtp = some ctx }) r, false)
  sent_on q (ctx, some out) r = (
    send_to (r.peers q).remote_ep out (set_peer q (record (r.peers q) { srtp = some ctx }) r),
    true,
  )

  -- The peer's SRTP context is keyed, with this session for what it sends.
  abbrev pub SendsWith : ℕ → S → Router S D → Type 0
  SendsWith q s r =
      (ctx : SrtpContext S) × ((r.peers q).srtp ≡ some ctx)
      × (ctx.inited ≡ true)
      × (ctx.srtp_out ≡ some s)

  module _ ⦃lib : Lib S⦄ where
    abbrev pub protected_rtcp : ℕ → Bytes → Option (SrtpContext S) → Router S D → Router S D × Bool
    protected_rtcp q pkt none r = (r, false)
    protected_rtcp q pkt (some ctx) r = sent_on q (protect_rtcp ctx pkt) r

    -- `if (peer->srtp->protectRtcp(out, &outLen)) _udp->sendTo(out, outLen, peer->remoteEp)`, under
    -- the guard that the peer has an SRTP context.
    unfoldable pub send_rtcp : ℕ → Bytes → Router S D → Router S D × Bool
    send_rtcp q pkt r = protected_rtcp q pkt (r.peers q).srtp r
