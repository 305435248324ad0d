-- ===== src/Dispatch.antt =====
-- media-svc/transport/PacketRouter.h and PacketRouter.cpp, and the handshake state of
-- DtlsContext.cpp: which component gets a datagram, and which peer an endpoint is.

pub mod Safety
pub mod Binding
pub mod Pointers
mod Runs
use namecon.Sfu.Mids.{put, get_all_video_producers}
use namecon.Common.Bytes.{read32, byte, Bytes}
use namecon.Transport.Ice.{Crypto, IceServer, on_stun_packet}
use namecon.Common.Store.{◌>>=◌}
use namecon.Common.{
  true, false, length, ltb, leb, not, ℕ, zero, suc, ◌+◌, Bool, ◌&&◌, ◌||◌, List, [], ◌∷◌, ◌++◌,
  Option, none, some, ◌==◌, if◌then◌else◌,
}
use namecon.Transport.Srtp.{new_context, unprotect_rtcp, init, unprotect, SrtpContext, Lib}
use namecon.Sfu.Forward.{on_rtp_packet}
use namecon.Sfu.Feedback.{on_rtcp_packet}
use Prim.Native.String.{String}
use namecon.Sfu.Types.{Endpoint, Producer}
use namecon.Sfu.State.{Router, set_peer, send_to, send_rtcp}
use namecon.Sfu.Setup.{pli_for, free}
use text.Mathlib.Text.{◌==◌ as str_eq}

-- OpenSSL: a new session; a datagram and one call of `SSL_do_handshake`, with whether it returned 1
-- and what the session wants sent; the keying material, or nothing where the export fails.
pub record Openssl (L : Type 0) : Type 0 where
  pub ssl_new : L
  pub do_handshake : L → Bytes → L × Bool × List Bytes
  pub export_keying_material : L → Option Bytes

pub record DtlsContext (L : Type 0) : Type 0 where
  pub ssl : L
  pub handshake_done : Bool

-- The members of PacketRouter, and of the objects that it reaches. Which entry of `pending_peers`
-- stands first, `begin()`, the hash decides. `freed_peers` are the peers that were destroyed, whose
-- memory is free, though the router may have pointers to them.
pub record PacketRouter (L S : Type 0) : Type 0 where
  pub router : Router S (DtlsContext L)
  pub has_router : Bool
  pub ice : Option IceServer
  pub peer_map : List (Endpoint × ℕ)
  pub pending_peers : List (String × ℕ)
  pub next_peer : ℕ
  pub freed_peers : List ℕ

unfoldable pub find_name : String → List (String × ℕ) → Option ℕ
find_name name [] = none
find_name name ((n, p) ∷ rest) = if str_eq n name then some p else find_name name rest

-- Whether a table has a pointer to the peer.
unfoldable pub holds_name : List (String × ℕ) → ℕ → Bool
holds_name [] q = false
holds_name ((n, p) ∷ rest) q = p == q || holds_name rest q

unfoldable pub holds_endpoint : List (Endpoint × ℕ) → ℕ → Bool
holds_endpoint [] q = false
holds_endpoint ((e, p) ∷ rest) q = p == q || holds_endpoint rest q

unfoldable pub endpoint_eq : Endpoint → Endpoint → Bool
endpoint_eq a b = a.address == b.address && a.port == b.port

unfoldable pub find_endpoint : Endpoint → List (Endpoint × ℕ) → Option ℕ
find_endpoint ep [] = none
find_endpoint ep ((e, p) ∷ rest) = if endpoint_eq e ep then some p else find_endpoint ep rest

abbrev pub push_front : String × ℕ → Option (ℕ × List (String × ℕ)) → Option (ℕ × List (String × ℕ))
push_front entry none = none
push_front entry (some (p, rest)) = some (p, entry ∷ rest)

-- The entry at a position, the last one past the end, and the others.
unfoldable pub take_pending : ℕ → List (String × ℕ) → Option (ℕ × List (String × ℕ))
take_pending i [] = none
take_pending i ((name, p) ∷ []) = some (p, [])
take_pending zero ((name, p) ∷ entry ∷ rest) = some (p, entry ∷ rest)
take_pending (suc i) ((name, p) ∷ entry ∷ rest) =
    push_front (name, p) (take_pending i (entry ∷ rest))

module _ {L : Type 0} (openssl : Openssl L) where
  abbrev pub new_dtls : DtlsContext L
  new_dtls = record { ssl = openssl.ssl_new; handshake_done = false }

  -- The context after a datagram, and what it sends.
  unfoldable pub handle_packet : DtlsContext L → Bytes → DtlsContext L × List Bytes
  handle_packet ctx data_ =
      if ctx.handshake_done
      then (ctx, [])
      else (let (ssl, finished, out) = openssl.do_handshake ctx.ssl data_ in
          (record { ssl = ssl; handshake_done = finished }, out))

  abbrev pub dtls_of : Option (DtlsContext L) → DtlsContext L
  dtls_of none = new_dtls
  dtls_of (some ctx) = ctx

module _ {L S : Type 0} where
  abbrev pub on_router :
      (Router S (DtlsContext L) → Router S (DtlsContext L)) → PacketRouter L S → PacketRouter L S
  on_router f d = record d { router = f d.router }

  abbrev pub bind_endpoint : ℕ → Endpoint → PacketRouter L S → PacketRouter L S
  bind_endpoint p ep d = record d {
    router = set_peer p (record (d.router.peers p) { remote_ep = ep }) d.router;
    peer_map = d.peer_map ++ ((ep, p) ∷ []);
  }

  -- A pending peer if there is one; otherwise a new one, at an address that was not used yet.
  abbrev pub new_endpoint :
      Endpoint → PacketRouter L S → Option (ℕ × List (String × ℕ)) → ℕ × PacketRouter L S
  new_endpoint ep d none =
      (d.next_peer, bind_endpoint d.next_peer ep (record d { next_peer = d.next_peer + 1 }))
  new_endpoint ep d (some (p, rest)) = (p, bind_endpoint p ep (record d { pending_peers = rest }))

  abbrev pub known_endpoint : ℕ → Endpoint → PacketRouter L S → Option ℕ → ℕ × PacketRouter L S
  known_endpoint i ep d (some p) = (p, d)
  known_endpoint i ep d none = new_endpoint ep d (take_pending i d.pending_peers)

  unfoldable pub get_or_create_peer : ℕ → Endpoint → PacketRouter L S → ℕ × PacketRouter L S
  get_or_create_peer i ep d = known_endpoint i ep d (find_endpoint ep d.peer_map)

  -- The destructor of a peer, which frees the consumers that it owns.
  unfoldable pub destroy : ℕ → PacketRouter L S → PacketRouter L S
  destroy q d = record d {
    router = record d.router { consumers = free (d.router.peers q).consumers d.router.consumers };
    freed_peers = q ∷ d.freed_peers;
  }

  -- A `shared_ptr` to a peer that is gone: the peer is destroyed if no table has another one, in the
  -- service or here.
  unfoldable pub drop_pointer : (ℕ → Bool) → Option ℕ → PacketRouter L S → PacketRouter L S
  drop_pointer held none d = d
  drop_pointer held (some q) d =
      if held q || (holds_name d.pending_peers q || holds_endpoint d.peer_map q)
      then d
      else destroy q d

  -- `registerPeer`: `_pendingPeers[peer->peerId] = peer`; `held` are the peers of the service.
  unfoldable pub register_pending : (ℕ → Bool) → ℕ → PacketRouter L S → PacketRouter L S
  register_pending held p d =
      let name = (d.router.peers p).peer_id in
      drop_pointer held (find_name name d.pending_peers)
        (record d { pending_peers = put name p d.pending_peers })

  abbrev pub send_all : Endpoint → List Bytes → Router S (DtlsContext L) → Router S (DtlsContext L)
  send_all ep [] r = r
  send_all ep (buf ∷ bufs) r = send_all ep bufs (send_to ep buf r)

  module _ ⦃lib : Lib S⦄ where
    abbrev pub ask_publisher : ℕ → Producer → Router S (DtlsContext L) → Router S (DtlsContext L)
    ask_publisher new_peer prod r =
        if prod.publisher == new_peer
        then r
        else (if prod.original_ssrc == 0
            then r
            else (send_rtcp prod.publisher (pli_for prod.original_ssrc) r).0)

    unfoldable pub ask_publishers :
        ℕ → List Producer → Router S (DtlsContext L) → Router S (DtlsContext L)
    ask_publishers new_peer [] r = r
    ask_publishers new_peer (prod ∷ prods) r =
        ask_publishers new_peer prods (ask_publisher new_peer prod r)

    unfoldable pub send_pli_to_all_peers : ℕ → PacketRouter L S → PacketRouter L S
    send_pli_to_all_peers new_peer d =
        if d.has_router
        then on_router (ask_publishers new_peer (get_all_video_producers d.router)) d
        else d

module _ {L S : Type 0} ⦃lib : Lib S⦄ where
  abbrev pub keyed : ℕ → SrtpContext S × Bool → PacketRouter L S → PacketRouter L S
  keyed p (ctx, false) d = d
  keyed p (ctx, true) d =
      send_pli_to_all_peers p
        (on_router (set_peer p (record (d.router.peers p) { srtp = some ctx })) d)

  -- `!keys.empty() && srtp->init(keys)`
  abbrev pub handshake_finished : ℕ → Option Bytes → PacketRouter L S → PacketRouter L S
  handshake_finished p none d = d
  handshake_finished p (some keys) d =
      if length keys == 0 then d else keyed p (init new_context keys) d

  module _ (openssl : Openssl L) where
    -- The peer's DTLS context, made if there is none, takes the datagram.
    abbrev pub drive_dtls :
        ℕ → Endpoint → Bytes → DtlsContext L → PacketRouter L S → PacketRouter L S
    drive_dtls p ep data_ ctx d =
        let (ctx', out) = handle_packet openssl ctx data_ in
        let d' =
          on_router (λ r. send_all ep out (set_peer p (record (r.peers p) { dtls = some ctx' }) r))
            d in
        if not ctx.handshake_done && ctx'.handshake_done
        then handshake_finished p (openssl.export_keying_material ctx'.ssl) d'
        else d'

    unfoldable pub handle_dtls : ℕ → Endpoint → Bytes → PacketRouter L S → PacketRouter L S
    handle_dtls i ep data_ d =
        let (p, d₁) = get_or_create_peer i ep d in
        drive_dtls p ep data_ (dtls_of openssl (d₁.router.peers p).dtls) d₁

  -- After the second try: an RTCP packet, or nothing that decrypts.
  abbrev pub as_rtcp :
      ℕ → SrtpContext S × Option Bytes → PacketRouter L S → Option (PacketRouter L S)
  as_rtcp p (ctx, none) d =
      some (on_router (set_peer p (record (d.router.peers p) { srtp = some ctx })) d)
  as_rtcp p (ctx, some plain) d =
      let d₁ = on_router (set_peer p (record (d.router.peers p) { srtp = some ctx })) d in
      if d₁.has_router
      then (on_rtcp_packet plain d₁.router >>= λ r. some (record d₁ { router = r }))
      else some d₁

  module _ (video_pts : ℕ → Bool) where
    abbrev pub as_rtp :
        ℕ → Bytes → SrtpContext S × Option Bytes → PacketRouter L S → Option (PacketRouter L S)
    as_rtp p data_ (ctx, none) d = as_rtcp p (unprotect_rtcp ctx data_) d
    as_rtp p data_ (ctx, some plain) d =
        let d₁ = on_router (set_peer p (record (d.router.peers p) { srtp = some ctx })) d in
        if d₁.has_router
        then (on_rtp_packet video_pts plain p d₁.router >>= λ r. some (record d₁ { router = r }))
        else some d₁

    abbrev pub decrypt :
        ℕ → Bytes → Option (SrtpContext S) → PacketRouter L S → Option (PacketRouter L S)
    decrypt p data_ none d = some d
    decrypt p data_ (some ctx) d = as_rtp p data_ (unprotect ctx data_) d

    unfoldable pub handle_srtp : ℕ → Endpoint → Bytes → PacketRouter L S → Option (PacketRouter L S)
    handle_srtp i ep data_ d =
        let (p, d₁) = get_or_create_peer i ep d in decrypt p data_ (d₁.router.peers p).srtp d₁

module _ {L S : Type 0} (crypto : Crypto) where
  -- The callback of the ICE server sends on the same socket.
  abbrev pub handle_stun : Endpoint → Bytes → Option IceServer → PacketRouter L S → PacketRouter L S
  handle_stun ep data_ none d = d
  handle_stun ep data_ (some server) d =
      on_router (send_all ep (on_stun_packet crypto server data_ ep.address ep.port)) d

-- A STUN header: 20 bytes, a first byte of 0, a second of at most 3, and the magic cookie.
abbrev pub is_stun : Bytes → Bool
is_stun data_ =
    leb 20 (length data_)
    && (byte data_ 0 == 0 && (leb (byte data_ 1) 3 && read32 data_ 4 == 0x2112A442))

module _ {L S : Type 0} (openssl : Openssl L) (crypto : Crypto) (video_pts : ℕ → Bool)
    ⦃lib : Lib S⦄ where
  unfoldable pub on_packet : ℕ → Endpoint → Bytes → PacketRouter L S → Option (PacketRouter L S)
  on_packet i ep data_ d =
      if ltb (length data_) 1
      then some d
      else (if is_stun data_
          then some (handle_stun crypto ep data_ d.ice d)
          else (if leb 20 (byte data_ 0) && leb (byte data_ 0) 64
              then some (handle_dtls openssl i ep data_ d)
              else (if leb 128 (byte data_ 0) then handle_srtp video_pts i ep data_ d else some d)))
