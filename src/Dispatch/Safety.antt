-- ===== src/Dispatch/Safety.antt =====
-- PacketRouter::onPacket on any datagram: the router's invariant, and no read of a freed object.
use namecon.Common.Bytes.{byte, Bytes}
use namecon.Transport.Ice.{on_stun_packet, IceServer, Crypto}
use namecon.Sfu.Setup.{pli_for}
use namecon.Transport.Srtp.{new_context, unprotect_rtcp, init, unprotect, SrtpContext, Lib}
use namecon.Sfu.State.{set_peer, send_to, Router}
use namecon.Sfu.Types.{Producer, Endpoint}
use namecon.Sfu.Mids.{get_all_video_producers}
use namecon.Dispatch.{
  is_stun, handle_stun, decrypt, as_rtp, on_packet, handle_srtp, as_rtcp, handle_packet, dtls_of,
  ask_publisher, on_router, keyed, new_endpoint, handshake_finished, find_endpoint, Openssl,
  handle_dtls, send_pli_to_all_peers, String, ask_publishers, get_or_create_peer, PacketRouter,
  take_pending, send_all, DtlsContext,
}
use namecon.Common.{
  leb, ltb, ◌==◌, not, ◌&&◌, length, ℕ, ◌≡◌, refl, inl, inr, some, none, [], ◌∷◌, List, Option,
  Option-cases, true, false, Bool, if_elim,
}
use namecon.Sfu.Memory.Packets.{on_rtp_packet-Inv}
use namecon.Sfu.Memory.Keeps.{Keeps-send_rtcp, Keeps-Inv}
use namecon.Sfu.Memory.Reports.{on_rtcp_packet-Inv}
use namecon.Sfu.Memory.Steps.{HasSsrc, changed-Inv}
use namecon.Sfu.Memory.{Inv}

-- No SSRC 0 in what was decrypted, if anything was.
abbrev pub Clean : Option Bytes → Type 0
Clean none = Unit {0}
Clean (some plain) = HasSsrc plain

module _ {S D : Type 0} where
  send_to-Inv : (ep : Endpoint) (buf : Bytes) (r : Router S D) → Inv r → Inv (send_to ep buf r)
  send_to-Inv ep buf r v = record {
    linked = v.linked;
    distinct = v.distinct;
    owned = v.owned;
    mapped = v.mapped;
    fresh = v.fresh;
  }

module _ {L S : Type 0} where
  send_all-Inv :
      (ep : Endpoint) (bufs : List Bytes) (r : Router S (DtlsContext L))
      → Inv r
      → Inv (send_all ep bufs r)
  send_all-Inv ep [] r v = v
  send_all-Inv ep (buf ∷ bufs) r v =
      send_all-Inv ep bufs (send_to ep buf r) (send_to-Inv ep buf r v)

  module _ ⦃lib : Lib S⦄ where
    new_endpoint-Inv :
        (ep : Endpoint) (d : PacketRouter L S) (o : Option (ℕ × List (String × ℕ)))
        → Inv d.router
        → Inv (new_endpoint ep d o).1.router
    new_endpoint-Inv ep d none v = changed-Inv d.router d.next_peer _ refl refl v
    new_endpoint-Inv ep d (some (p, rest)) v = changed-Inv d.router p _ refl refl v

    get_or_create_peer-Inv :
        (i : ℕ) (ep : Endpoint) (d : PacketRouter L S)
        → Inv d.router
        → Inv (get_or_create_peer i ep d).1.router
    unfolding get_or_create_peer
    get_or_create_peer-Inv i ep d v = elim (Option-cases (find_endpoint ep d.peer_map)) [
      | inr (p, found) ↦ rw found v
      | inl absent ↦ rw absent (new_endpoint-Inv ep d (take_pending i d.pending_peers) v)
    ]

    ask_publishers-Inv :
        (q : ℕ) (prods : List Producer) (r : Router S (DtlsContext L))
        → Inv r
        → Inv (ask_publishers q prods r)
    unfolding ask_publishers
    ask_publishers-Inv q [] r v = v
    ask_publishers-Inv q (prod ∷ prods) r v = ask_publishers-Inv q prods (ask_publisher q prod r) (
        if_elim Inv (prod.publisher == q) _ _ v (
          if_elim Inv (prod.original_ssrc == 0) _ _ v
            (Keeps-Inv r _ (Keeps-send_rtcp prod.publisher (pli_for prod.original_ssrc) r) v)))

    send_pli_to_all_peers-Inv :
        (q : ℕ) (d : PacketRouter L S) → Inv d.router → Inv (send_pli_to_all_peers q d).router
    unfolding send_pli_to_all_peers
    send_pli_to_all_peers-Inv q d v =
        if_elim (λ (x : PacketRouter L S). Inv x.router) d.has_router _ _
          (ask_publishers-Inv q (get_all_video_producers d.router) d.router v) v

    keyed-Inv :
        (p : ℕ) (k : SrtpContext S × Bool) (d : PacketRouter L S)
        → Inv d.router
        → Inv (keyed p k d).router
    keyed-Inv p (ctx, false) d v = v
    keyed-Inv p (ctx, true) d v =
        send_pli_to_all_peers-Inv p
          (on_router (set_peer p (record (d.router.peers p) { srtp = some ctx })) d)
          (changed-Inv d.router p _ refl refl v)

    handshake_finished-Inv :
        (p : ℕ) (o : Option Bytes) (d : PacketRouter L S)
        → Inv d.router
        → Inv (handshake_finished p o d).router
    handshake_finished-Inv p none d v = v
    handshake_finished-Inv p (some keys) d v =
        if_elim (λ (x : PacketRouter L S). Inv x.router) (length keys == 0) _ _ v
          (keyed-Inv p (init new_context keys) d v)

    handle_dtls-Inv :
        (openssl : Openssl L) (i : ℕ) (ep : Endpoint) (data_ : Bytes) (d : PacketRouter L S)
        → Inv d.router
        → Inv (handle_dtls openssl i ep data_ d).router
    unfolding handle_dtls
    handle_dtls-Inv openssl i ep data_ d v =
        let p = (get_or_create_peer i ep d).0 in
        let d₁ = (get_or_create_peer i ep d).1 in
        let ctx = dtls_of openssl (d₁.router.peers p).dtls in
        let ctx' = (handle_packet openssl ctx data_).0 in
        let out = (handle_packet openssl ctx data_).1 in
        let v₁ = get_or_create_peer-Inv i ep d v in
        let v₂ = send_all-Inv ep out _ (
          changed-Inv d₁.router p (record (d₁.router.peers p) { dtls = some ctx' }) refl refl v₁) in
        if_elim (λ (x : PacketRouter L S). Inv x.router)
          (not ctx.handshake_done && ctx'.handshake_done) _ _
          (handshake_finished-Inv p (openssl.export_keying_material ctx'.ssl) _ v₂) v₂

    abbrev Ends : Option (PacketRouter L S) → Type 0
    Ends o = (d' : PacketRouter L S) × (o ≡ some d') × Inv d'.router

    as_rtcp-Ends :
        (p : ℕ) (k : SrtpContext S × Option Bytes) (d : PacketRouter L S)
        → Inv d.router
        → Ends (as_rtcp p k d)
    as_rtcp-Ends p (ctx, none) d v = (_, refl, changed-Inv d.router p _ refl refl v)
    as_rtcp-Ends p (ctx, some plain) d v =
        let d₁ = on_router (set_peer p (record (d.router.peers p) { srtp = some ctx })) d in
        let v₁ =
          changed-Inv d.router p (record (d.router.peers p) { srtp = some ctx }) refl refl v in
        let (r, done, v₂) = on_rtcp_packet-Inv plain d₁.router v₁ in
        if_elim Ends d₁.has_router _ _ (record d₁ { router = r }, rw done refl, v₂) (d₁, refl, v₁)

    as_rtp-Ends :
        (video_pts : ℕ → Bool) (p : ℕ) (data_ : Bytes) (k : SrtpContext S × Option Bytes)
        (d : PacketRouter L S)
        → Clean k.1
        → Inv d.router
        → Ends (as_rtp video_pts p data_ k d)
    as_rtp-Ends video_pts p data_ (ctx, none) d clean v =
        as_rtcp-Ends p (unprotect_rtcp ctx data_) d v
    as_rtp-Ends video_pts p data_ (ctx, some plain) d clean v =
        let d₁ = on_router (set_peer p (record (d.router.peers p) { srtp = some ctx })) d in
        let v₁ =
          changed-Inv d.router p (record (d.router.peers p) { srtp = some ctx }) refl refl v in
        let (r, done, v₂) = on_rtp_packet-Inv video_pts plain p d₁.router clean v₁ in
        if_elim Ends d₁.has_router _ _ (record d₁ { router = r }, rw done refl, v₂) (d₁, refl, v₁)

    decrypt-Ends :
        (video_pts : ℕ → Bool) (p : ℕ) (data_ : Bytes) (o : Option (SrtpContext S))
        (d : PacketRouter L S)
        → ((ctx : SrtpContext S) → Clean (unprotect ctx data_).1)
        → Inv d.router
        → Ends (decrypt video_pts p data_ o d)
    decrypt-Ends video_pts p data_ none d clean v = (d, refl, v)
    decrypt-Ends video_pts p data_ (some ctx) d clean v =
        as_rtp-Ends video_pts p data_ (unprotect ctx data_) d (clean ctx) v

    handle_srtp-Ends :
        (video_pts : ℕ → Bool) (i : ℕ) (ep : Endpoint) (data_ : Bytes) (d : PacketRouter L S)
        → ((ctx : SrtpContext S) → Clean (unprotect ctx data_).1)
        → Inv d.router
        → Ends (handle_srtp video_pts i ep data_ d)
    unfolding handle_srtp
    handle_srtp-Ends video_pts i ep data_ d clean v =
        let p = (get_or_create_peer i ep d).0 in
        let d₁ = (get_or_create_peer i ep d).1 in
        decrypt-Ends video_pts p data_ (d₁.router.peers p).srtp d₁ clean
          (get_or_create_peer-Inv i ep d v)

    handle_stun-Inv :
        (crypto : Crypto) (ep : Endpoint) (data_ : Bytes) (o : Option IceServer)
        (d : PacketRouter L S)
        → Inv d.router
        → Inv (handle_stun crypto ep data_ o d).router
    handle_stun-Inv crypto ep data_ none d v = v
    handle_stun-Inv crypto ep data_ (some server) d v =
        send_all-Inv ep (on_stun_packet crypto server data_ ep.address ep.port) d.router v

    -- Any datagram from any endpoint, in which no key decrypts an SSRC of 0, is dispatched without a
    -- read of a freed object, and the router's invariant holds after it.
    pub on_packet-Inv :
        (openssl : Openssl L) (crypto : Crypto) (video_pts : ℕ → Bool) (i : ℕ) (ep : Endpoint)
        (data_ : Bytes) (d : PacketRouter L S)
        → ((ctx : SrtpContext S) → Clean (unprotect ctx data_).1)
        → Inv d.router
        → (d' : PacketRouter L S) × (on_packet openssl crypto video_pts i ep data_ d ≡ some d')
          × Inv d'.router
    unfolding on_packet
    on_packet-Inv openssl crypto video_pts i ep data_ d clean v =
        if_elim Ends (ltb (length data_) 1) _ _ (d, refl, v)
          (if_elim Ends (is_stun data_) _ _ (_, refl, handle_stun-Inv crypto ep data_ d.ice d v)
            (if_elim Ends (leb 20 (byte data_ 0) && leb (byte data_ 0) 64) _ _
              (_, refl, handle_dtls-Inv openssl i ep data_ d v)
              (if_elim Ends (leb 128 (byte data_ 0)) _ _
                (handle_srtp-Ends video_pts i ep data_ d clean v) (d, refl, v))))
