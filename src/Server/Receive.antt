-- ===== src/Server/Receive.antt =====
-- The receive loop: every datagram in order, until a receive fails.
use namecon.Common.{
  ℕ, ◌≡◌, refl, ap, ◌∙◌, Bool, true, false, List, [], ◌∷◌, Option, none, some, map, Option-cases,
  inl, inr,
}
use namecon.Common.Store.{◌>>=◌}
use namecon.Common.Bytes.{Bytes}
use namecon.Transport.Srtp.{Lib}
use namecon.Sfu.Types.{Endpoint}
use namecon.Dispatch.{PacketRouter, on_packet}
use namecon.Service.{remove_named, add_named}
use namecon.Service.Rpcs.{send_offer}
use namecon.Server.{
  MediaServer, Outside, Completion, datagram, failed, Event, received, add_peer_rpc,
  remove_peer_rpc, add_consumer_rpc, send_offer_rpc, handle, on_receive, run, start_receive, routed,
  taken,
}

-- The RPCs among some events.
unfoldable pub rpcs : List Event → List Event
rpcs [] = []
rpcs (received i c ∷ es) = rpcs es
rpcs (add_peer_rpc name ∷ es) = add_peer_rpc name ∷ rpcs es
rpcs (remove_peer_rpc name ∷ es) = remove_peer_rpc name ∷ rpcs es
rpcs (add_consumer_rpc a b v ∷ es) = add_consumer_rpc a b v ∷ rpcs es
rpcs (send_offer_rpc name rms sdp ∷ es) = send_offer_rpc name rms sdp ∷ rpcs es

-- A datagram with its sender, and the position of the pending peer that it would be bound to.
abbrev pub Arrival : Type 0
Arrival = ℕ × Endpoint × Bytes

abbrev pub arrives : Arrival → Event
arrives (i, ep, data_) = received i (datagram ep data_)

module _ {L S : Type 0} (outside : Outside L) ⦃lib : Lib S⦄ where
  -- onPacket on each datagram, in order.
  unfoldable pub dispatch_all :
      (ℕ → Bool) → List Arrival → PacketRouter L S → Option (PacketRouter L S)
  dispatch_all video_pts [] d = some d
  dispatch_all video_pts ((i, ep, data_) ∷ rest) d =
      on_packet outside.openssl outside.crypto video_pts i ep data_ d >>= λ d'.
      dispatch_all video_pts rest d'

  -- From the start of the receive loop on, as long as no receive fails, every datagram reaches
  -- onPacket, in the order of arrival, and a receive is pending at the end.
  pub all_received :
      (arrivals : List Arrival) (m : MediaServer L S)
      → run outside (map arrives arrivals) (start_receive m) ≡ (
          dispatch_all m.shared.video_pts arrivals m.service.packet_router >>= λ d.
          some (start_receive (routed m d)))
  unfolding run handle on_receive start_receive dispatch_all
  all_received [] m = refl
  all_received ((i, ep, data_) ∷ rest) m =
      elim (Option-cases (
        on_packet outside.openssl outside.crypto m.shared.video_pts i ep data_
          m.service.packet_router)) [
            | inl stopped ↦ rw stopped
            | inr (d, went) ↦ rw went (all_received rest (routed m d))
          ]

  abbrev Deaf : Option (MediaServer L S) → Type 0
  Deaf none = Unit {0}
  Deaf (some m') = m'.udp.armed ≡ false

  module _ (es es' : List Event)
      (ih : (m : MediaServer L S)
        → m.udp.armed ≡ false
        → run outside es m ≡ run outside es' m) where
    after_rpc :
        (o : Option (MediaServer L S)) → Deaf o → (o >>= run outside es) ≡ (o >>= run outside es')
    after_rpc none h = refl
    after_rpc (some m') h = ih m' h

  bind-Deaf :
      {A : Type 0} (o : Option A) (f : A → MediaServer L S)
      → ((a : A) → (f a).udp.armed ≡ false)
      → Deaf (o >>= λ a. some (f a))
  bind-Deaf none f h = tt
  bind-Deaf (some a) f h = h a

  handle-Deaf : (e : Event) (m : MediaServer L S) → m.udp.armed ≡ false → Deaf (handle outside e m)
  unfolding handle
  handle-Deaf (received i c) m h = rw h refl
  handle-Deaf (add_peer_rpc name) m h = h
  handle-Deaf (remove_peer_rpc name) m h = bind-Deaf (remove_named name m.service) _ (λ s. h)
  handle-Deaf (add_consumer_rpc a b v) m h =
      bind-Deaf (add_named outside.dis a b v m.service) _ (λ out. h)
  handle-Deaf (send_offer_rpc name rms sdp) m h =
      bind-Deaf (send_offer m.host m.shared name rms sdp m.service) _ (λ out. h)

  lost :
      (i : ℕ) (c : Completion) (m : MediaServer L S)
      → m.udp.armed ≡ false
      → handle outside (received i c) m ≡ some m
  unfolding handle
  lost i c m h = simp h

  deaf_run :
      (es : List Event) (m : MediaServer L S)
      → m.udp.armed ≡ false
      → run outside es m ≡ run outside (rpcs es) m
  unfolding run rpcs
  deaf_run [] m h = refl
  deaf_run (received i c ∷ es) m h = ap (λ o. o >>= run outside es) (lost i c m h) ∙ deaf_run es m h
  deaf_run (add_peer_rpc name ∷ es) m h =
      after_rpc es (rpcs es) (deaf_run es) (handle outside (add_peer_rpc name) m)
        (handle-Deaf (add_peer_rpc name) m h)
  deaf_run (remove_peer_rpc name ∷ es) m h =
      after_rpc es (rpcs es) (deaf_run es) (handle outside (remove_peer_rpc name) m)
        (handle-Deaf (remove_peer_rpc name) m h)
  deaf_run (add_consumer_rpc a b v ∷ es) m h =
      after_rpc es (rpcs es) (deaf_run es) (handle outside (add_consumer_rpc a b v) m)
        (handle-Deaf (add_consumer_rpc a b v) m h)
  deaf_run (send_offer_rpc name rms sdp ∷ es) m h =
      after_rpc es (rpcs es) (deaf_run es) (handle outside (send_offer_rpc name rms sdp) m)
        (handle-Deaf (send_offer_rpc name rms sdp) m h)

  -- After one receive that fails, no datagram has any effect any more: the server does what it
  -- would do with the RPCs alone.
  pub deaf_after_error :
      (i : ℕ) (es : List Event) (m : MediaServer L S)
      → m.udp.armed ≡ true
      → run outside (received i failed ∷ es) m ≡ run outside (rpcs es) (taken m)
  unfolding run handle on_receive
  deaf_after_error i es m h = simp h (deaf_run es (taken m) refl)
