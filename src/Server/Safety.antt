-- ===== src/Server/Safety.antt =====
-- Every run of the server.
use namecon.Common.{
  ◌⊎◌, inl, inr, ◌++◌, ap, ℕ, ◌≡◌, ◌≤◌, refl, List, [], ◌∷◌, Option, some, if_elim, All,
}
use namecon.Transport.Srtp.{Lib, SrtpContext, unprotect}
use Prim.Native.String.{String}
use namecon.Dispatch.{DtlsContext}
use namecon.Dispatch.Pointers.{Destroys}
use namecon.Service.{add_peer}
use namecon.Dispatch.Safety.{on_packet-Inv, Clean}
use namecon.Sfu.State.{Router}
use namecon.Sfu.Memory.{Inv}
use namecon.Service.Rpcs.{send_offer, offer_parser, shared_after, Host}
use namecon.Sdp.Answer.{generate_answer}
use namecon.Service.Safety.{rpc-Inv}
use namecon.Sfu.Memory.Steps.{IsInitial, Reach-Inv, start}
use namecon.Sdp.Types.{Payloads}
use namecon.Server.{
  assemble, start_receive, MediaServer, Outside, Completion, datagram, failed, Event, received,
  add_peer_rpc, remove_peer_rpc, add_consumer_rpc, send_offer_rpc, handle, on_receive, run,
  do_receive, routed, taken, with_service,
}

-- No key that the server holds, or could hold, decrypts a datagram of the event to an RTP packet of
-- SSRC 0.
module _ (S : Type 0) ⦃lib : Lib S⦄ where
  abbrev pub IsClean : Event → Type 0
  IsClean (received i (datagram ep data_)) = (ctx : SrtpContext S) → Clean (unprotect ctx data_).1
  IsClean e = Unit {0}

-- Every event but AddPeer.
abbrev IsOther : Event → Type 0
IsOther (add_peer_rpc name) = ⊥
IsOther e = Unit {0}

module _ {L S : Type 0} (outside : Outside L) ⦃lib : Lib S⦄ where
  abbrev Good : Option (MediaServer L S) → Type 0
  Good o = (m' : MediaServer L S) × (o ≡ some m') × Inv m'.service.packet_router.router

  on_receive-Good :
      (i : ℕ) (completion : Completion) (m : MediaServer L S)
      → IsClean S (received i completion)
      → Inv m.service.packet_router.router
      → Good (on_receive outside i completion m)
  unfolding on_receive
  on_receive-Good i failed m clean v = (m, refl, v)
  on_receive-Good i (datagram ep data_) m clean v =
      let (d, e, v') =
        on_packet-Inv outside.openssl outside.crypto m.shared.video_pts i ep data_
          m.service.packet_router clean v in
      if_elim Good m.udp.on_receive _ _ (do_receive (routed m d), rw e refl, v')
        (do_receive m, refl, v)

  handle-Good :
      (e : Event) (m : MediaServer L S)
      → IsOther e
      → ((n : ℕ) → (0x40000000 ≤ outside.dis n) × (outside.dis n ≤ 0x7FFFFFFF))
      → IsClean S e
      → Inv m.service.packet_router.router
      → Good (handle outside e m)
  unfolding handle send_offer
  handle-Good (received i completion) m _ range clean v =
      if_elim Good m.udp.armed _ _ (on_receive-Good i completion (taken m) clean v) (m, refl, v)
  handle-Good (add_peer_rpc name) m other range clean v = elim other [ ]
  handle-Good (remove_peer_rpc name) m _ range clean v =
      let (s, e, v') = (rpc-Inv m.service outside.dis range v).1 name in
      (with_service s m, rw e refl, v')
  handle-Good (add_consumer_rpc subscriber publisher is_video) m _ range clean v =
      let (out, e, v') = (rpc-Inv m.service outside.dis range v).2 subscriber publisher is_video in
      (with_service out.1 m, rw e refl, v')
  handle-Good (send_offer_rpc name rms sdp) m _ range clean v =
      let (out, e, v') = (rpc-Inv m.service outside.dis range v).3 name rms in
      let made = generate_answer sdp (offer_parser m.host m.shared out.0) in
      (record m { service = out.1; shared = shared_after made }, rw e refl, v')

  -- An AddPeer that destroys a peer.
  abbrev pub Replaces : String → MediaServer L S → Type 0
  Replaces name m = Destroys m.service.packet_router (add_peer name m.service).packet_router

  -- The whole run, with the invariant; or the run up to such an AddPeer.
  abbrev pub Ends : List Event → MediaServer L S → Type 0
  Ends es m =
      ((m' : MediaServer L S) × (run outside es m ≡ some m') × Inv m'.service.packet_router.router)
      ⊎ ((before : List Event) × (name : String) × (after : List Event) × (m₁ : MediaServer L S)
          × (es ≡ before ++ add_peer_rpc name ∷ after)
          × (run outside before m ≡ some m₁)
          × Inv m₁.service.packet_router.router
          × Replaces name m₁)

  then_Ends :
      (e : Event) (es : List Event) (m m₁ : MediaServer L S)
      → handle outside e m ≡ some m₁
      → Ends es m₁
      → Ends (e ∷ es) m
  unfolding run
  then_Ends e es m m₁ one (inl (m', more, v')) = inl (m', rw one more, v')
  then_Ends e es m m₁ one (inr (before, name, after, m₂, split, more, v₂, dead)) =
      inr (e ∷ before, name, after, m₂, ap (λ l. e ∷ l) split, rw one more, v₂, dead)

  other_Ends :
      (e : Event) (es : List Event) (m : MediaServer L S)
      → IsOther e
      → ((n : ℕ) → (0x40000000 ≤ outside.dis n) × (outside.dis n ≤ 0x7FFFFFFF))
      → IsClean S e
      → Inv m.service.packet_router.router
      → ((m₁ : MediaServer L S) → Inv m₁.service.packet_router.router → Ends es m₁)
      → Ends (e ∷ es) m
  other_Ends e es m other range clean v more =
      let (m₁, one, v₁) = handle-Good e m other range clean v in
      then_Ends e es m m₁ one (more m₁ v₁)

  -- Any events, on a router whose invariant holds.
  pub run-Ends :
      (es : List Event) (m : MediaServer L S)
      → ((n : ℕ) → (0x40000000 ≤ outside.dis n) × (outside.dis n ≤ 0x7FFFFFFF))
      → All (IsClean S) es
      → Inv m.service.packet_router.router
      → Ends es m
  unfolding run handle
  run-Ends [] m range clean v = inl (m, refl, v)
  run-Ends (add_peer_rpc name ∷ es) m range clean v =
      elim ((rpc-Inv m.service outside.dis range v).0 name) [
        | inl kept ↦
            then_Ends (add_peer_rpc name) es m (with_service (add_peer name m.service) m) refl
              (run-Ends es (with_service (add_peer name m.service) m) range clean.1 kept)
        | inr dead ↦ inr ([], name, es, m, refl, refl, v, dead)
      ]
  run-Ends (received i c ∷ es) m range clean v =
      other_Ends (received i c) es m tt range clean.0 v (λ m₁. run-Ends es m₁ range clean.1)
  run-Ends (remove_peer_rpc name ∷ es) m range clean v =
      other_Ends (remove_peer_rpc name) es m tt range clean.0 v (λ m₁. run-Ends es m₁ range clean.1)
  run-Ends (add_consumer_rpc a b x ∷ es) m range clean v =
      other_Ends (add_consumer_rpc a b x) es m tt range clean.0 v
        (λ m₁. run-Ends es m₁ range clean.1)
  run-Ends (send_offer_rpc name rms sdp ∷ es) m range clean v =
      other_Ends (send_offer_rpc name rms sdp) es m tt range clean.0 v
        (λ m₁. run-Ends es m₁ range clean.1)

  -- From the assembled server on, whatever datagrams arrive from whatever endpoints, whatever
  -- receives fail, and whatever RPCs are called, in any order and number: either the run goes to its
  -- end without a read of a freed Consumer, and the router's invariant holds there; or so it goes up
  -- to an AddPeer that destroys a peer. Where no key decrypts a datagram to an SSRC of 0, and the
  -- drawn SSRCs are in their range. A SendOffer may end in the parser's exception.
  pub run-assemble-Ends :
      (es : List Event) (r : Router S (DtlsContext L)) (host : Host) (shared : Payloads)
      → ((n : ℕ) → (0x40000000 ≤ outside.dis n) × (outside.dis n ≤ 0x7FFFFFFF))
      → All (IsClean S) es
      → IsInitial r
      → Ends es (assemble r host shared)
  unfolding assemble start_receive
  run-assemble-Ends es r host shared range clean i =
      run-Ends es (assemble r host shared) range clean (Reach-Inv i start)
