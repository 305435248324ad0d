-- ===== src/Service/Safety.antt =====
-- The RPCs of MediaServiceImpl and the router's invariant.
use namecon.Dispatch.{
  drop_pointer, find_name, PacketRouter, register_pending, DtlsContext, holds_name,
}
use namecon.Service.{
  named_peer, put_all, drop_name, mids_of, note_mid, offer_mids, add_named, str_eq, with_router,
  remove_named, bind_mids, add_peer, add_found, remove_found, MediaService, RecvMid, Reply,
}
use namecon.Dispatch.Pointers.{Destroys, drop_pointer-cases, drop_pointer-le}
use namecon.Sfu.Memory.Steps.{changed-Inv}
use namecon.Sfu.Mids.{put, get_all_bound_ssrcs, bound_ssrcs}
use namecon.Sfu.State.{Router}
use namecon.Transport.Srtp.{Lib}
use namecon.Sfu.Memory.Reports.{bind_consumer_by_mid-Inv}
use namecon.Sfu.Memory.Remove.{remove_peer-Inv}
use namecon.Common.{
  ◌⊎◌, inl, inr, Bool-cases, arith, if◌then◌else◌, ℕ, ◌≡◌, ◌≤◌, refl, some, none, [], ◌∷◌, List,
  Option, Bool, if_elim,
}
use namecon.Sfu.Setup.Subscription.{add_consumer-Subscribed}
use namecon.Sfu.Memory.{Inv}
use namecon.Sfu.Types.{Consumer}
use mathlib.Core.List.{Memᴰ}
use Prim.Native.String.{String}

bound_ssrcs-alive :
    (cs : List ℕ) (h : ℕ → Option Consumer) (m : List (String × ℕ))
    → ((c : ℕ) → Memᴰ c cs → (k : Consumer) × (h c ≡ some k))
    → (m' : List (String × ℕ)) × (bound_ssrcs cs h m ≡ some m')
unfolding bound_ssrcs
bound_ssrcs-alive [] h m alive = (m, refl)
bound_ssrcs-alive (c ∷ cs) h m alive =
    let (k, e) = alive c (Memᴰ.head refl) in
    let (m', done) =
      bound_ssrcs-alive cs h (if str_eq k.recv_mid "" then m else put k.recv_mid k.rewritten_ssrc m)
        (λ d n. alive d (Memᴰ.tail n)) in
    (m', rw e done)

module _ {L S : Type 0} ⦃lib : Lib S⦄ where
  bind_mids-Inv :
      (sub : ℕ) (rms : List RecvMid) (m : List (String × ℕ)) (r : Router S (DtlsContext L))
      → Inv r
      → (out : List (String × ℕ) × Router S (DtlsContext L)) × (bind_mids sub rms m r ≡ some out)
        × Inv out.1
  unfolding bind_mids
  bind_mids-Inv sub [] m r v = ((m, r), refl, v)
  bind_mids-Inv sub (rm ∷ rms) m r v =
      let (ssrc, r', e, v') =
        bind_consumer_by_mid-Inv sub rm.publisher_peer_id rm.is_video rm.mid r v in
      let (out, done, v'') = bind_mids-Inv sub rms (note_mid rm.mid ssrc m) r' v' in
      (out, rw e done, v'')

  abbrev Kept : MediaService L S → Type 0
  Kept s = Inv s.packet_router.router

  -- An RPC that returns, with the invariant kept.
  abbrev pub Safe : {A : Type 0} → Option (A × MediaService L S) → Type 0
  Safe {A = A} o = (out : A × MediaService L S) × (o ≡ some out) × Inv out.1.packet_router.router

  mids_of-Safe :
      (rms : List RecvMid) (s : MediaService L S) (o : Option ℕ) → Kept s → Safe (mids_of rms s o)
  unfolding get_all_bound_ssrcs
  mids_of-Safe rms s none v = (([], s), refl, v)
  mids_of-Safe rms s (some sub) v =
      let (out, bound, v') = bind_mids-Inv sub rms [] s.packet_router.router v in
      let (m, done) =
        bound_ssrcs-alive (out.1.peers sub).consumers out.1.consumers []
          (λ c n. let (k, e, _) = v'.owned sub c n in (k, e)) in
      if_elim Safe s.has_router _ _
        ((put_all m out.0, with_router out.1 s), rw bound (rw done refl), v') (([], s), refl, v)

  add_found-Safe :
      (dis : ℕ → ℕ) (is_video : Bool) (s : MediaService L S) (a b : Option ℕ)
      → ((n : ℕ) → (0x40000000 ≤ dis n) × (dis n ≤ 0x7FFFFFFF))
      → Kept s
      → Safe (add_found dis is_video s a b)
  add_found-Safe dis is_video s none b range v = (_, refl, v)
  add_found-Safe dis is_video s (some sub) none range v = (_, refl, v)
  add_found-Safe dis is_video s (some sub) (some pub_) range v =
      let (ssrc, r', done, _, _, _, v') =
        add_consumer-Subscribed dis sub pub_ is_video s.packet_router.router range v in
      if_elim Safe s.has_router _ _ ((Reply.ok ssrc, with_router r' s), rw done refl, v')
        (_, refl, v)

  remove_found-Kept :
      (name : String) (s : MediaService L S) (o : Option ℕ)
      → Kept s
      → (s' : MediaService L S) × (remove_found name s o ≡ some s') × Kept s'
  remove_found-Kept name s none v = (s, refl, v)
  remove_found-Kept name s (some p) v =
      let (r', done, v', _, _, _) = remove_peer-Inv p s.packet_router.router v in
      if_elim (λ o. (s' : MediaService L S) × (o ≡ some s') × Kept s') s.has_router _ _
        (with_router r' (record s { peers = drop_name name s.peers }), rw done refl, v')
        (record s { peers = drop_name name s.peers }, refl, v)

  -- AddPeer keeps the invariant, or destroys the peer that had the name before.
  abbrev pub Adds : MediaService L S → MediaService L S → Type 0
  Adds s s' = Inv s'.packet_router.router ⊎ Destroys s.packet_router s'.packet_router

  add_peer-Adds : (name : String) (s : MediaService L S) → Kept s → Adds s (add_peer name s)
  unfolding add_peer register_pending
  add_peer-Adds name s v =
      let peers = put name s.packet_router.next_peer s.peers in
      let d = named_peer name s.packet_router in
      let v' : Inv d.router =
        changed-Inv s.packet_router.router s.packet_router.next_peer
          (record (s.packet_router.router.peers s.packet_router.next_peer) { peer_id = name }) refl
          refl v in
      let held = holds_name peers in
      let o = find_name name s.peers in
      let p = s.packet_router.next_peer in
      let registered : (x : PacketRouter L S) → PacketRouter L S =
        λ x. record x { pending_peers = put (x.router.peers p).peer_id p x.pending_peers } in
      let old : (x : PacketRouter L S) → Option ℕ =
        λ x. find_name (x.router.peers p).peer_id x.pending_peers in
      elim (Bool-cases s.has_packet_router) [
        | inr bare ↦ rw bare (elim (drop_pointer-cases held o d) [
          | inl same ↦ inl (rw same v')
          | inr dead ↦ inr dead
        ])
        | inl full ↦ rw full (elim (drop_pointer-cases held o d) [
          | inr dead ↦ inr (
              omega (
                arith,
                dead,
                drop_pointer-le held (old (drop_pointer held o d))
                    (registered (drop_pointer held o d)),
              ))
          | inl same ↦ rw same (elim (drop_pointer-cases held (old d) (registered d)) [
            | inl same' ↦ inl (rw same' v')
            | inr dead ↦ inr dead
          ])
        ])
      ]

  -- On a router whose invariant holds, and with SSRCs drawn from their range, RemovePeer, AddConsumer
  -- and the subscriptions of SendOffer all return, whatever names they are given, and the invariant
  -- holds after each; so it does after AddPeer, if that destroys no peer.
  pub rpc-Inv :
      (s : MediaService L S) (dis : ℕ → ℕ)
      → ((n : ℕ) → (0x40000000 ≤ dis n) × (dis n ≤ 0x7FFFFFFF))
      → Inv s.packet_router.router
      → ((name : String) → Adds s (add_peer name s))
        × ((name : String)
            → (s' : MediaService L S) × (remove_named name s ≡ some s')
              × Inv s'.packet_router.router)
        × ((subscriber publisher : String) (is_video : Bool)
            → Safe (add_named dis subscriber publisher is_video s))
        × ((name : String) (rms : List RecvMid) → Safe (offer_mids name rms s))
  unfolding remove_named add_named offer_mids
  rpc-Inv s dis range v = (
    (λ name. add_peer-Adds name s v),
    (λ name. remove_found-Kept name s (find_name name s.peers) v),
    (λ subscriber publisher is_video.
        add_found-Safe dis is_video s (find_name subscriber s.peers) (find_name publisher s.peers)
          range v),
    (λ name rms. mids_of-Safe rms s (find_name name s.peers) v),
  )
