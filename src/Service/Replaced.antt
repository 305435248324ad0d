-- ===== src/Service/Replaced.antt =====
-- MediaServiceImpl::AddPeer with a name that a peer has who did not connect yet.
use mathlib.Core.List.{Memᴰ}
use mathlib.Core.Option.{some-injective}
use Prim.Native.String.{String}
use text.Mathlib.Text.{◌==◌ as str_eq}
use namecon.Common.{
  ℕ, ◌^◌, ◌<◌, ◌≡◌, ◌≢◌, refl, ap, ◌∙◌, true, false, List, [], ◌∷◌, some, none, inl, inr, Bool,
  Bool-cases, arith,
}
use namecon.Common.Bytes.{be32-back}
use namecon.Common.Store.{update_self, update-ne, lookup}
use namecon.Transport.Srtp.{Lib}
use namecon.Rtcp.{pli_bytes}
use namecon.Sfu.Types.{Peer}
use namecon.Sfu.Mids.{put, find_consumer_by_out_ssrc}
use namecon.Sfu.Memory.Remove.{free-mem}
use namecon.Sfu.Feedback.{on_rtcp_packet, handle_sub, handle_pli}
use namecon.Sfu.Feedback.Translate.{on_rtcp_packet_last}
use namecon.Dispatch.{
  PacketRouter, DtlsContext, find_name, holds_name, holds_endpoint, drop_pointer, destroy,
  register_pending,
}
use namecon.Service.{MediaService, add_peer, named_peer}

find_name-holds_name :
    (name : String) (m : List (String × ℕ)) (q : ℕ)
    → find_name name m ≡ some q
    → holds_name m q ≡ true
unfolding find_name holds_name
find_name-holds_name name [] q e = cc
find_name-holds_name name ((n, p) ∷ m) q e = elim (Bool-cases (str_eq n name)) [
  | inl hit ↦ let same : p ≡ q = some-injective p q (rw hit at e) in ground arith
  | inr miss ↦ let later = find_name-holds_name name m q (rw miss at e) in ground arith
]

module _ {L S : Type 0} where
  -- The last pointer to a peer.
  drop_last :
      (held : ℕ → Bool) (q : ℕ) (d : PacketRouter L S)
      → held q ≡ false
      → holds_name d.pending_peers q ≡ false
      → holds_endpoint d.peer_map q ≡ false
      → drop_pointer held (some q) d ≡ destroy q d
  unfolding drop_pointer
  drop_last held q d a b c = rw (a, b, c) refl

  drop_other :
      (held : ℕ → Bool) (q : ℕ) (d : PacketRouter L S)
      → held q ≡ false
      → holds_name d.pending_peers q ≡ true
      → drop_pointer held (some q) d ≡ d
  unfolding drop_pointer
  drop_other held q d a b = rw (a, b) refl

  -- The new peer, pending under its name.
  abbrev pub pending_new : String → MediaService L S → PacketRouter L S
  pending_new name s = record (named_peer name s.packet_router) {
    pending_peers = put name s.packet_router.next_peer s.packet_router.pending_peers;
  }

  replaced :
      (name : String) (q : ℕ) (s : MediaService L S)
      → s.has_packet_router ≡ true
      → find_name name s.peers ≡ some q
      → find_name name s.packet_router.pending_peers ≡ some q
      → holds_name (put name s.packet_router.next_peer s.peers) q ≡ false
      → holds_name (put name s.packet_router.next_peer s.packet_router.pending_peers) q ≡ false
      → holds_endpoint s.packet_router.peer_map q ≡ false
      → (add_peer name s).packet_router ≡ destroy q (pending_new name s)
  unfolding add_peer register_pending
  replaced name q s set known pending a b c =
      let p = s.packet_router.next_peer in
      let d = named_peer name s.packet_router in
      let named : (d.router.peers p).peer_id ≡ name =
        ap (λ (x : Peer S (DtlsContext L)). x.peer_id)
          (update_self s.packet_router.router.peers p
            (record (s.packet_router.router.peers p) { peer_id = name })) in
      rw
        (
          set,
          known,
          drop_other (holds_name (put name p s.peers)) q d a
              (find_name-holds_name name s.packet_router.pending_peers q pending),
          named,
          pending,
        )
        (drop_last (holds_name (put name p s.peers)) q (pending_new name s) a b c)

  -- AddPeer with the name of a peer who did not connect yet, where the service and PacketRouter have
  -- that peer under this name only, destroys that peer and frees the Consumers that it owns. The
  -- router still has them: a PLI for the SSRC of one of them then reads freed memory.
  pub replaced_dangles :
      ⦃lib : Lib S⦄ (name : String) (q c ssrc sender : ℕ) (s : MediaService L S)
      → s.has_packet_router ≡ true
      → find_name name s.peers ≡ some q
      → find_name name s.packet_router.pending_peers ≡ some q
      → holds_name (put name s.packet_router.next_peer s.peers) q ≡ false
      → holds_name (put name s.packet_router.next_peer s.packet_router.pending_peers) q ≡ false
      → holds_endpoint s.packet_router.peer_map q ≡ false
      → s.packet_router.next_peer ≢ q
      → Memᴰ c (s.packet_router.router.peers q).consumers
      → ssrc < 2 ^ 32
      → lookup ssrc s.packet_router.router.out_ssrcs ≡ some c
      → ((add_peer name s).packet_router.freed_peers ≡ q ∷ s.packet_router.freed_peers)
        × ((add_peer name s).packet_router.router.consumers c ≡ none)
        × (on_rtcp_packet (pli_bytes sender ssrc) (add_peer name s).packet_router.router ≡ none)
  unfolding destroy handle_sub handle_pli find_consumer_by_out_ssrc
  replaced_dangles name q c ssrc sender s set known pending a b e ne m fits found =
      let d = pending_new name s in
      let same = replaced name q s set known pending a b e in
      let owns : (d.router.peers q).consumers ≡ (s.packet_router.router.peers q).consumers =
        ap (λ (x : Peer S (DtlsContext L)). x.consumers)
          (update-ne s.packet_router.router.peers s.packet_router.next_peer _ q ne) in
      let gone : (destroy q d).router.consumers c ≡ none =
        free-mem (d.router.peers q).consumers d.router.consumers c (rw owns m) in
      rw same (
        refl,
        gone,
        on_rtcp_packet_last (pli_bytes sender ssrc) (destroy q d).router (omega arith) refl
            ∙ rw (be32-back ssrc fits, found, gone) refl,
      )
