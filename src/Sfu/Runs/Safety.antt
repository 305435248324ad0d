-- ===== src/Sfu/Runs/Safety.antt =====
-- The memory of the two peers' router, step by step.
use namecon.Sfu.Memory.Races.{waiting_survives, zero_ssrc_dangles, snapshot_dangles}
use namecon.Sfu.Setup.{
  subscribe, free, unlink_from, attached_ssrc, attach, join, remove_peer, without, new_producer,
  unlink_at, unsubscribe, with_producers, silence_all, new_consumer, clear_consumers,
}
use namecon.Common.Store.{erase, insert}
use namecon.Sfu.State.{listed, register_peer, Router}
use namecon.Sfu.Runs.{counting, empty, waits, waits-Inv, packet, dis, empty-IsInitial, added_waits}
use namecon.Common.Bytes.{Bytes}
use namecon.Sfu.Forward.{on_rtp_packet, forward}
use namecon.Sfu.Types.{Consumer}
use namecon.Sfu.Memory.{Inv, here, Linked}
use namecon.Sfu.RouteTable.{unbind_peer}
use namecon.Sfu.Memory.Steps.{reachable_safe, HasSsrc, added, start, next, Reach}
use namecon.Sfu.Mids.{bind_consumer_by_mid}
use Prim.Native.String.{String}
use namecon.Sfu.Memory.Remove.{remove_peer-Inv}
use namecon.Common.{ℕ, ◌≡◌, ◌≢◌, refl, some, none, true, [], ◌∷◌, arith, Bool}
use mathlib.Core.List.{Memᴰ}
use namecon.Sfu.Feedback.{on_rtcp_packet}

remove_peer-Inv_example :
    (r' : Router ℕ ℕ) × (remove_peer 1 waits ≡ some r')
    × Inv r'
    × ((c : ℕ) → Memᴰ c (waits.peers 1).consumers → r'.consumers c ≡ none)
    × ((r'.peers 1).producers ≡ [])
    × ((r'.peers 1).consumers ≡ [])
remove_peer-Inv_example = remove_peer-Inv 1 waits waits-Inv

-- Peer 1's subscription, then a packet of peer 2 whose producer lists it.
walked : Reach empty waits
walked = next start (added dis 1 2 true 0x40000000 added_waits)

reachable_safe_example :
    Inv waits
    × ((p : ℕ) → remove_peer p waits ≢ none)
    × ((sub : ℕ) (name : String) (is_video : Bool) (mid : String)
        → bind_consumer_by_mid sub name is_video mid waits ≢ none)
    × ((video_pts : ℕ → Bool) (plain : Bytes) (q : ℕ)
        → HasSsrc plain
        → on_rtp_packet video_pts plain q waits ≢ none)
    × ((rtcp : Bytes) → on_rtcp_packet rtcp waits ≢ none)
reachable_safe_example = reachable_safe empty waits empty-IsInitial walked

-- The router without peer 2, and without peer 1.
abbrev gone_2 : Router ℕ ℕ
gone_2 = record (clear_consumers 2 (with_producers 2 [] waits)) { all_peers = 1 ∷ []; table = [] }

removed_2 : remove_peer 2 waits ≡ some gone_2
unfolding remove_peer silence_all unsubscribe without unbind_peer subscribe join attach
    attached_ssrc register_peer listed unlink_from insert erase free
removed_2 = refl

abbrev subscription : Consumer
subscription = new_consumer 1 2 true 0x40000000

abbrev gone_1 : Router ℕ ℕ → Router ℕ ℕ
gone_1 r =
    record (clear_consumers 1
      (record (unlink_at 0 subscription (some 2) (with_producers 1 [] r)) { out_ssrcs = [] })) {
        all_peers = 2 ∷ [];
        table = [];
      }

removed_1 : remove_peer 1 waits ≡ some (gone_1 waits)
unfolding remove_peer silence_all unsubscribe without unbind_peer subscribe join attach
    attached_ssrc register_peer listed unlink_from insert erase free
removed_1 = refl

snapshot_dangles_example : forward packet (0 ∷ []) (gone_1 waits) ≡ none
unfolding subscribe join attach attached_ssrc register_peer listed
snapshot_dangles_example =
    snapshot_dangles 1 0 packet (0 ∷ []) waits (gone_1 waits) (Memᴰ.head refl) (Memᴰ.head refl)
      removed_1

-- The state after a packet of peer 2 whose SSRC is 0.
abbrev zero : Router ℕ ℕ
zero = with_producers 2 (new_producer 2 0 true (0 ∷ []) ∷ []) waits

removed_zero : remove_peer 1 zero ≡ some (gone_1 zero)
unfolding remove_peer silence_all unsubscribe without unbind_peer subscribe join attach
    attached_ssrc register_peer listed unlink_from insert erase free
removed_zero = refl

zero_ssrc_dangles_example :
    Linked 0 0 ((gone_1 zero).peers 2).producers × ((gone_1 zero).consumers 0 ≡ none)
unfolding subscribe join attach attached_ssrc register_peer listed
zero_ssrc_dangles_example =
    zero_ssrc_dangles 1 2 0 zero (gone_1 zero) (omega arith) (Memᴰ.head refl)
      (here refl (Memᴰ.head refl)) removed_zero

waiting_survives_example : gone_2.consumers 0 ≡ some subscription
unfolding subscribe join attach attached_ssrc register_peer listed
waiting_survives_example =
    waiting_survives 2 0 subscription waits gone_2 refl (λ s l. elim l [ ]) (λ m. elim m [ ])
      removed_2
