-- ===== src/Sfu/Runs/Media.antt =====
-- Packets and reports through the two peers' router.
use namecon.Sfu.RouteTable.{find_peer, bind}
use namecon.Sfu.RouteTable.Refinement.{
  Call, bind_call, unbind_call, run_table, run_routes, run_table-run_routes,
}
use namecon.Common.{
  List, [], ◌∷◌, none, ◌^◌, ◌<◌, drop, length, All, ℕ, ◌≡◌, refl, some, true, false, ◌++◌, arith,
  ◌≤◌,
}
use namecon.Transport.Srtp.{protect_rtcp}
use namecon.Sfu.State.{send_rtcp, listed, register_peer, Router}
use namecon.Sfu.Setup.{
  attached_ssrc, subscribe, find_or_create_producer, add_consumer, subscriptions, join,
  create_producer, with_producers, new_consumer, new_producer, find_producer, ask_key_frame,
  waiting, attach, link,
}
use namecon.Sfu.Types.{Producer, Consumer}
use namecon.Rtp.{parse}
use namecon.Common.Bytes.{Bytes, be32, IsByte, be16}
use namecon.Sfu.Setup.Subscription.{add_consumer-Subscribed, Subscribed}
use namecon.Sfu.Memory.{Inv}
use namecon.Sfu.Runs.{
  packet_parsed, packet_header, counting, empty, waits, packet, dis, dis_in_range, empty-Inv,
}
use namecon.Sfu.Forward.Rewrite.{rewrite_rtp_header_lem, mapped, InRange}
use namecon.Sfu.Feedback.Translate.{rr_by_sender}
use namecon.Sfu.Feedback.{orig_pid, on_rtcp_packet}
use namecon.Common.Store.{insert, update, lookup}
use namecon.Sfu.Forward.{rewrite_rtp_header}
use namecon.Sfu.Setup.Waiting.{none-waiting}
use mathlib.Core.List.{Memᴰ}

add_consumer-Subscribed_example :
    (ssrc : ℕ) × (r' : Router ℕ ℕ) × (add_consumer dis 1 2 true empty ≡ some (ssrc, r'))
    × (0x40000000 ≤ ssrc)
    × (ssrc ≤ 0x7FFFFFFF)
    × Subscribed 1 2 true 0 ssrc r'
    × Inv r'
add_consumer-Subscribed_example = add_consumer-Subscribed dis 1 2 true empty dis_in_range empty-Inv

-- The subscription of peer 1, not yet linked.
abbrev subscription : Consumer
subscription = new_consumer 1 2 true 0x40000000

pub packet-IsByte : All IsByte packet
packet-IsByte = omega arith

subscription-InRange : InRange subscription
subscription-InRange = record {
  rewritten_ssrc-lt = omega arith;
  last_sent_seq-lt = omega arith;
  last_sent_timestamp-lt = omega arith;
}

rewrite_rtp_header_lem_example :
    (parse (rewrite_rtp_header packet subscription).0
      ≡ some (record packet_header { ssrc = 0x40000000 }))
    × (length (rewrite_rtp_header packet subscription).0 ≡ 14)
    × (drop 12 (rewrite_rtp_header packet subscription).0 ≡ 7 ∷ 8 ∷ [])
    × ((rewrite_rtp_header packet subscription).1 ≡ mapped packet_header subscription)
    × InRange (rewrite_rtp_header packet subscription).1
    × ((pid : ℕ) → pid < 2 ^ 16 → orig_pid pid (rewrite_rtp_header packet subscription).1 ≡ pid)
rewrite_rtp_header_lem_example =
    rewrite_rtp_header_lem packet packet_header subscription packet-IsByte subscription-InRange
      packet_parsed

-- The rest of a report block.
abbrev block : Bytes
block = 0 ∷ 0 ∷ 0 ∷ 0 ∷ 0 ∷ 0 ∷ 0 ∷ 9 ∷ 0 ∷ 0 ∷ 0 ∷ 0 ∷ 0 ∷ 0 ∷ 0 ∷ 0 ∷ 0 ∷ 0 ∷ 0 ∷ 0 ∷ []

no_sender : lookup 1 waits.out_ssrcs ≡ none
unfolding lookup subscribe join insert attach attached_ssrc register_peer listed
no_sender = refl

rr_by_sender_example :
    on_rtcp_packet ((0x81 ∷ 201 ∷ be16 7) ++ (be32 1 ++ (be32 0x40000000 ++ block))) waits
    ≡ some waits
rr_by_sender_example = rr_by_sender 1 0x40000000 block waits (omega arith) refl no_sender

-- The subscription after the stream's first packet.
abbrev pub linked_subscription : Consumer
linked_subscription = record subscription { publisher_ssrc = 5 }

abbrev pub stream : Producer
stream = new_producer 2 5 true (0 ∷ [])

abbrev pub streams : Router ℕ ℕ
streams =
    let r = ask_key_frame 2 5 true (record waits { table = (5, 2) ∷ [] }) in
    record (with_producers 2 (stream ∷ []) r) {
      consumers = update r.consumers 0 (some linked_subscription);
    }

pub created : find_or_create_producer 2 5 true waits ≡ some (streams, stream)
unfolding find_or_create_producer find_producer create_producer link subscriptions subscribe join
    attach attached_ssrc register_peer listed send_rtcp protect_rtcp insert bind
created = refl

none-waiting_example : waiting linked_subscription 2 true ≡ false
unfolding find_producer subscribe join attach register_peer listed
none-waiting_example =
    none-waiting 2 5 true waits streams stream 1 0 linked_subscription (omega arith) refl created
      (Memᴰ.head refl) (Memᴰ.head refl) refl

abbrev calls : List Call
calls = bind_call 5 2 ∷ bind_call 6 1 ∷ bind_call 5 1 ∷ unbind_call 2 ∷ []

run_table-run_routes_example : find_peer 5 (run_table calls []) ≡ run_routes calls (λ t. none) 5
run_table-run_routes_example = run_table-run_routes calls 5
