-- ===== src/Sfu/Runs/Delivered.antt =====
-- The packet of peer 2 and the subscription of peer 1, which has a mid and keys.
use namecon.Common.{◌≢◌, true, ℕ, ◌≡◌, refl, sym, ◌∙◌, some, [], ◌∷◌, ◌++◌, arith, drop}
use mathlib.Core.Path.{subst}
use mathlib.Core.Option.{some-injective}
use mathlib.Core.List.{Memᴰ}
use namecon.Common.Bytes.{Bytes}
use namecon.Rtp.{parse}
use namecon.Sfu.Types.{Producer, Consumer}
use namecon.Sfu.State.{register_peer, listed, send_rtcp, Router, set_consumer}
use namecon.Sfu.Setup.{subscribe, join, attach, attached_ssrc, find_producer}
use namecon.Sfu.Memory.{Inv}
use namecon.Sfu.Memory.Keeps.{Keeps-set_consumer, Keeps-Inv}
use namecon.Sfu.Memory.Produce.{find_or_create_producer-Inv}
use namecon.Transport.Srtp.{protect_rtcp}
use namecon.Sfu.Forward.{on_rtp_packet, rewrite_rtp_header}
use namecon.Sfu.Forward.Rewrite.{InRange}
use namecon.Sfu.Forward.Delivery.{rtp_delivered, Receives, Got}
use namecon.Sfu.Runs.{counting, waits, waits-Inv, packet, packet_parsed, packet_header}
use namecon.Sfu.Runs.Media.{streams, stream, created, linked_subscription, packet-IsByte}

streams-Inv : Inv streams
streams-Inv =
    let (r, p, e, v, _, _) = find_or_create_producer-Inv 2 5 true waits (omega arith) waits-Inv in
    subst (λ (x : Router ℕ ℕ × Producer). Inv x.0)
      (some-injective (r, p) (streams, stream) (sym e ∙ created)) v

abbrev negotiated : Consumer
negotiated = record linked_subscription { recv_mid = "v0" }

abbrev told : Router ℕ ℕ
told = set_consumer 0 negotiated streams

told-Inv : Inv told
told-Inv =
    Keeps-Inv streams told
      (Keeps-set_consumer 0 linked_subscription negotiated streams refl (ground arith)) streams-Inv

negotiated-InRange : InRange negotiated
negotiated-InRange = record {
  rewritten_ssrc-lt = omega arith;
  last_sent_seq-lt = omega arith;
  last_sent_timestamp-lt = omega arith;
}

negotiated-Receives : Receives 0 1 0 negotiated told
unfolding subscribe join attach attached_ssrc register_peer listed send_rtcp protect_rtcp
negotiated-Receives = record {
  stored = refl;
  is_active = refl;
  subscribed = refl;
  negotiated = refl;
  keyed = (_, refl, refl, refl);
}

stream_found : find_producer 5 (told.peers 2).producers ≡ some stream
unfolding find_producer subscribe join attach attached_ssrc register_peer listed send_rtcp
    protect_rtcp
stream_found = refl

only_one :
    (d : ℕ) (x : Consumer)
    → Memᴰ d stream.consumers
    → d ≢ 0
    → told.consumers d ≡ some x
    → x.subscriber ≢ some 1
only_one d x (Memᴰ.head e) n at_ = absurd (n e)
only_one d x (Memᴰ.tail m) n at_ = elim m [ ]

-- The packet under the SSRC of the subscription.
abbrev forwarded : Bytes
forwarded = (rewrite_rtp_header packet negotiated).0

rtp_delivered_example :
    (r' : Router ℕ ℕ) × (on_rtp_packet (λ n. true) packet 2 told ≡ some r')
    × Inv r'
    × Got
        (record { target = (told.peers 1).remote_ep; payload = forwarded ++ 0 ∷ [] })
        told.sent
        r'.sent
    × (parse forwarded ≡ some (record packet_header { ssrc = 0x40000000 }))
    × (drop 12 forwarded ≡ 7 ∷ 8 ∷ [])
rtp_delivered_example =
    rtp_delivered (λ n. true) packet packet_header 2 0 1 0 negotiated (forwarded ++ 0 ∷ []) stream
      told packet-IsByte packet_parsed told-Inv stream_found (Memᴰ.head refl) negotiated-InRange
      negotiated-Receives only_one refl
