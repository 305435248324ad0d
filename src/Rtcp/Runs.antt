-- ===== src/Rtcp/Runs.antt =====
-- RtcpHandler on single packets.
use namecon.Rtcp.{
  sdes, ok, sdes_items, nack_packet, nack, pli, sdes_packet, pli_packet, stuck, nack_bytes, packets,
  fault, pli_bytes, Callbacks, send_nack, sub_packet, on_rtcp_packet,
}
use namecon.Common.{◌≡◌, ◌≢◌, refl, true, [], ◌∷◌, ◌++◌, arith, ◌⊎◌, ◌↔◌, ◌<◌}
use namecon.Common.Bytes.{byte, Bytes}
use namecon.Rtcp.Termination.{on_rtcp_packet-ne-stuck}
use namecon.Rtcp.RoundTrip.{nack_sent, then_rest}
use namecon.Rtcp.Faults.{sub_packet-fault}

abbrev hooks : Callbacks
hooks = record { send_cb = true; pli_cb = true; nack_cb = true; sdes_cb = true; sr_cb = true }

-- A CNAME "ab" for SSRC 5.
abbrev cname : Bytes
cname = 0x81 ∷ 202 ∷ 0 ∷ 2 ∷ 0 ∷ 0 ∷ 0 ∷ 5 ∷ 1 ∷ 2 ∷ 97 ∷ 98 ∷ []

cname_read : on_rtcp_packet hooks cname ≡ ok (sdes 5 (97 ∷ 98 ∷ []) ∷ [])
unfolding on_rtcp_packet packets sub_packet sdes_packet sdes_items
cname_read = refl

two_read :
    on_rtcp_packet hooks (pli_bytes 1 9 ++ nack_bytes 1 9 700 3) ≡ ok (pli 9 ∷ nack 9 700 3 ∷ [])
unfolding on_rtcp_packet packets sub_packet pli_packet nack_packet
two_read = refl

on_rtcp_packet-ne-stuck_example : on_rtcp_packet hooks cname ≢ stuck
on_rtcp_packet-ne-stuck_example = on_rtcp_packet-ne-stuck hooks cname

nack_sent_example :
    (send_nack hooks 1 9 700 3 ≡ nack_bytes 1 9 700 3 ∷ [])
    × (on_rtcp_packet hooks (nack_bytes 1 9 700 3 ++ cname)
        ≡ then_rest hooks cname (nack 9 700 3 ∷ []))
nack_sent_example =
    nack_sent hooks cname 1 9 700 3 (omega arith) (omega arith) (omega arith) refl refl

sub_packet-fault_example : (sub_packet hooks (0x80 ∷ 200 ∷ 0 ∷ 0 ∷ []) 4 ≡ fault) ↔ (
    ((byte (0x80 ∷ 200 ∷ 0 ∷ 0 ∷ []) 1 ≡ 200) × (4 < 28))
    ⊎ ((byte (0x80 ∷ 200 ∷ 0 ∷ 0 ∷ []) 1 ≡ 202) × (4 < 8)))
sub_packet-fault_example = sub_packet-fault hooks (0x80 ∷ 200 ∷ 0 ∷ 0 ∷ []) 4
