-- ===== src/Sfu/Runs/Reports.antt =====
-- Feedback of peer 1 through the two peers' router, whose peers have keys.
use namecon.Common.{true, ℕ, ◌+◌, ◌≡◌, refl, some, [], ◌∷◌, ◌++◌, arith}
use namecon.Common.Bytes.{Bytes}
use namecon.Common.Store.{lookup, insert}
use namecon.Sfu.Types.{Consumer}
use namecon.Sfu.State.{Router, register_peer, listed}
use namecon.Sfu.Setup.{subscribe, join, attach, attached_ssrc, new_consumer}
use namecon.Sfu.Feedback.{on_rtcp_packet}
use namecon.Sfu.Feedback.Delivered.{Leads, rr_bytes, rr_overruns}
use namecon.Sfu.Runs.{counting, waits}

abbrev subscription : Consumer
subscription = new_consumer 1 2 true 0x40000000

subscription-Leads : Leads 0x40000000 2 0 subscription waits
unfolding lookup subscribe join insert attach attached_ssrc register_peer listed
subscription-Leads = record {
  address = 0;
  entered = refl;
  stored = refl;
  published = refl;
  keyed = (_, refl, refl, refl);
}

-- The rest of a report block.
abbrev block : Bytes
block = 0 ∷ 0 ∷ 0 ∷ 0 ∷ 0 ∷ 0 ∷ 0 ∷ 9 ∷ 0 ∷ 0 ∷ 0 ∷ 0 ∷ 0 ∷ 0 ∷ 0 ∷ 0 ∷ 0 ∷ 0 ∷ 0 ∷ 0 ∷ []

rr_overruns_example :
    (r' : Router ℕ ℕ) × (on_rtcp_packet (rr_bytes 0x40000000 7 block) waits ≡ some r')
    × (r'.sent
        ≡ waits.sent
          ++ record {
            target = (waits.peers 2).remote_ep;
            payload = rr_bytes 0x40000000 0 block ++ 0 ∷ [];
          }
            ∷ [])
    × (r'.overruns ≡ waits.overruns + 1)
rr_overruns_example =
    rr_overruns 0x40000000 7 2 block 0 (rr_bytes 0x40000000 0 block ++ 0 ∷ []) subscription waits
      (omega arith) refl subscription-Leads refl (omega arith)
