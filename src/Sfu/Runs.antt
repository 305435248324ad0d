-- ===== src/Sfu/Runs.antt =====
-- A router with two peers: peer 1 subscribes to the video of peer 2.
mod Safety
mod Media
mod Delivered
mod Reports
use namecon.Common.{
  ◌∙◌, ◌==◌, ◌%◌, ◌+◌, ℕ, ◌≡◌, ◌≢◌, refl, some, none, true, false, [], ◌∷◌, ◌++◌, arith, Option,
  Bool, List, ◌≤◌,
}
use mathlib.Core.Path.{sym, subst}
use namecon.Sfu.Memory.Steps.{start, Reach-Inv, HasSsrc, IsInitial}
use mathlib.Core.Option.{some-injective}
use namecon.Sfu.Memory.Packets.{on_rtp_packet-Inv}
use namecon.Sfu.Memory.Reports.{on_rtcp_packet-Inv}
use namecon.Sfu.Setup.Subscription.{add_consumer-Subscribed, Subscribed}
use namecon.Rtcp.{pli_bytes}
use namecon.Sfu.Setup.{find_or_create_producer, allocate_ssrc, remove_peer, subscribe, add_consumer}
use namecon.Sfu.Types.{Producer, Peer}
use namecon.Sfu.Memory.Subscribe.{subscribe-Inv}
use namecon.Sfu.Feedback.{on_rtcp_packet}
use namecon.Sfu.Forward.{on_rtp_packet}
use namecon.Rtp.{RtpHeader, parse}
use namecon.Sfu.State.{Router}
use namecon.Sfu.Memory.{Inv}
use namecon.Common.Bytes.{Bytes}
use namecon.Transport.Srtp.{Lib, SrtpContext}

-- Sessions are packet counters; a protected packet has one byte more.
instance abbrev pub counting : Lib ℕ
counting = record {
  create = λ policy key. some 0;
  srtp_protect = λ n buf. (n + 1, some (buf ++ (n ∷ [])));
  srtp_protect_rtcp = λ n buf. (n + 1, some (buf ++ (n ∷ [])));
  srtp_unprotect = λ n buf. (n + 1, some buf);
  srtp_unprotect_rtcp = λ n buf. (n + 1, some buf);
}

abbrev pub ready : Peer ℕ ℕ
ready = record {
  peer_id = "p";
  remote_ep = record { address = 7; port = 9 };
  dtls = none;
  srtp = some (record { srtp_in = some 0; srtp_out = some 0; inited = true });
  producers = [];
  consumers = [];
}

abbrev pub empty : Router ℕ ℕ
empty = record {
  peers = λ q. ready;
  consumers = λ c. none;
  next = 0;
  all_peers = [];
  out_ssrcs = [];
  table = [];
  draws = 0;
  sent = [];
  overruns = 0;
}

pub empty-IsInitial : IsInitial empty
empty-IsInitial = record {
  no_streams = λ q. refl;
  no_subscriptions = λ q. refl;
  no_objects = λ c. refl;
  no_entries = refl;
}

pub empty-Inv : Inv empty
empty-Inv = Reach-Inv empty-IsInitial start

abbrev pub dis : ℕ → ℕ
dis n = 0x40000000 + n % 1000

pub dis_in_range : (n : ℕ) → (0x40000000 ≤ dis n) × (dis n ≤ 0x7FFFFFFF)
dis_in_range n = omega arith

-- After the subscription.
abbrev pub waits : Router ℕ ℕ
waits = subscribe 1 2 true 0x40000000 1 empty

pub waits-Inv : Inv waits
waits-Inv = subscribe-Inv 1 2 true 0x40000000 1 empty empty-Inv

pub added_waits : add_consumer dis 1 2 true empty ≡ some (0x40000000, waits)
unfolding add_consumer allocate_ssrc
added_waits = refl

-- A video packet of peer 2.
abbrev pub packet : Bytes
packet = 0x80 ∷ 0x60 ∷ 0x12 ∷ 0x34 ∷ 0 ∷ 0 ∷ 0 ∷ 1 ∷ 0 ∷ 0 ∷ 0 ∷ 5 ∷ 7 ∷ 8 ∷ []

abbrev pub packet_header : RtpHeader
packet_header = record {
  version = 2;
  padding = false;
  extension = false;
  csrc_count = 0;
  marker = false;
  payload_type = 96;
  sequence_number = 0x1234;
  timestamp = 1;
  ssrc = 5;
}

pub packet_parsed : parse packet ≡ some packet_header
unfolding parse
packet_parsed = refl

pub packet-HasSsrc : HasSsrc packet
packet-HasSsrc h e =
    let same : packet_header ≡ h = some-injective packet_header h (sym packet_parsed ∙ e) in
    subst (λ x. x.ssrc ≢ 0) same (omega arith)
