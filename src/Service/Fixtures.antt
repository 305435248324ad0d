-- ===== src/Service/Fixtures.antt =====
-- A service without peers, over a stand-in for libsrtp.
use namecon.Service.Negotiation.{made_host}
use namecon.Common.{ℕ, ◌%◌, ◌<◌, arith, none, [], ◌∷◌, false, ◌+◌, ◌≤◌, refl, some, true, ◌++◌}
use namecon.Service.Rpcs.{Host}
use namecon.Sdp.Types.{Payloads}
use namecon.Dispatch.{DtlsContext}
use namecon.Sfu.State.{Router}
use namecon.Service.{MediaService}
use namecon.Sfu.Memory.Steps.{IsInitial}
use namecon.Transport.Srtp.{Lib}

-- Sessions are packet counters; a protected packet has one byte more.
instance abbrev pub counting : Lib ℕ
counting = record {
  create = λ policy key. some 0;
  srtp_protect = λ n buf. (n + 1, some (buf ++ (n ∷ [])));
  srtp_protect_rtcp = λ n buf. (n + 1, some (buf ++ (n ∷ [])));
  srtp_unprotect = λ n buf. (n + 1, some buf);
  srtp_unprotect_rtcp = λ n buf. (n + 1, some buf);
}

abbrev pub at_start : Router ℕ (DtlsContext ℕ)
at_start = record {
  peers = λ q. record {
    peer_id = "";
    remote_ep = record { address = 0; port = 0 };
    dtls = none;
    srtp = none;
    producers = [];
    consumers = [];
  };
  consumers = λ c. none;
  next = 0;
  all_peers = [];
  out_ssrcs = [];
  table = [];
  draws = 0;
  sent = [];
  overruns = 0;
}

abbrev pub idle : MediaService ℕ ℕ
idle = record {
  packet_router = record {
    router = at_start;
    has_router = true;
    ice = none;
    peer_map = [];
    pending_peers = [];
    next_peer = 1;
    freed_peers = [];
  };
  has_packet_router = true;
  has_router = true;
  peers = [];
}

pub at_start-IsInitial : IsInitial at_start
at_start-IsInitial = record {
  no_streams = λ q. refl;
  no_subscriptions = λ q. refl;
  no_objects = λ c. refl;
  no_entries = refl;
}

abbrev pub dis : ℕ → ℕ
dis n = 0x40000000 + n % 1000

pub dis_in_range : (n : ℕ) → (0x40000000 ≤ dis n) × (dis n ≤ 0x7FFFFFFF)
dis_in_range n = omega arith

-- Draws of characters, and a service on a machine without a configuration.
abbrev pub letters : ℕ → ℕ
letters n = n % 36

pub letters-lt : (n : ℕ) → letters n < 36
letters-lt n = omega arith

abbrev pub host : Host
host = made_host letters (170 ∷ []) none []

abbrev pub no_payloads : Payloads
no_payloads = record {
  video_pts = λ pt. false;
  audio_pts = λ pt. false;
  video_pt = 96;
  audio_pt = 111;
}
