-- ===== src/Dispatch/Runs.antt =====
-- One pending peer, and datagrams from an endpoint that is not known.
use namecon.Common.{
  Bool-cases, inr, inl, Option-cases, ℕ, ◌+◌, ◌≡◌, refl, some, none, true, false, [], ◌∷◌, ◌++◌,
  arith, ◌==◌,
}
use namecon.Dispatch.Safety.{Clean}
use namecon.Dispatch.Binding.{stranger_takes_pending, get_or_create_peer_again}
use namecon.Sfu.Memory.Steps.{start, Reach-Inv}
use namecon.Dispatch.{
  on_packet, DtlsContext, find_endpoint, Openssl, PacketRouter, take_pending, get_or_create_peer,
}
use namecon.Sfu.Types.{Endpoint, Peer}
use namecon.Sfu.State.{Router}
use namecon.Sfu.Memory.{Inv}
use namecon.Transport.Ice.{Crypto}
use namecon.Common.Bytes.{Bytes}
use namecon.Transport.Srtp.{Lib, SrtpContext, unprotect}

-- Sessions are packet counters; a protected packet has one byte more.
instance abbrev counting : Lib ℕ
counting = record {
  create = λ policy key. some 0;
  srtp_protect = λ n buf. (n + 1, some (buf ++ (n ∷ [])));
  srtp_protect_rtcp = λ n buf. (n + 1, some (buf ++ (n ∷ [])));
  srtp_unprotect = λ n buf. (n + 1, none);
  srtp_unprotect_rtcp = λ n buf. (n + 1, some buf);
}

-- A handshake that ends with its second datagram.
abbrev two_flights : Openssl ℕ
two_flights = record {
  ssl_new = 0;
  do_handshake = λ n data_. (n + 1, n == 1, (22 ∷ []) ∷ []);
  export_keying_material = λ n. none;
}

abbrev no_crypto : Crypto
no_crypto = record { hmac = λ key msg. []; crc32 = λ msg. 0 }

abbrev blank : Peer ℕ (DtlsContext ℕ)
blank = record {
  peer_id = "";
  remote_ep = record { address = 0; port = 0 };
  dtls = none;
  srtp = none;
  producers = [];
  consumers = [];
}

abbrev at_home : Router ℕ (DtlsContext ℕ)
at_home = record {
  peers = λ q. blank;
  consumers = λ c. none;
  next = 0;
  all_peers = [];
  out_ssrcs = [];
  table = [];
  draws = 0;
  sent = [];
  overruns = 0;
}

at_home-Inv : Inv at_home
at_home-Inv =
    Reach-Inv
      (record {
        no_streams = λ q. refl;
        no_subscriptions = λ q. refl;
        no_objects = λ c. refl;
        no_entries = refl;
      })
      start

abbrev one_pending : PacketRouter ℕ ℕ
one_pending = record {
  router = at_home;
  has_router = true;
  ice = none;
  peer_map = [];
  pending_peers = ("alice", 4) ∷ [];
  next_peer = 5;
  freed_peers = [];
}

abbrev stranger : Endpoint
stranger = record { address = 0x0A000001; port = 5000 }

abbrev junk : Bytes
junk = 128 ∷ []

junk-Clean : (ctx : SrtpContext ℕ) → Clean (unprotect ctx junk).1
unfolding unprotect
junk-Clean ctx = elim (Option-cases ctx.srtp_in) [
  | inl e ↦ rw e tt
  | inr (s, e) ↦ elim (Bool-cases ctx.inited) [ inl y ↦ rw (e, y) tt | inr n ↦ rw (e, n) tt ]
]

get_or_create_peer_again_example :
    (find_endpoint stranger (get_or_create_peer 0 stranger one_pending).1.peer_map ≡ some 4)
    × (get_or_create_peer 7 stranger (get_or_create_peer 0 stranger one_pending).1
        ≡ get_or_create_peer 0 stranger one_pending)
unfolding get_or_create_peer find_endpoint take_pending
get_or_create_peer_again_example = get_or_create_peer_again 0 7 stranger one_pending

taken : take_pending 0 one_pending.pending_peers ≡ some (4, [])
unfolding take_pending
taken = refl

unknown : find_endpoint stranger one_pending.peer_map ≡ none
unfolding find_endpoint
unknown = refl

stranger_takes_pending_example :
    (d' : PacketRouter ℕ ℕ) × (on_packet two_flights no_crypto
        (λ pt. false)
        0
        stranger
        junk
        one_pending
      ≡ some d')
    × (find_endpoint stranger d'.peer_map ≡ some 4)
    × (d'.pending_peers ≡ [])
    × ((d'.router.peers 4).remote_ep ≡ stranger)
stranger_takes_pending_example =
    stranger_takes_pending two_flights no_crypto (λ pt. false) 0 4 [] stranger junk one_pending
      unknown taken refl (omega arith) (omega arith)
