-- ===== src/Server/Runs.antt =====
-- A server without peers.
use namecon.Service.Fixtures.{
  at_start, at_start-IsInitial, counting, idle, dis, dis_in_range, host, no_payloads,
}
use namecon.Server.{
  assemble, MediaServer, Outside, Event, received, add_peer_rpc, datagram, failed, run, taken,
  start_receive, routed,
}
use namecon.Server.Safety.{run-assemble-Ends, Ends}
use namecon.Sfu.Memory.Steps.{HasSsrc}
use namecon.Rtp.{parse, fields, RtpHeader}
use mathlib.Core.Path.{subst}
use mathlib.Core.Option.{some-injective}
use namecon.Transport.Srtp.{SrtpContext, unprotect}
use namecon.Dispatch.Safety.{Clean}
use namecon.Server.Start.{start-print_config, start-ne-none, start, server_text}
use namecon.Common.Int.{pos}
use namecon.Config.{load, cut_comment, trim_right, trim_left, trim}
use namecon.Config.RoundTrip.{IsKey, latest_in, IsText, print_config, latest, IsConfig, Entries}
use namecon.Common.Text.{read_int, bytes_eq, decimal_onto, ascii, decimal}
use namecon.Common.{
  Option-cases, Bool-cases, inl, inr, arith, ◌≢◌, ℕ, ◌≡◌, refl, true, false, List, [], ◌∷◌, map,
  some, none,
}
use namecon.Common.Store.{◌>>=◌}
use namecon.Common.Bytes.{Bytes}
use namecon.Sfu.Types.{Endpoint}
use namecon.Dispatch.{PacketRouter}
use namecon.Server.Receive.{all_received, deaf_after_error, dispatch_all, arrives, Arrival, rpcs}

abbrev server : MediaServer ℕ ℕ
server = record {
  udp = record { armed = true; on_receive = true };
  service = idle;
  shared = no_payloads;
  host = host;
}

abbrev outside : Outside ℕ
outside = record {
  openssl = record {
    ssl_new = 0;
    do_handshake = λ n data_. (n, false, (22 ∷ []) ∷ []);
    export_keying_material = λ n. none;
  };
  crypto = record { hmac = λ key msg. []; crc32 = λ msg. 0 };
  dis = dis;
}

abbrev somewhere : Endpoint
somewhere = record { address = 0x0A000001; port = 5000 }

abbrev packet : Bytes
packet = 0x80 ∷ 0x60 ∷ 0x12 ∷ 0x34 ∷ 0 ∷ 0 ∷ 0 ∷ 1 ∷ 0 ∷ 0 ∷ 0 ∷ 5 ∷ 7 ∷ 8 ∷ []

packet-HasSsrc : HasSsrc packet
unfolding parse
packet-HasSsrc h e =
    subst (λ (x : RtpHeader). x.ssrc ≢ 0) (some-injective (fields packet) h e) (omega arith)

-- "alice" is added, and an RTP packet arrives from her endpoint before its keys do; then a receive
-- fails.
abbrev events : List Event
events = add_peer_rpc "alice" ∷ received 0 (datagram somewhere packet) ∷ received 0 failed ∷ []

packet-Clean : (ctx : SrtpContext ℕ) → Clean (unprotect ctx packet).1
unfolding unprotect
packet-Clean ctx = elim (Option-cases ctx.srtp_in) [
  | inl e ↦ rw e tt
  | inr (s, e) ↦ elim (Bool-cases ctx.inited) [
    | inl y ↦ rw (e, y) packet-HasSsrc
    | inr n ↦ rw (e, n) tt
  ]
]

run-assemble-Ends_example : Ends outside events (assemble at_start host no_payloads)
run-assemble-Ends_example =
    run-assemble-Ends outside events at_start host no_payloads dis_in_range
      (tt, (packet-Clean, (tt, tt))) at_start-IsInitial

abbrev one_hello : List Arrival
one_hello = (0, somewhere, 22 ∷ []) ∷ []

all_received_example : run outside (map arrives one_hello) (start_receive server) ≡ (
    dispatch_all outside no_payloads.video_pts one_hello idle.packet_router
    >>= λ (d : PacketRouter ℕ ℕ). some (start_receive (routed server d)))
all_received_example = all_received outside one_hello server

deaf_after_error_example :
    run outside (received 0 failed ∷ map arrives one_hello) server
    ≡ run outside (rpcs (map arrives one_hello)) (taken server)
deaf_after_error_example = deaf_after_error outside 0 (map arrives one_hello) server refl

-- The file that the repository ships, as far as the server reads it.
abbrev shipped : List (Bytes × Entries)
shipped =
    (
      ascii "server",
      (ascii "grpc_port", decimal 50051) ∷ (ascii "udp_port_start", decimal 10000) ∷ [],
    )
    ∷ []

digits-IsText : IsText (decimal 50051) × IsText (decimal 10000)
unfolding decimal_onto
digits-IsText = (
  record { no_comment = (refl, (refl, (refl, (refl, (refl, tt))))); no_lf = omega arith },
  record { no_comment = (refl, (refl, (refl, (refl, (refl, tt))))); no_lf = omega arith },
)

grpc_port-IsKey : IsKey (ascii "grpc_port")
unfolding trim trim_left trim_right cut_comment
grpc_port-IsKey = record {
  trimmed = refl;
  starts = refl;
  not_empty = cc;
  no_header = refl;
  no_eq = omega arith;
  no_comment = (refl, (refl, (refl, (refl, (refl, (refl, (refl, (refl, (refl, tt)))))))));
  no_lf = omega arith;
}

udp_port-IsKey : IsKey (ascii "udp_port_start")
unfolding trim trim_left trim_right cut_comment
udp_port-IsKey = record {
  trimmed = refl;
  starts = refl;
  not_empty = cc;
  no_header = refl;
  no_eq = omega arith;
  no_comment = (
    refl,
    (
      refl,
      (
        refl,
        (refl, (refl, (refl, (refl, (refl, (refl, (refl, (refl, (refl, (refl, (refl, tt))))))))))),
      ),
    ),
  );
  no_lf = omega arith;
}

shipped-IsConfig : IsConfig shipped
shipped-IsConfig = (
  (
    cc,
    record { no_comment = (refl, (refl, (refl, (refl, (refl, (refl, tt)))))); no_lf = omega arith },
    ((grpc_port-IsKey, digits-IsText.0), ((udp_port-IsKey, digits-IsText.1), tt)),
  ),
  tt,
)

start-print_config_example :
    start (some (print_config shipped)) ≡ some (record { grpc_port = pos 50051; udp_port = 10000 })
unfolding latest latest_in bytes_eq
start-print_config_example =
    start-print_config shipped 50051 10000 shipped-IsConfig refl refl (omega arith) (omega arith)

shipped_starts :
    start (some (print_config shipped)) ≡ some (record { grpc_port = pos 50051; udp_port = 10000 })
unfolding latest latest_in bytes_eq
shipped_starts =
    start-print_config shipped 50051 10000 shipped-IsConfig refl refl (omega arith) (omega arith)

start-ne-none_example :
    (some (print_config shipped) ≢ none)
    × (read_int (server_text (ascii "grpc_port") (load (some (print_config shipped)) [])) ≢ none)
    × (read_int (server_text (ascii "udp_port_start") (load (some (print_config shipped)) []))
        ≢ none)
start-ne-none_example =
    start-ne-none (some (print_config shipped)) (record { grpc_port = pos 50051; udp_port = 10000 })
      shipped_starts
