-- ===== src/Server/Start.antt =====
-- media-svc/main.cpp and setupComponents: the ports that a configuration gives. `none` is an
-- exception of `std::stoi`, which main logs before it returns a failure.
use namecon.Common.{
  Option-cases, inl, inr, ℕ, zero, suc, ◌%◌, ◌^◌, ◌<◌, ◌≡◌, ◌≢◌, refl, Bool, true, false, List, [],
  Option, none, some,
}
use namecon.Common.Store.{◌>>=◌}
use namecon.Common.Bytes.{Bytes}
use namecon.Common.Int.{ℤ, pos, negsuc, uint16}
use namecon.Common.Text.{skip_space, ascii, read_int, decimal, digits_onto}
use namecon.Common.Text.Decimal.{read_int-decimal}
use namecon.Config.{ConfigMgr, get, section, load}
use namecon.Config.RoundTrip.{Entries, IsConfig, print_config, latest, load-print_config}

pub record Ports : Type 0 where
  pub grpc_port : ℤ
  pub udp_port : ℕ

abbrev pub to_int : Bool × ℕ × Bytes → ℤ
to_int (false, n, rest) = pos n
to_int (true, zero, rest) = pos 0
to_int (true, suc n, rest) = negsuc n

abbrev pub server_text : Bytes → ConfigMgr → Bytes
server_text key m = get key (section (ascii "server") m)

unfoldable pub setup_components : ConfigMgr → Option Ports
setup_components m = read_int (server_text (ascii "grpc_port") m) >>= λ grpc.
    read_int (server_text (ascii "udp_port_start") m) >>= λ udp.
    some (record { grpc_port = to_int grpc; udp_port = uint16 (to_int udp) })

-- `Logger::init` loads the file before the server is made.
unfoldable pub start : Option Bytes → Option Ports
start file = setup_components (load file [])

-- A printed configuration in which every name of a section or key and every value is free of what
-- the reader would cut or split it at (`IsConfig`), and whose section "server" gives, at last,
-- decimal numbers below 2 ^ 31 for both ports, is one that the service starts with: on that gRPC
-- port, and on that UDP port modulo 65536.
pub start-print_config :
    (cfg : List (Bytes × Entries)) (grpc udp : ℕ)
    → IsConfig cfg
    → latest (ascii "server") (ascii "grpc_port") cfg [] ≡ decimal grpc
    → latest (ascii "server") (ascii "udp_port_start") cfg [] ≡ decimal udp
    → grpc < 2 ^ 31
    → udp < 2 ^ 31
    → start (some (print_config cfg))
      ≡ some (record { grpc_port = pos grpc; udp_port = udp % 65536 })
unfolding start setup_components get section digits_onto
start-print_config cfg grpc udp h at_grpc at_udp grpc_fits udp_fits =
    let said = load-print_config cfg [] (ascii "server") in
    rw (
      said (ascii "grpc_port") h,
      at_grpc,
      said (ascii "udp_port_start") h,
      at_udp,
      read_int-decimal grpc [] grpc_fits refl,
      read_int-decimal udp [] udp_fits refl,
    )

-- Without a number for either port the service does not start; so it does not where the file
-- cannot be opened, though the reader says that it takes defaults then.
pub start-ne-none :
    (file : Option Bytes) (ports : Ports)
    → start file ≡ some ports
    → (file ≢ none)
      × (read_int (server_text (ascii "grpc_port") (load file [])) ≢ none)
      × (read_int (server_text (ascii "udp_port_start") (load file [])) ≢ none)
unfolding start setup_components load get section read_int skip_space
start-ne-none none ports e = cc
start-ne-none (some text) ports e =
    let m = load (some text) [] in
    (
      cc,
      (λ bad. let e' = rw bad at e in cc),
      (λ bad. elim (Option-cases (read_int (server_text (ascii "grpc_port") m))) [
        | inl none_ ↦ let e' = rw none_ at e in cc
        | inr (n, some_) ↦ let e' = rw (some_, bad) at e in cc
      ]),
    )
