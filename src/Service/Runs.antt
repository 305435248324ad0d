-- ===== src/Service/Runs.antt =====
-- The RPCs on a service without peers.
use namecon.Service.Negotiation.{made_host, Joined, send_offer_read_back}
use namecon.Common.Text.{
  NoLf, ascii, lines, drop_cr, skip_blanks, after_prefix, skip_space, word_of, behind_word,
  read_int, digits_onto, bytes_eq,
}
use namecon.Common.{none, false, ℕ, ◌≡◌, refl, some, true, [], ◌∷◌, arith}
use namecon.Service.Fixtures.{at_start, letters, letters-lt, counting, idle, host, no_payloads}
use namecon.Common.Bytes.{Bytes}
use namecon.Config.{get, section}
use namecon.Sdp.Types.{SdpParser, parsed, recvonly}
use namecon.Sdp.{
  parse_offer, parse_lines, parse_line, start_section, media_section, drop_space, add_pts, add_pt,
  insert_pt, attribute_line, extract_attr, current, in_current, section_line, behind_space,
  accepted,
}
use namecon.Sdp.Answer.{print_lines, set_server_info, set_mid_ssrc_map}
use namecon.Service.Rpcs.{send_offer, offer_parser, new_parser, answer_sdp, get_public_ip}
use namecon.Sfu.Setup.{
  remove_peer, free, without, unsubscribe, silence_all, subscribe, join, attach, attached_ssrc,
}
use namecon.Sfu.Mids.{put}
use namecon.Dispatch.{
  holds_name, holds_endpoint, drop_pointer, register_pending, get_or_create_peer, find_endpoint,
  find_name,
}
use namecon.Sfu.RouteTable.{unbind_peer}
use namecon.Service.{drop_name, MediaService, add_peer, remove_named, offer_mids}
use namecon.Service.Replaced.{replaced_dangles}
use namecon.Rtcp.{pli_bytes}
use namecon.Sfu.Feedback.{on_rtcp_packet}
use namecon.Sfu.State.{register_peer, listed}
use mathlib.Core.List.{Memᴰ}
use namecon.Common.Store.{lookup, insert, update}
use namecon.Sfu.Types.{Endpoint}
use namecon.Service.Ghost.{ghost_peer}

-- "alice" is added and leaves before she connects.
abbrev left : MediaService ℕ ℕ
left = record (add_peer "alice" idle) {
  packet_router = record (add_peer "alice" idle).packet_router {
    router = record (add_peer "alice" idle).packet_router.router {
      peers =
          update
            (update (add_peer "alice" idle).packet_router.router.peers 1
              (record ((add_peer "alice" idle).packet_router.router.peers 1) { producers = [] }))
            1
            (record (update (add_peer "alice" idle).packet_router.router.peers 1
              (record ((add_peer "alice" idle).packet_router.router.peers 1) { producers = [] })
              1) { consumers = [] });
    };
  };
  peers = [];
}

removed : remove_named "alice" (add_peer "alice" idle) ≡ some left
unfolding remove_named add_peer register_pending drop_pointer put find_name drop_name remove_peer
    silence_all unsubscribe without unbind_peer free
removed = refl

abbrev stranger : Endpoint
stranger = record { address = 0x0A000001; port = 5000 }

unknown : find_endpoint stranger [] ≡ none
unfolding find_endpoint
unknown = refl

ghost_peer_example : (get_or_create_peer 0 stranger left.packet_router).0 ≡ 1
ghost_peer_example = ghost_peer "alice" 0 stranger idle left refl refl unknown removed

-- A subscriber's offer, and what the parser takes it for.
abbrev offer : Bytes
offer = print_lines (
    ascii "a=ice-ufrag:u"
    ∷ ascii "a=fingerprint:sha-256 BB"
    ∷ ascii "m=video 9 X 96"
    ∷ ascii "a=recvonly"
    ∷ [])

abbrev taken : SdpParser
taken = record (offer_parser host no_payloads []) {
  sections =
      record {
        type = ascii "video";
        mid = [];
        direction = recvonly;
        pt_list = ascii "96";
        codec_lines = [];
      }
      ∷ [];
  ice_ufrag = ascii "u";
  fingerprint = ascii "BB";
  shared = record no_payloads { video_pts = insert_pt 96 (λ pt. false) };
}

offer-taken : parse_offer offer (offer_parser host no_payloads []) ≡ parsed taken
unfolding made_host offer_parser set_server_info set_mid_ssrc_map new_parser parse_offer lines
    print_lines parse_lines parse_line drop_cr skip_blanks after_prefix start_section media_section
    skip_space word_of behind_word drop_space add_pts read_int digits_onto add_pt bytes_eq
    attribute_line extract_attr current in_current section_line behind_space
offer-taken = refl

nobody : offer_mids "bob" [] idle ≡ some ([], idle)
unfolding offer_mids find_name
nobody = refl

accepted-taken : accepted taken ≡ true
unfolding accepted made_host offer_parser set_server_info set_mid_ssrc_map new_parser
accepted-taken = refl

host_line : NoLf (get_public_ip host)
unfolding get_public_ip get section made_host
host_line = omega arith

send_offer_read_back_example :
    (text : Bytes) × (q' : SdpParser) × (send_offer host no_payloads "bob" [] offer idle
      ≡ some (answer_sdp text, taken.shared, idle))
    × (parse_offer text (new_parser no_payloads) ≡ parsed q')
    × Joined letters (170 ∷ []) taken q'
unfolding offer_parser set_server_info set_mid_ssrc_map new_parser made_host
send_offer_read_back_example =
    send_offer_read_back letters (170 ∷ []) none [] no_payloads no_payloads "bob" [] offer idle idle
      [] taken letters-lt (cc) host_line nobody offer-taken accepted-taken (cc, tt)

-- "alice" is pending with a subscription to peer 2, and AddPeer comes again.
abbrev subscribed : MediaService ℕ ℕ
subscribed = record idle {
  packet_router = record idle.packet_router {
    router = subscribe 1 2 true 0x40000000 1 at_start;
    pending_peers = ("alice", 1) ∷ [];
    next_peer = 3;
  };
  peers = ("alice", 1) ∷ [];
}

abbrev again : MediaService ℕ ℕ
again = add_peer "alice" subscribed

replaced_dangles_example :
    (again.packet_router.freed_peers ≡ 1 ∷ [])
    × (again.packet_router.router.consumers 0 ≡ none)
    × (on_rtcp_packet (pli_bytes 9 0x40000000) again.packet_router.router ≡ none)
unfolding find_name holds_name holds_endpoint put subscribe join attach attached_ssrc register_peer
    listed lookup insert
replaced_dangles_example =
    replaced_dangles "alice" 1 0 0x40000000 9 subscribed refl refl refl refl refl refl (omega arith)
      (Memᴰ.head refl) (omega arith) refl
