-- ===== src/Lib.antt =====
-- namecon: the media service (media-svc) of a video conference. A C++ selective forwarding unit
-- terminates ICE, DTLS and SRTP for each browser, forwards every publisher's RTP to its subscribers
-- under SSRCs of its own, and translates the subscribers' RTCP back to the publishers.
--
-- The files and the code they are about:
--   Common     helpers: Boolean tests, lists, bytes in network order, bit fields, signed words, maps.
--   Rtp        media-svc/rtp/RtpHeader: `parse`, `write_fixed_header` (writeFixedHeader) and
--              `header_length` (headerLength).
--   Rtcp       media-svc/rtcp/RtcpHandler: `on_rtcp_packet` (onRtcpPacket), `send_pli`, `send_nack`,
--              `send_sr`.
--   Transport  media-svc/transport: Srtp is SrtpContext, Ice is IceServer. Credentials has what a
--              browser is told: IceServer's random texts and DtlsContext's fingerprint.
--   Sfu        media-svc/sfu: Types (Consumer, Producer, Peer), RouteTable, State (the members of
--              Router), Setup (addConsumer, removePeer, findOrCreateProducer), Mids (the mid of a
--              subscription, and the queries), Forward (rewriteRtpHeader, onRtpPacket), Feedback
--              (onRtcpPacket, handlePLI, handleNACK, handleRR, generateAndSendSR). Memory and its
--              children are about the raw pointers between Consumers and Producers.
--   Dispatch   media-svc/transport/PacketRouter, with DtlsContext::handlePacket: `on_packet`
--              (onPacket), `get_or_create_peer`, `handle_dtls`, `handle_srtp`.
--   Sdp        media-svc/sdp/SdpParser: `parse_offer` (parseOffer) and its steps stand in Sdp, Answer
--              is `generate_answer` (generateAnswer), Types the members. Lines, Pieces, Ready, Clean,
--              Texts, Sections, Reads and RoundTrip lead to ReadBack, which parses an answer again; Payload
--              and PtList are about the sets of payload types, Throws and BadCodec about `std::stoi`.
--   Config     media-svc/config/ConfigMgr: `load` (Load), `section` and `get` (the two operator[]).
--              Logging is what media-svc/utils/Logger.cpp takes from it.
--   Service    media-svc/grpc/MediaServiceImpl: `add_peer` (AddPeer), `remove_named` (RemovePeer),
--              `add_named` (AddConsumer), `offer_mids` (the subscriptions of SendOffer). Rpcs has
--              `send_offer` (SendOffer) with its answer, and the replies of the other RPCs;
--              Negotiation follows an answer up to the browser's first STUN request. Ghost and
--              Replaced are about names that leave or come again before their peer connects.
--   Server     media-svc/core/MediaServer, media-svc/main.cpp and media-svc/transport/UdpServer:
--              `assemble` (setupComponents), `on_receive` (onReceive), Start (the ports).
-- Server owns the parts: each completed receive goes to Dispatch, each RPC to Service, and Config
-- gives the ports. Service adds peers to Dispatch's pending ones, calls the router, and makes the
-- answer to an offer with Sdp, which also fills the sets of payload types that the router reads.
-- Dispatch classifies each datagram. STUN is answered by Transport.Ice; DTLS drives the handshake of
-- the endpoint's peer and then keys its SRTP context. An SRTP datagram is decrypted by
-- Transport.Srtp and handed to the router with the peer it came from; the router reads it with Rtp,
-- keeps the peers' streams and subscriptions in `Router`, and encrypts what it sends with
-- Transport.Srtp. The Runs modules run the code on single inputs.
--
-- How the code is modelled:
--   * A function of the code is a function of the same name in snake_case, its guards in order. A
--     method takes the object's state and returns the new one. Logging is left out.
--   * Numbers are natural numbers, with the wrap-around of a machine word written out. A pointer into
--     a packet is the rest of the packet.
--   * What is sent is a list of datagrams in the state; UdpServer::sendTo hands it to Boost.
--   * A pointer to a Consumer is an address in a store, where freed memory is `none`; an operation that
--     reads freed memory returns `none`. A pointer to a Peer is an address. Where AddPeer drops the
--     last pointer to a peer, the peer is listed in `freed_peers` and the Consumers that it owns are
--     freed; what the Peer itself held is still read as it was.
--   * An operation that holds the router's lock throughout is one step. `on_rtp_packet` is its two
--     critical parts, `targets_of` and `forward`, with nothing in between.
--   * `overruns` counts the writes past the end of the vector of handleRR; the bytes behind it are not
--     in the model.
--   * Loops over packets take fuel. Rtcp gives one more than the buffer's length, and each round takes
--     at least four bytes; allocateSsrc gets one draw, which is never 0 in the distribution's range.
--     IceServer's loop over attributes likewise: each round takes at least four bytes. The loop over
--     the payload types of an m= line gets one more than the length of the list, and each round reads
--     a character at least. A number is printed with at most ten digits, enough for 32 bits.
--   * A text is its bytes; `std::getline`, `operator>>` and `std::stoi` are functions on bytes in
--     Common.Text, in the C locale. What `std::stoi` throws is a result of its own. Names and mids,
--     Strings in the service and bytes in SDP, are taken to be ASCII.
--   * The static members of SdpParser are a record that is passed from call to call.
--   * libsrtp is the record `Lib`, OpenSSL's handshake `Openssl`, its HMAC and zlib's CRC `Crypto`:
--     parameters. Which entry of a hash table `begin()` gives, the random draws, the clock and the set
--     of video payload types are arguments. The events of the server come one after the other.
--     Memory of a peer that was not made yet is a blank peer.
--
-- Not modelled: threads, and what two handlers do to one peer at the same time where no lock is held;
-- the sockets themselves, and the life of a buffer that is handed to Boost; the set-up of
-- certificates and of gRPC, signals and the sinks of the log, which only call libraries; the
-- signalling service (Go) and the web client (JavaScript).
pub mod Common
pub mod Rtp
pub mod Rtcp
pub mod Transport
pub mod Sfu
pub mod Dispatch
pub mod Sdp
pub mod Config
pub mod Service
pub mod Server
