-- ===== src/Sfu/Forward.antt =====
-- media-svc/sfu/Router.cpp: `rewriteRtpHeader` and `onRtpPacket`. A packet is handled in two steps,
-- since the lock is held only while the producer is found or made and its consumers are copied; other
-- threads may run between the two.
pub mod Rewrite
pub mod Delivery
mod Moves
use text.Mathlib.Text.{◌==◌ as str_eq}
use namecon.Common.{
  ℕ, ◌+◌, ◌-◌, ◌%◌, ◌^◌, Bool, true, false, List, [], ◌∷◌, Option, none, some, if◌then◌else◌,
  length,
}
use namecon.Common.Bytes.{Bytes}
use namecon.Common.Int.{pos, ◌-ℤ◌, int32}
use namecon.Common.Store.{◌>>=◌}
use namecon.Rtp.{RtpHeader, parse, write_fixed_header}
use namecon.Transport.Srtp.{Lib, SrtpContext, protect}
use namecon.Sfu.Types.{Consumer}
use namecon.Sfu.State.{Router, set_consumer, sent_on}
use namecon.Sfu.Setup.{find_or_create_producer}

-- `uint16_t` and `uint32_t` sums and differences.
abbrev pub add16 : ℕ → ℕ → ℕ
add16 a b = (a + b) % 2 ^ 16

abbrev pub sub16 : ℕ → ℕ → ℕ
sub16 a b = (a + 2 ^ 16 - b) % 2 ^ 16

abbrev pub add32 : ℕ → ℕ → ℕ
add32 a b = (a + b) % 2 ^ 32

abbrev pub sub32 : ℕ → ℕ → ℕ
sub32 a b = (a + 2 ^ 32 - b) % 2 ^ 32

-- The first packet sets the mapping up.
abbrev pub first_mapping : RtpHeader → Consumer → Consumer
first_mapping hdr c = record c {
  last_sent_seq = hdr.sequence_number;
  last_sent_timestamp = hdr.timestamp;
  seq_delta = pos 0;
  ts_delta = pos 0;
  seq_initialized = true;
}

abbrev pub new_sent_seq : RtpHeader → Consumer → ℕ
new_sent_seq hdr c = add16 c.last_sent_seq (sub16 hdr.sequence_number c.last_sent_seq)

abbrev pub new_sent_ts : RtpHeader → Consumer → ℕ
new_sent_ts hdr c = add32 c.last_sent_timestamp (sub32 hdr.timestamp c.last_sent_timestamp)

-- A later packet moves it on by the packet's own increments.
abbrev pub next_mapping : RtpHeader → Consumer → Consumer
next_mapping hdr c = record c {
  seq_delta = pos (new_sent_seq hdr c) -ℤ pos hdr.sequence_number;
  ts_delta = int32 (new_sent_ts hdr c) -ℤ int32 hdr.timestamp;
  last_sent_seq = new_sent_seq hdr c;
  last_sent_timestamp = new_sent_ts hdr c;
}

-- The rewritten header and the consumer's new state.
abbrev pub rewrite : RtpHeader → Consumer → RtpHeader × Consumer
rewrite hdr c =
    let out = record hdr { ssrc = c.rewritten_ssrc } in
    if c.seq_initialized
    then (
      record out { sequence_number = new_sent_seq hdr c; timestamp = new_sent_ts hdr c },
      next_mapping hdr c,
    )
    else (out, first_mapping hdr c)

abbrev pub rewrite_parsed : Bytes → Consumer → Option RtpHeader → Bytes × Consumer
rewrite_parsed buf c none = (buf, c)
rewrite_parsed buf c (some hdr) = (write_fixed_header buf (rewrite hdr c).0, (rewrite hdr c).1)

unfoldable pub rewrite_rtp_header : Bytes → Consumer → Bytes × Consumer
rewrite_rtp_header buf c = rewrite_parsed buf c (parse buf)

-- `c->packetsSent++; c->octetsSent += len`
abbrev pub count_sent : ℕ → Consumer → Consumer
count_sent len c = record c {
  packets_sent = (c.packets_sent + 1) % 2 ^ 32;
  octets_sent = (c.octets_sent + len) % 2 ^ 32;
}

module _ {S D : Type 0} ⦃lib : Lib S⦄ where
  -- Under the lock: the producer of the packet's SSRC, made if there is none, and a copy of its
  -- consumers. `video_pts` are the payload types of `SdpParser::videoPTs`.
  unfoldable pub targets_of : (ℕ → Bool) → RtpHeader → ℕ → Router S D → Option (Router S D × List ℕ)
  targets_of video_pts hdr q r = do
    (r', p) ← find_or_create_producer q hdr.ssrc (video_pts hdr.payload_type) r
    some (r', p.consumers)

  -- What `protect` left behind for subscriber `q`: the counters move only if a packet was sent.
  abbrev pub count_if : Bool → ℕ → ℕ → Consumer → Router S D → Router S D
  count_if true len c k r = set_consumer c (count_sent len k) r
  count_if false len c k r = r

  abbrev pub send_rtp : Bytes → ℕ → Consumer → ℕ → SrtpContext S → Router S D → Router S D
  send_rtp plain c k q ctx r =
      let (out, k') = rewrite_rtp_header plain k in
      let (r', ok) = sent_on q (protect ctx out) (set_consumer c k' r) in
      count_if ok (length plain) c k' r'

  abbrev pub send_if_srtp :
      Bytes → ℕ → Consumer → ℕ → Option (SrtpContext S) → Router S D → Router S D
  send_if_srtp plain c k q none r = r
  send_if_srtp plain c k q (some ctx) r =
      if str_eq k.recv_mid "" then r else send_rtp plain c k q ctx r

  abbrev pub send_if_subscriber : Bytes → ℕ → Consumer → Option ℕ → Router S D → Router S D
  send_if_subscriber plain c k none r = r
  send_if_subscriber plain c k (some q) r = send_if_srtp plain c k q (r.peers q).srtp r

  -- The body of the loop for one consumer that is read from memory.
  unfoldable pub forward_to : Bytes → ℕ → Consumer → Router S D → Router S D
  forward_to plain c k r = if k.active then send_if_subscriber plain c k k.subscriber r else r

  -- The loop over the copied pointers, outside the lock.
  unfoldable pub forward : Bytes → List ℕ → Router S D → Option (Router S D)
  forward plain [] r = some r
  forward plain (c ∷ cs) r = do k ← r.consumers c; forward plain cs (forward_to plain c k r)

  abbrev pub parsed_packet :
      (ℕ → Bool) → Bytes → ℕ → Router S D → Option RtpHeader → Option (Router S D)
  parsed_packet video_pts plain q r none = some r
  parsed_packet video_pts plain q r (some hdr) = do
    (r', targets) ← targets_of video_pts hdr q r
    forward plain targets r'

  -- Both steps with nothing in between.
  unfoldable pub on_rtp_packet : (ℕ → Bool) → Bytes → ℕ → Router S D → Option (Router S D)
  on_rtp_packet video_pts plain q r = parsed_packet video_pts plain q r (parse plain)
