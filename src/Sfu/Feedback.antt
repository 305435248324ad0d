-- ===== src/Sfu/Feedback.antt =====
-- media-svc/sfu/Router.cpp: RTCP from a subscriber is translated and sent on to the publisher. The
-- pointer `p` is the rest of the buffer from there; `none` is a read through a pointer to a `Consumer`
-- that was freed, or no fuel left for the loop.
pub mod Translate
pub mod Delivered
use Prim.Native.Nat.{bit_and}
use namecon.Common.{
  ℕ, zero, suc, ◌+◌, ◌*◌, ◌/◌, ◌%◌, ◌^◌, Bool, true, false, ◌&&◌, ◌∷◌, ◌++◌, Option, none, some,
  if◌then◌else◌, length, take, drop, leb, ltb, ◌==◌,
}
use namecon.Common.Bytes.{Bytes, be16, be32, byte, read16, read32, memcpy}
use namecon.Common.Int.{uint16}
use namecon.Common.Store.{◌>>=◌}
use namecon.Transport.Srtp.{Lib, SrtpContext, protect_rtcp}
use namecon.Sfu.Types.{Consumer}
use namecon.Sfu.State.{Router, set_consumer, send_rtcp}
use namecon.Sfu.Setup.{pli_for}
use namecon.Sfu.Mids.{find_consumer_by_out_ssrc}
use namecon.Sfu.Forward.{sub16}

abbrev pub rtcp_is_pli : Bytes → Bool
rtcp_is_pli p = leb 12 (length p) && (byte p 1 == 206 && bit_and (byte p 0) 0x1f == 1)

abbrev pub rtcp_is_nack : Bytes → Bool
rtcp_is_nack p = leb 16 (length p) && (byte p 1 == 205 && bit_and (byte p 0) 0x1f == 1)

abbrev pub rtcp_is_sr : Bytes → Bool
rtcp_is_sr p = leb 28 (length p) && byte p 1 == 200

abbrev pub rtcp_is_rr : Bytes → Bool
rtcp_is_rr p = leb 8 (length p) && byte p 1 == 201

-- `pid - static_cast<uint16_t>(seqDelta)`
abbrev pub orig_pid : ℕ → Consumer → ℕ
orig_pid pid k = sub16 pid (uint16 k.seq_delta)

abbrev pub nack_for : ℕ → ℕ → ℕ → Bytes
nack_for ssrc pid blp = (0x81 ∷ 205 ∷ be16 3) ++ (be32 0 ++ (be32 ssrc ++ (be16 pid ++ be16 blp)))

-- The RR with the SSRC of its first report block replaced, if it has one.
abbrev pub rr_for : ℕ → Bytes → Bytes
rr_for ssrc rr = if leb 12 (length rr) then memcpy rr 8 (be32 ssrc) else rr

-- `getNtpTimestamp`, for a clock that shows `now` nanoseconds since 1970. The two halves do not
-- overlap, so `|` is `+`.
abbrev pub ntp_timestamp : ℕ → ℕ
ntp_timestamp now =
    let secs = now / 1000000000 in
    let frac = now % 1000000000 in
    (secs + 2208988800) * 2 ^ 32 % 2 ^ 64 + frac * 2 ^ 32 / 1000000000

abbrev pub sr_for : ℕ → Consumer → Bytes
sr_for ntp k =
    (0x80 ∷ 200 ∷ be16 6)
    ++ (be32 k.rewritten_ssrc
        ++ (be32 (ntp / 2 ^ 32)
            ++ (be32 (ntp % 2 ^ 32)
                ++ (be32 k.last_sent_timestamp ++ (be32 k.packets_sent ++ be32 k.octets_sent)))))

abbrev pub sub_length : Bytes → ℕ
sub_length p = (byte p 2 * 256 + byte p 3 + 1) * 4

module _ {S D : Type 0} ⦃lib : Lib S⦄ where
  -- `if (!c || !c->publisher || !c->publisher->srtp) return;` and the packet to the publisher.
  abbrev pub to_publisher : Option ℕ → Bytes → Router S D → Router S D
  to_publisher none pkt r = r
  to_publisher (some q) pkt r = (send_rtcp q pkt r).0

  -- The same for the copy of an RR: the vector is as long as the RR, and what `protectRtcp` makes of
  -- it may be longer.
  abbrev pub past_end : Bytes → Option Bytes → Router S D → Router S D
  past_end pkt none r = r
  past_end pkt (some out) r =
      if ltb (length pkt) (length out) then record r { overruns = r.overruns + 1 } else r

  abbrev pub rr_overrun : Bytes → Option (SrtpContext S) → Router S D → Router S D
  rr_overrun pkt none r = r
  rr_overrun pkt (some ctx) r = past_end pkt (protect_rtcp ctx pkt).1 r

  abbrev pub rr_to_publisher : Option ℕ → Bytes → Router S D → Router S D
  rr_to_publisher none pkt r = r
  rr_to_publisher (some q) pkt r = rr_overrun pkt (r.peers q).srtp (send_rtcp q pkt r).0

  abbrev pub translate :
      (Option ℕ → Bytes → Router S D → Router S D)
      → Option ℕ
      → (Consumer → Bytes)
      → Router S D
      → Option (Router S D)
  translate deliver none make r = some r
  translate deliver (some c) make r = do k ← r.consumers c; some (deliver k.publisher (make k) r)

  unfoldable pub handle_pli : Bytes → Router S D → Option (Router S D)
  handle_pli p r =
      translate to_publisher (find_consumer_by_out_ssrc (read32 p 8) r)
        (λ k. pli_for k.publisher_ssrc) r

  unfoldable pub handle_nack : Bytes → Router S D → Option (Router S D)
  handle_nack p r =
      translate to_publisher (find_consumer_by_out_ssrc (read32 p 8) r)
        (λ k. nack_for k.publisher_ssrc (orig_pid (read16 p 12) k) (read16 p 14)) r

  unfoldable pub handle_rr : Bytes → ℕ → Router S D → Option (Router S D)
  handle_rr p len r =
      if ltb len 8
      then some r
      else translate rr_to_publisher (find_consumer_by_out_ssrc (read32 p 4) r)
          (λ k. rr_for k.publisher_ssrc (take len p)) r

  -- The four tests on one sub-packet, in order; an SR is dropped, and so is anything else.
  unfoldable pub handle_sub : Bytes → ℕ → Router S D → Option (Router S D)
  handle_sub p len r =
      if rtcp_is_pli p
      then handle_pli p r
      else (if rtcp_is_nack p
          then handle_nack p r
          else (if rtcp_is_rr p then handle_rr p len r else some r))

  unfoldable pub rtcp_loop : ℕ → Bytes → Router S D → Option (Router S D)
  rtcp_loop zero p r = none
  rtcp_loop (suc fuel) p r =
      let rest =
        (handle_sub p (sub_length p) r >>= λ r'. rtcp_loop fuel (drop (sub_length p) p) r') in
      if ltb (length p) 4 then some r else (if ltb (length p) (sub_length p) then some r else rest)

  unfoldable pub on_rtcp_packet : Bytes → Router S D → Option (Router S D)
  on_rtcp_packet rtcp r = rtcp_loop (suc (length rtcp)) rtcp r

  -- `if (protectRtcp) { sendTo; lastSrNtpTs = …; lastSrRtpTs = …; }`
  abbrev pub sr_sent_if : ℕ → ℕ → Consumer → Router S D × Bool → Router S D
  sr_sent_if ntp c k (r, false) = r
  sr_sent_if ntp c k (r, true) =
      set_consumer c
        (record k { last_sr_ntp_ts = ntp / 2 ^ 32; last_sr_rtp_ts = k.last_sent_timestamp }) r

  abbrev pub sr_to : ℕ → ℕ → Consumer → Option ℕ → Router S D → Router S D
  sr_to ntp c k none r = r
  sr_to ntp c k (some q) r = sr_sent_if ntp c k (send_rtcp q (sr_for ntp k) r)

  unfoldable pub generate_and_send_sr : ℕ → ℕ → Router S D → Option (Router S D)
  generate_and_send_sr now c r = do
    k ← r.consumers c
    some (sr_to (ntp_timestamp now) c k k.subscriber r)
