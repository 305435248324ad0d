-- ===== src/Sfu/Forward/Rewrite.antt =====
-- Router::rewriteRtpHeader: what a forwarded packet is, and the state it leaves.
use namecon.Common.Bytes.{Bytes, IsByte}
use namecon.Rtp.RoundTrip.{write-rest, parse-write, parse-IsHeader}
use namecon.Rtp.Header.{IsHeader}
use mathlib.Core.Path.{sym, subst}
use mathlib.Core.Option.{some-injective}
use namecon.Common.{
  inr, inl, Bool-cases, All, ℕ, ◌^◌, ◌<◌, ◌≡◌, refl, ◌∙◌, true, some, length, drop, arith,
}
use namecon.Sfu.Feedback.{orig_pid}
use namecon.Rtp.{parse, RtpHeader}
use namecon.Sfu.Forward.{rewrite, new_sent_seq, new_sent_ts, rewrite_rtp_header}
use namecon.Sfu.Types.{Consumer}
use namecon.Common.Int.{pos, sub_self, int32}

-- The counters of a consumer fit their machine words.
pub record InRange (k : Consumer) : Type 0 where
  pub rewritten_ssrc-lt : k.rewritten_ssrc < 2 ^ 32
  pub last_sent_seq-lt : k.last_sent_seq < 2 ^ 16
  pub last_sent_timestamp-lt : k.last_sent_timestamp < 2 ^ 32

-- The state after a packet: its numbers are the last ones sent, and both offsets are 0.
abbrev pub mapped : RtpHeader → Consumer → Consumer
mapped hdr k = record k {
  last_sent_seq = hdr.sequence_number;
  last_sent_timestamp = hdr.timestamp;
  seq_delta = pos 0;
  ts_delta = pos 0;
  seq_initialized = true;
}

same_seq :
    (hdr : RtpHeader) (k : Consumer)
    → IsHeader hdr
    → InRange k
    → new_sent_seq hdr k ≡ hdr.sequence_number
same_seq hdr k fits range = omega (arith, fits.sequence_number-lt, range.last_sent_seq-lt)

same_ts :
    (hdr : RtpHeader) (k : Consumer) → IsHeader hdr → InRange k → new_sent_ts hdr k ≡ hdr.timestamp
same_ts hdr k fits range = omega (arith, fits.timestamp-lt, range.last_sent_timestamp-lt)

rewrite_lem :
    (hdr : RtpHeader) (k : Consumer)
    → IsHeader hdr
    → InRange k
    → rewrite hdr k ≡ (record hdr { ssrc = k.rewritten_ssrc }, mapped hdr k)
rewrite_lem hdr k fits range = elim (Bool-cases k.seq_initialized) [
  | inl later ↦
      rw
        (
          later,
          same_seq hdr k fits range,
          same_ts hdr k fits range,
          sub_self (pos hdr.sequence_number),
          sub_self (int32 hdr.timestamp),
        )
        refl
  | inr first ↦ rw first refl
]

mapped-InRange :
    (hdr : RtpHeader) (k : Consumer) → IsHeader hdr → InRange k → InRange (mapped hdr k)
mapped-InRange hdr k fits range = record {
  rewritten_ssrc-lt = range.rewritten_ssrc-lt;
  last_sent_seq-lt = fits.sequence_number-lt;
  last_sent_timestamp-lt = fits.timestamp-lt;
}

-- A packet of bytes that has an RTP header leaves with the same header but for the SSRC, which is the
-- consumer's, and with every byte past the header as it was. The consumer's counters stay within
-- their widths, and the sequence offset is 0 after it: a NACK's PID is translated to itself.
pub rewrite_rtp_header_lem :
    (buf : Bytes) (hdr : RtpHeader) (k : Consumer)
    → All IsByte buf
    → InRange k
    → parse buf ≡ some hdr
    → (parse (rewrite_rtp_header buf k).0 ≡ some (record hdr { ssrc = k.rewritten_ssrc }))
      × (length (rewrite_rtp_header buf k).0 ≡ length buf)
      × (drop 12 (rewrite_rtp_header buf k).0 ≡ drop 12 buf)
      × ((rewrite_rtp_header buf k).1 ≡ mapped hdr k)
      × InRange (rewrite_rtp_header buf k).1
      × ((pid : ℕ) → pid < 2 ^ 16 → orig_pid pid (rewrite_rtp_header buf k).1 ≡ pid)
unfolding rewrite_rtp_header
rewrite_rtp_header_lem buf hdr k ok range e = elim (parse-IsHeader buf ok) [
  | inl (short, fails) ↦ let e' = e in cc
  | inr (long, (h, e', fits)) ↦
      let fits' : IsHeader hdr = subst IsHeader (some-injective h hdr (sym e' ∙ e)) fits in
      let out = record hdr { ssrc = k.rewritten_ssrc } in
      let out_fits : IsHeader out = record {
        version-lt = fits'.version-lt;
        csrc_count-lt = fits'.csrc_count-lt;
        payload_type-lt = fits'.payload_type-lt;
        sequence_number-lt = fits'.sequence_number-lt;
        timestamp-lt = fits'.timestamp-lt;
        ssrc-lt = range.rewritten_ssrc-lt;
      } in
      rw (e, rewrite_lem hdr k fits' range)
        (
          parse-write out buf out_fits long,
          (write-rest buf out).0,
          (write-rest buf out).1,
          refl,
          mapped-InRange hdr k fits' range,
          λ pid small. omega arith,
        )
]
