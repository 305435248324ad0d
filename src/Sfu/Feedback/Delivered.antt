-- ===== src/Sfu/Feedback/Delivered.antt =====
-- Router::onRtcpPacket: the datagram that a subscriber's feedback makes the router send.
use mathlib.Core.Path.{subst}
use mathlib.Core.Option.{some-injective}
use namecon.Common.{
  ℕ, ◌+◌, ◌^◌, ◌<◌, ◌≡◌, refl, ap, ◌∙◌, true, List, [], ◌∷◌, ◌++◌, Option, none, some, length, take,
  arith, ltb,
}
use namecon.Common.Bytes.{Bytes, be16, be32, be32-back, memcpy-nil}
use namecon.Common.Store.{lookup}
use namecon.Transport.Srtp.{Lib, SrtpContext, protect_rtcp}
use namecon.Sfu.Types.{Consumer}
use namecon.Sfu.State.{SendsWith, Router, Datagram, sent_on, send_rtcp, protected_rtcp}
use namecon.Sfu.Mids.{find_consumer_by_out_ssrc}
use namecon.Sfu.Feedback.{on_rtcp_packet, handle_sub, handle_rr, rr_to_publisher}
use namecon.Sfu.Feedback.Translate.{on_rtcp_packet_last}

-- An RR of one report block, the rest of which is `block`.
abbrev pub rr_bytes : ℕ → ℕ → Bytes → Bytes
rr_bytes sender about block = (0x81 ∷ 201 ∷ be16 7) ++ (be32 sender ++ (be32 about ++ block))

take_all : (n : ℕ) (p : Bytes) → length p ≡ n → take n p ≡ p
take_all n p e = subst (λ n. take n p ≡ p) e (whole p)
  where
    whole : (p : Bytes) → take (length p) p ≡ p
    whole [] = refl
    whole (b ∷ p) = ap (λ x. b ∷ x) (whole p)

protect_rtcp-some :
    {S : Type 0} ⦃lib : Lib S⦄ (ctx : SrtpContext S) (s : S) (pkt out : Bytes)
    → ctx.inited ≡ true
    → ctx.srtp_out ≡ some s
    → (lib.srtp_protect_rtcp s pkt).1 ≡ some out
    → (protect_rtcp ctx pkt).1 ≡ some out
unfolding protect_rtcp
protect_rtcp-some ctx s pkt out on has done = rw (on, has) done

module _ {S D : Type 0} ⦃lib : Lib S⦄ where
  abbrev then_sent : ℕ → Bytes → Router S D → List Datagram
  then_sent q out r = r.sent ++ record { target = (r.peers q).remote_ep; payload = out } ∷ []

  sent_on-sent :
      (q : ℕ) (res : SrtpContext S × Option Bytes) (out : Bytes) (r : Router S D)
      → res.1 ≡ some out
      → (sent_on q res r).0.sent ≡ then_sent q out r
  sent_on-sent q (ctx, none) out r e = cc
  sent_on-sent q (ctx, some x) out r e = ap (λ x. then_sent q x r) (some-injective x out e)

  send_rtcp-sent :
      (q : ℕ) (s : S) (pkt out : Bytes) (r : Router S D)
      → SendsWith q s r
      → (lib.srtp_protect_rtcp s pkt).1 ≡ some out
      → (send_rtcp q pkt r).0.sent ≡ then_sent q out r
  unfolding send_rtcp
  send_rtcp-sent q s pkt out r (ctx, e, on, has) done =
      rw e
        (sent_on-sent q (protect_rtcp ctx pkt) out r (protect_rtcp-some ctx s pkt out on has done))

  -- The consumer that an SSRC leads to, its publisher, and the session of the publisher's SRTP.
  pub record Leads (ssrc q : ℕ) (s : S) (k : Consumer) (r : Router S D) : Type 0 where
    pub address : ℕ
    pub entered : lookup ssrc r.out_ssrcs ≡ some address
    pub stored : r.consumers address ≡ some k
    pub published : k.publisher ≡ some q
    pub keyed : SendsWith q s r

  rr_to_publisher-sent :
      (o : Option ℕ) (q : ℕ) (s : S) (pkt out : Bytes) (r : Router S D)
      → o ≡ some q
      → SendsWith q s r
      → (lib.srtp_protect_rtcp s pkt).1 ≡ some out
      → length pkt < length out
      → ((rr_to_publisher o pkt r).sent ≡ then_sent q out r)
        × ((rr_to_publisher o pkt r).overruns ≡ (send_rtcp q pkt r).0.overruns + 1)
  rr_to_publisher-sent o q s pkt out r e (ctx, has, on, set) done longer =
      let past : ltb (length pkt) (length out) ≡ true = ground arith in
      let sent = send_rtcp-sent q s pkt out r (ctx, has, on, set) done in
      rw (e, has, protect_rtcp-some ctx s pkt out on set done, past) (sent, refl)

  send_rtcp-overruns :
      (q : ℕ) (pkt : Bytes) (r : Router S D) → (send_rtcp q pkt r).0.overruns ≡ r.overruns
  unfolding send_rtcp
  send_rtcp-overruns q pkt r = by_context (r.peers q).srtp
    where
      by_result : (res : SrtpContext S × Option Bytes) → (sent_on q res r).0.overruns ≡ r.overruns
      by_result (ctx, none) = refl
      by_result (ctx, some out) = refl

      by_context : (o : Option (SrtpContext S)) → (protected_rtcp q pkt o r).0.overruns ≡ r.overruns
      by_context none = refl
      by_context (some ctx) = by_result (protect_rtcp ctx pkt)

  -- An RR of one report block, whose sender's SSRC leads to a consumer whose publisher's SRTP
  -- context is keyed, is sent on to the publisher's endpoint with the publisher's own SSRC in the
  -- block, as libsrtp makes it in that publisher's session. Where that is longer than the RR, as
  -- with the trailer of SRTCP, the write goes past the end of the vector it is made in.
  pub rr_overruns :
      (sender about q : ℕ) (block : Bytes) (s : S) (out : Bytes) (k : Consumer) (r : Router S D)
      → sender < 2 ^ 32
      → length block ≡ 20
      → Leads sender q s k r
      → (lib.srtp_protect_rtcp s (rr_bytes sender k.publisher_ssrc block)).1 ≡ some out
      → 32 < length out
      → (r' : Router S D) × (on_rtcp_packet (rr_bytes sender about block) r ≡ some r')
        × (r'.sent ≡ r.sent ++ record { target = (r.peers q).remote_ep; payload = out } ∷ [])
        × (r'.overruns ≡ r.overruns + 1)
  unfolding handle_sub handle_rr find_consumer_by_out_ssrc
  rr_overruns sender about q block s out k r fits whole h done longer =
      let pkt = rr_bytes sender k.publisher_ssrc block in
      let (sent, past) =
        rr_to_publisher-sent k.publisher q s pkt out r h.published h.keyed done (omega arith) in
      (
        rr_to_publisher k.publisher pkt r,
        on_rtcp_packet_last (rr_bytes sender about block) r (omega arith) (omega arith)
            ∙ rw
                (
                  whole,
                  be32-back sender fits,
                  h.entered,
                  h.stored,
                  take_all 20 block whole,
                  whole,
                  memcpy-nil block,
                )
                refl,
        sent,
        past ∙ ap (λ n. n + 1) (send_rtcp-overruns q pkt r),
      )
