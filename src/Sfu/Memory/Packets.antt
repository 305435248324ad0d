-- ===== src/Sfu/Memory/Packets.antt =====
-- Router::onRtpPacket and the router's invariant.
use namecon.Common.Bytes.{Bytes}
use namecon.Transport.Srtp.{Lib, SrtpContext, protect}
use namecon.Common.{
  ℕ, ◌≡◌, ◌≢◌, refl, ◌∙◌, ap, List, [], ◌∷◌, Option, none, some, arith, Bool, true, false,
  Bool-cases, if_elim, length, Option-cases, inl, inr,
}
use namecon.Sfu.State.{Router, set_consumer, sent_on}
use text.Mathlib.Text.{◌==◌ as str_eq}
use namecon.Common.Store.{update_self}
use mathlib.Core.List.{Memᴰ}
use namecon.Rtp.{RtpHeader, parse}
use namecon.Sfu.Types.{Consumer}
use namecon.Sfu.Forward.{
  rewrite_rtp_header, count_sent, count_if, send_rtp, forward_to, forward, targets_of,
  on_rtp_packet, send_if_srtp, send_if_subscriber,
}
use namecon.Sfu.Memory.{Inv}
use namecon.Sfu.Memory.Keeps.{
  SameRefs, SameRefs-refl, Keeps, Keeps-refl, Keeps-trans, Keeps-Inv, Keeps-set_consumer,
  Keeps-sent_on,
}
use namecon.Sfu.Memory.Produce.{find_or_create_producer-Inv}

rewrite-SameRefs : (buf : Bytes) (k : Consumer) → SameRefs k (rewrite_rtp_header buf k).1
unfolding rewrite_rtp_header
rewrite-SameRefs buf k = elim (Option-cases (parse buf)) [
  | inl e ↦ rw e (SameRefs-refl k)
  | inr (hdr, e) ↦ rw e (elim (Bool-cases k.seq_initialized) [
    | inl later ↦ rw later (ground arith)
    | inr first ↦ rw first (ground arith)
  ])
]

module _ {S D : Type 0} ⦃lib : Lib S⦄ where
  pub sent_on-consumers :
      (q : ℕ) (out : SrtpContext S × Option Bytes) (r : Router S D)
      → (sent_on q out r).0.consumers ≡ r.consumers
  sent_on-consumers q (ctx, none) r = refl
  sent_on-consumers q (ctx, some out) r = refl

  Keeps-count_if :
      (sent : Bool) (len c : ℕ) (k : Consumer) (r : Router S D)
      → r.consumers c ≡ some k
      → Keeps r (count_if sent len c k r)
  Keeps-count_if true len c k r e = Keeps-set_consumer c k (count_sent len k) r e (ground arith)
  Keeps-count_if false len c k r e = Keeps-refl r

  Keeps-send_rtp :
      (plain : Bytes) (c : ℕ) (k : Consumer) (q : ℕ) (ctx : SrtpContext S) (r : Router S D)
      → r.consumers c ≡ some k
      → Keeps r (send_rtp plain c k q ctx r)
  Keeps-send_rtp plain c k q ctx r e =
      let out = (rewrite_rtp_header plain k).0 in
      let k' = (rewrite_rtp_header plain k).1 in
      let r₁ = set_consumer c k' r in
      let r₂ = (sent_on q (protect ctx out) r₁).0 in
      let w₁ = Keeps-set_consumer c k k' r e (rewrite-SameRefs plain k) in
      let w₂ = Keeps-sent_on q (protect ctx out) r₁ in
      let e₂ : r₂.consumers c ≡ some k' =
        ap (λ (f : ℕ → Option Consumer). f c) (sent_on-consumers q (protect ctx out) r₁)
        ∙ update_self r.consumers c (some k') in
      Keeps-trans r r₁ _ w₁ (
        Keeps-trans r₁ r₂ _ w₂
          (Keeps-count_if (sent_on q (protect ctx out) r₁).1 (length plain) c k' r₂ e₂))

  Keeps-send_if_srtp :
      (plain : Bytes) (c : ℕ) (k : Consumer) (q : ℕ) (o : Option (SrtpContext S)) (r : Router S D)
      → r.consumers c ≡ some k
      → Keeps r (send_if_srtp plain c k q o r)
  Keeps-send_if_srtp plain c k q none r e = Keeps-refl r
  Keeps-send_if_srtp plain c k q (some ctx) r e =
      if_elim (Keeps r) (str_eq k.recv_mid "") _ _ (Keeps-refl r)
        (Keeps-send_rtp plain c k q ctx r e)

  Keeps-send_if_subscriber :
      (plain : Bytes) (c : ℕ) (k : Consumer) (o : Option ℕ) (r : Router S D)
      → r.consumers c ≡ some k
      → Keeps r (send_if_subscriber plain c k o r)
  Keeps-send_if_subscriber plain c k none r e = Keeps-refl r
  Keeps-send_if_subscriber plain c k (some q) r e =
      Keeps-send_if_srtp plain c k q (r.peers q).srtp r e

  pub Keeps-forward_to :
      (plain : Bytes) (c : ℕ) (k : Consumer) (r : Router S D)
      → r.consumers c ≡ some k
      → Keeps r (forward_to plain c k r)
  unfolding forward_to
  Keeps-forward_to plain c k r e =
      if_elim (Keeps r) k.active _ _ (Keeps-send_if_subscriber plain c k k.subscriber r e)
        (Keeps-refl r)

  -- The loop over pointers that are alive ends, whatever other objects there are.
  pub forward-Keeps :
      (plain : Bytes) (cs : List ℕ) (r : Router S D)
      → ((c : ℕ) → Memᴰ c cs → (k : Consumer) × (r.consumers c ≡ some k))
      → (r' : Router S D) × (forward plain cs r ≡ some r') × Keeps r r'
  unfolding forward
  forward-Keeps plain [] r alive = (r, refl, Keeps-refl r)
  forward-Keeps plain (c ∷ cs) r alive =
      let (k, e) = alive c (Memᴰ.head refl) in
      let r₁ = forward_to plain c k r in
      let w = Keeps-forward_to plain c k r e in
      let (r', done, w') = forward-Keeps plain cs r₁ (λ d m.
        let (x, ex) = alive d (Memᴰ.tail m) in let (x', ex', _) = w.alive d x ex in (x', ex')) in
      (r', rw e done, Keeps-trans r r₁ r' w w')

  -- Under the invariant a packet that has no header, or whose SSRC is not 0, is handled without a
  -- read of a freed object, and the invariant holds after it.
  pub on_rtp_packet-Inv :
      (video_pts : ℕ → Bool) (plain : Bytes) (q : ℕ) (r : Router S D)
      → ((h : RtpHeader) → parse plain ≡ some h → h.ssrc ≢ 0)
      → Inv r
      → (r' : Router S D) × (on_rtp_packet video_pts plain q r ≡ some r') × Inv r'
  unfolding on_rtp_packet targets_of
  on_rtp_packet-Inv video_pts plain q r good v = elim (Option-cases (parse plain)) [
    | inl short ↦ (r, rw short refl, v)
    | inr (h, e) ↦
        let (r₁, p, made, v₁, _, alive) =
          find_or_create_producer-Inv q h.ssrc (video_pts h.payload_type) r (good h e) v in
        let (r₂, done, w) = forward-Keeps plain p.consumers r₁ alive in
        (r₂, rw e (rw made done), Keeps-Inv r₁ r₂ w v₁)
  ]
