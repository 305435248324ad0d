-- ===== src/Sfu/Memory/Reports.antt =====
-- Router::onRtcpPacket, generateAndSendSR and bindConsumerByMid, and the router's invariant.
use namecon.Sfu.Feedback.{
  rtcp_is_rr, rtcp_is_nack, orig_pid, rtcp_is_pli, nack_for, rr_for, translate, to_publisher,
  rr_to_publisher, rr_overrun, past_end, handle_pli, handle_nack, handle_rr, handle_sub, rtcp_loop,
  on_rtcp_packet, sub_length, generate_and_send_sr, sr_to, sr_sent_if, ntp_timestamp, sr_for,
}
use namecon.Common.Bytes.{read16, Bytes, read32}
use namecon.Transport.Srtp.{protect_rtcp, Lib, SrtpContext}
use namecon.Common.{
  take, ℕ, zero, suc, ◌≡◌, refl, ◌∙◌, ap, ◌<◌, List, [], ◌∷◌, Option, none, some, arith, Bool, true,
  false, Bool-cases, if_elim, if_cases, length, drop, length-drop, Option-cases, inl, inr, ltb,
}
use namecon.Sfu.Setup.{pli_for}
use namecon.Sfu.State.{protected_rtcp, Router, set_consumer, send_rtcp}
use Prim.Native.String.{String}
use namecon.Common.Store.{lookup}
use mathlib.Core.List.{Memᴰ}
use namecon.Sfu.Types.{Consumer}
use namecon.Sfu.Mids.{find_consumer_by_out_ssrc, bind_mid, bind_consumer_by_mid, is_from}
use namecon.Sfu.Memory.{Inv}
use namecon.Sfu.Memory.Keeps.{
  Keeps, Keeps-refl, Keeps-trans, Keeps-Inv, Keeps-set_consumer, Keeps-send_rtcp,
}
use namecon.Sfu.Memory.Packets.{sent_on-consumers}

module _ {S D : Type 0} ⦃lib : Lib S⦄ where
  Keeps-to_publisher :
      (o : Option ℕ) (pkt : Bytes) (r : Router S D) → Keeps r (to_publisher o pkt r)
  Keeps-to_publisher none pkt r = Keeps-refl r
  Keeps-to_publisher (some q) pkt r = Keeps-send_rtcp q pkt r

  abbrev Ends : Router S D → Option (Router S D) → Type 0
  Ends r o = (r' : Router S D) × (o ≡ some r') × Keeps r r'

  Keeps-past_end :
      (pkt : Bytes) (o : Option Bytes) (r r' : Router S D)
      → Keeps r r'
      → Keeps r (past_end pkt o r')
  Keeps-past_end pkt none r r' w = w
  Keeps-past_end pkt (some out) r r' w =
      if_elim (Keeps r) (ltb (length pkt) (length out)) _ _
        (record {
          alive = w.alive;
          back = w.back;
          next = w.next;
          subscriptions = w.subscriptions;
          streams = w.streams;
          entries = w.entries;
        })
        w

  Keeps-rr_overrun :
      (pkt : Bytes) (o : Option (SrtpContext S)) (r r' : Router S D)
      → Keeps r r'
      → Keeps r (rr_overrun pkt o r')
  Keeps-rr_overrun pkt none r r' w = w
  Keeps-rr_overrun pkt (some ctx) r r' w = Keeps-past_end pkt (protect_rtcp ctx pkt).1 r r' w

  Keeps-rr_to_publisher :
      (o : Option ℕ) (pkt : Bytes) (r : Router S D) → Keeps r (rr_to_publisher o pkt r)
  Keeps-rr_to_publisher none pkt r = Keeps-refl r
  Keeps-rr_to_publisher (some q) pkt r =
      Keeps-rr_overrun pkt (r.peers q).srtp r (send_rtcp q pkt r).0 (Keeps-send_rtcp q pkt r)

  translate-Keeps :
      (deliver : Option ℕ → Bytes → Router S D → Router S D) (s : ℕ) (make : Consumer → Bytes)
      (r : Router S D)
      → ((o : Option ℕ) (pkt : Bytes) → Keeps r (deliver o pkt r))
      → Inv r
      → Ends r (translate deliver (find_consumer_by_out_ssrc s r) make r)
  unfolding find_consumer_by_out_ssrc
  translate-Keeps deliver s make r kept v = elim (Option-cases (lookup s r.out_ssrcs)) [
    | inl absent ↦ rw absent (r, refl, Keeps-refl r)
    | inr (c, found) ↦
        let (k, e, _) = v.mapped s c found in
        (deliver k.publisher (make k) r, rw found (rw e refl), kept k.publisher (make k))
  ]

  handle_pli-Keeps : (p : Bytes) (r : Router S D) → Inv r → Ends r (handle_pli p r)
  unfolding handle_pli
  handle_pli-Keeps p r v =
      translate-Keeps to_publisher (read32 p 8) (λ k. pli_for k.publisher_ssrc) r
        (λ o pkt. Keeps-to_publisher o pkt r) v

  handle_nack-Keeps : (p : Bytes) (r : Router S D) → Inv r → Ends r (handle_nack p r)
  unfolding handle_nack
  handle_nack-Keeps p r v =
      translate-Keeps to_publisher (read32 p 8)
        (λ k. nack_for k.publisher_ssrc (orig_pid (read16 p 12) k) (read16 p 14)) r
        (λ o pkt. Keeps-to_publisher o pkt r) v

  handle_rr-Keeps : (p : Bytes) (len : ℕ) (r : Router S D) → Inv r → Ends r (handle_rr p len r)
  unfolding handle_rr
  handle_rr-Keeps p len r v =
      if_elim (Ends r) (ltb len 8) _ _ (r, refl, Keeps-refl r)
        (translate-Keeps rr_to_publisher (read32 p 4) (λ k. rr_for k.publisher_ssrc (take len p)) r
          (λ o pkt. Keeps-rr_to_publisher o pkt r) v)

  handle_sub-Keeps : (p : Bytes) (len : ℕ) (r : Router S D) → Inv r → Ends r (handle_sub p len r)
  unfolding handle_sub
  handle_sub-Keeps p len r v = if_elim (Ends r) (rtcp_is_pli p) _ _ (handle_pli-Keeps p r v) (
      if_elim (Ends r) (rtcp_is_nack p) _ _ (handle_nack-Keeps p r v)
        (if_elim (Ends r) (rtcp_is_rr p) _ _ (handle_rr-Keeps p len r v) (r, refl, Keeps-refl r)))

  rtcp_loop-Keeps :
      (fuel : ℕ) (p : Bytes) (r : Router S D)
      → length p < fuel
      → Inv r
      → Ends r (rtcp_loop fuel p r)
  unfolding rtcp_loop
  rtcp_loop-Keeps zero p r h v = absurd (omega arith)
  rtcp_loop-Keeps (suc fuel) p r h v =
      if_cases (Ends r) (ltb (length p) 4) _ _ (λ _. (r, refl, Keeps-refl r))
        λ long.
          if_elim (Ends r) (ltb (length p) (sub_length p)) _ _ (r, refl, Keeps-refl r)
            (let (r₁, done₁, w₁) = handle_sub-Keeps p (sub_length p) r v in
              let (r₂, done₂, w₂) =
                rtcp_loop-Keeps fuel (drop (sub_length p) p) r₁
                  (ground (arith, length-drop (sub_length p) p)) (Keeps-Inv r r₁ w₁ v) in
              (r₂, rw done₁ done₂, Keeps-trans r r₁ r₂ w₁ w₂))

  -- Under the invariant any RTCP buffer is worked through: the loop ends, no freed object is read,
  -- and the invariant holds after it.
  pub on_rtcp_packet-Inv :
      (rtcp : Bytes) (r : Router S D)
      → Inv r
      → (r' : Router S D) × (on_rtcp_packet rtcp r ≡ some r') × Inv r'
  unfolding on_rtcp_packet
  on_rtcp_packet-Inv rtcp r v =
      let (r', done, w) = rtcp_loop-Keeps (suc (length rtcp)) rtcp r (omega arith) v in
      (r', done, Keeps-Inv r r' w v)

  Keeps-sr_sent_if :
      (ntp c : ℕ) (k : Consumer) (r : Router S D) (out : Router S D × Bool)
      → Keeps r out.0
      → out.0.consumers c ≡ some k
      → Keeps r (sr_sent_if ntp c k out)
  Keeps-sr_sent_if ntp c k r (r', false) w e = w
  Keeps-sr_sent_if ntp c k r (r', true) w e =
      Keeps-trans r r' _ w (Keeps-set_consumer c k _ r' e (ground arith))

  send_rtcp-consumers :
      (q : ℕ) (pkt : Bytes) (r : Router S D) → (send_rtcp q pkt r).0.consumers ≡ r.consumers
  unfolding send_rtcp
  send_rtcp-consumers q pkt r = protected (r.peers q).srtp
    where
      protected :
          (o : Option (SrtpContext S)) → (protected_rtcp q pkt o r).0.consumers ≡ r.consumers
      protected none = refl
      protected (some ctx) = sent_on-consumers q (protect_rtcp ctx pkt) r

  Keeps-sr_to :
      (ntp c : ℕ) (k : Consumer) (o : Option ℕ) (r : Router S D)
      → r.consumers c ≡ some k
      → Keeps r (sr_to ntp c k o r)
  Keeps-sr_to ntp c k none r e = Keeps-refl r
  Keeps-sr_to ntp c k (some q) r e =
      Keeps-sr_sent_if ntp c k r (send_rtcp q (sr_for ntp k) r) (Keeps-send_rtcp q (sr_for ntp k) r)
        (ap (λ (f : ℕ → Option Consumer). f c) (send_rtcp-consumers q (sr_for ntp k) r) ∙ e)

  -- A sender report for an object that is alive.
  pub generate_and_send_sr-Inv :
      (now c : ℕ) (k : Consumer) (r : Router S D)
      → r.consumers c ≡ some k
      → Inv r
      → (r' : Router S D) × (generate_and_send_sr now c r ≡ some r') × Inv r'
  unfolding generate_and_send_sr
  generate_and_send_sr-Inv now c k r e v =
      let r' = sr_to (ntp_timestamp now) c k k.subscriber r in
      (r', rw e refl, Keeps-Inv r r' (Keeps-sr_to (ntp_timestamp now) c k k.subscriber r e) v)

module _ {S D : Type 0} where
  bind_mid-Keeps :
      (cs : List ℕ) (name : String) (is_video : Bool) (mid : String) (r : Router S D)
      → ((c : ℕ) → Memᴰ c cs → (k : Consumer) × (r.consumers c ≡ some k))
      → (s : ℕ) × (r' : Router S D) × (bind_mid cs name is_video mid r ≡ some (s, r')) × Keeps r r'
  unfolding bind_mid
  bind_mid-Keeps [] name is_video mid r alive = (0, r, refl, Keeps-refl r)
  bind_mid-Keeps (c ∷ cs) name is_video mid r alive =
      let (k, e) = alive c (Memᴰ.head refl) in
      elim (Bool-cases (is_from r.peers k name is_video)) [
        | inl hit ↦ (
          k.rewritten_ssrc,
          set_consumer c (record k { recv_mid = mid }) r,
          rw e (rw hit refl),
          Keeps-set_consumer c k (record k { recv_mid = mid }) r e (ground arith),
        )
        | inr miss ↦
            let (s, r', done, w) =
              bind_mid-Keeps cs name is_video mid r (λ d m. alive d (Memᴰ.tail m)) in
            (s, r', rw e (rw miss done), w)
      ]

  -- Binding a mid reads the subscriber's own consumers only, which are alive.
  pub bind_consumer_by_mid-Inv :
      (sub : ℕ) (name : String) (is_video : Bool) (mid : String) (r : Router S D)
      → Inv r
      → (s : ℕ) × (r' : Router S D) × (bind_consumer_by_mid sub name is_video mid r ≡ some (s, r'))
        × Inv r'
  unfolding bind_consumer_by_mid
  bind_consumer_by_mid-Inv sub name is_video mid r v =
      let (s, r', done, w) =
        bind_mid-Keeps (r.peers sub).consumers name is_video mid r
          (λ c m. let (k, e, _) = v.owned sub c m in (k, e)) in
      (s, r', done, Keeps-Inv r r' w v)
