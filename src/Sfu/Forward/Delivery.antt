-- ===== src/Sfu/Forward/Delivery.antt =====
-- Router::onRtpPacket: the packet reaches the subscribers of its producer.
use namecon.Sfu.Forward.{
  forward, rewrite_rtp_header, count_if, send_if_srtp, send_if_subscriber, send_rtp, forward_to,
  targets_of, on_rtp_packet,
}
use namecon.Common.{
  ℕ, ◌≡◌, ◌≢◌, refl, sym, ap, ◌∙◌, Bool, true, false, List, [], ◌∷◌, ◌++◌, Option, none, some, All,
  length, drop, Bool-cases, inl, inr, ◌==◌, ==_iff, if◌then◌else◌, arith,
}
use namecon.Common.Store.{bind-some}
use mathlib.Core.List.{append_assoc, Memᴰ, append-nil}
use mathlib.Core.Path.{subst}
use namecon.Sfu.Types.{Endpoint, Consumer, Producer}
use mathlib.Core.Option.{some-injective}
use text.Mathlib.Text.{◌==◌ as str_eq}
use namecon.Common.Bytes.{Bytes, IsByte}
use namecon.Transport.Srtp.{Lib, SrtpContext, protect}
use namecon.Sfu.State.{SendsWith, Router, Datagram, set_consumer, sent_on}
use namecon.Rtp.{RtpHeader, parse}
use namecon.Sfu.Setup.{find_producer, find_or_create_producer}
use namecon.Sfu.Forward.Moves.{Moves-forward_to}
use namecon.Sfu.Memory.Keeps.{Keeps}
use namecon.Sfu.Forward.Rewrite.{InRange, rewrite_rtp_header_lem}
use namecon.Sfu.Memory.{Inv}
use namecon.Sfu.Memory.Producers.{find_producer-some, Linked-ne-zero}
use namecon.Sfu.Memory.Packets.{on_rtp_packet-Inv, Keeps-forward_to}

abbrev forwarded : Bytes → Consumer → Bytes
forwarded plain k = (rewrite_rtp_header plain k).0

-- Between two lists of sent datagrams, this one.
abbrev pub Got : Datagram → List Datagram → List Datagram → Type 0
Got d before after =
    (xs : List Datagram) × (ys : List Datagram) × (after ≡ before ++ (xs ++ d ∷ ys))

Got-after : (d : Datagram) (a b c n : List Datagram) → c ≡ b ++ n → Got d a b → Got d a c
Got-after d a b c n e (xs, ys, grows) = (
  xs,
  ys ++ n,
  e
      ∙ ap (λ l. l ++ n) grows
      ∙ append_assoc a (xs ++ d ∷ ys) n
      ∙ ap (λ l. a ++ l) (append_assoc xs (d ∷ ys) n),
)

Got-before : (d : Datagram) (a b c n : List Datagram) → b ≡ a ++ n → Got d b c → Got d a c
Got-before d a b c n e (xs, ys, grows) = (
  n ++ xs,
  ys,
  grows
      ∙ ap (λ l. l ++ (xs ++ d ∷ ys)) e
      ∙ append_assoc a n (xs ++ d ∷ ys)
      ∙ ap (λ l. a ++ l) (sym (append_assoc n xs (d ∷ ys))),
)

-- A consumer in memory that is active, has a mid, and whose subscriber's SRTP context is keyed, with
-- this session for what it sends.
pub record Receives {S D : Type 0} (c sub : ℕ) (s : S) (k : Consumer) (r : Router S D)
    : Type 0 where
  pub stored : r.consumers c ≡ some k
  pub is_active : k.active ≡ true
  pub subscribed : k.subscriber ≡ some sub
  pub negotiated : str_eq k.recv_mid "" ≡ false
  pub keyed : SendsWith sub s r

tail_of : {d c : ℕ} {cs : List ℕ} → d ≢ c → Memᴰ c (d ∷ cs) → Memᴰ c cs
tail_of ne (Memᴰ.head e) = absurd (ne (sym e))
tail_of ne (Memᴰ.tail t) = t

protect-some :
    {S : Type 0} ⦃lib : Lib S⦄ (ctx : SrtpContext S) (s : S) (buf payload : Bytes)
    → ctx.inited ≡ true
    → ctx.srtp_out ≡ some s
    → (lib.srtp_protect s buf).1 ≡ some payload
    → (protect ctx buf).1 ≡ some payload
unfolding protect
protect-some ctx s buf payload on out taken = rw (on, out) taken

module _ {S D : Type 0} where
  abbrev then_sent : Endpoint → Bytes → Router S D → List Datagram
  then_sent ep payload r = r.sent ++ record { target = ep; payload = payload } ∷ []

  sent_once :
      ⦃lib : Lib S⦄ (q c len : ℕ) (k : Consumer) (out : SrtpContext S × Option Bytes)
      (payload : Bytes) (r : Router S D)
      → out.1 ≡ some payload
      → (count_if (sent_on q out r).1 len c k (sent_on q out r).0).sent
        ≡ then_sent (r.peers q).remote_ep payload r
  sent_once q c len k (ctx, none) payload r e = cc
  sent_once q c len k (ctx, some out) payload r e =
      ap (λ p. then_sent (r.peers q).remote_ep p r) (some-injective out payload e)

  sent_by_body :
      ⦃lib : Lib S⦄ (plain : Bytes) (c sub : ℕ) (k : Consumer) (ctx : SrtpContext S)
      (payload : Bytes) (r : Router S D)
      → k.active ≡ true
      → k.subscriber ≡ some sub
      → str_eq k.recv_mid "" ≡ false
      → (r.peers sub).srtp ≡ some ctx
      → (protect ctx (forwarded plain k)).1 ≡ some payload
      → (forward_to plain c k r).sent ≡ then_sent (r.peers sub).remote_ep payload r
  unfolding forward_to
  sent_by_body plain c sub k ctx payload r is_active subscribed negotiated has done =
      let told = then_sent (r.peers sub).remote_ep payload r in
      subst (λ b. (if b then send_if_subscriber plain c k k.subscriber r else r).sent ≡ told)
        (sym is_active)
        (subst (λ o. (send_if_subscriber plain c k o r).sent ≡ told) (sym subscribed)
          (subst (λ o. (send_if_srtp plain c k sub o r).sent ≡ told) (sym has)
            (subst (λ b. (if b then r else send_rtp plain c k sub ctx r).sent ≡ told)
              (sym negotiated)
              (sent_once sub c (length plain) (rewrite_rtp_header plain k).1
                (protect ctx (forwarded plain k)) payload
                (set_consumer c (rewrite_rtp_header plain k).1 r) done))))

module _ {S D : Type 0} ⦃lib : Lib S⦄ (plain : Bytes) (c sub : ℕ) (s : S) (k : Consumer)
    (out : Bytes) (takes : (lib.srtp_protect s (forwarded plain k)).1 ≡ some out) where
  abbrev to_sub : Router S D → Datagram
  to_sub r = record { target = (r.peers sub).remote_ep; payload = out }

  forward_to-Got :
      (r : Router S D) → Receives c sub s k r → Got (to_sub r) r.sent (forward_to plain c k r).sent
  forward_to-Got r h =
      let (ctx, has, on, set) = h.keyed in
      (
        [],
        [],
        sent_by_body plain c sub k ctx out r h.is_active h.subscribed h.negotiated has
            (protect-some ctx s (forwarded plain k) out on set takes),
      )

  more_sent :
      (cs : List ℕ) (r r' : Router S D)
      → forward plain cs r ≡ some r'
      → (news : List Datagram) × (r'.sent ≡ r.sent ++ news)
  unfolding forward
  more_sent [] r r' e =
      ([], ap (λ (x : Router S D). x.sent) (sym (some-injective r r' e)) ∙ sym (append-nil r.sent))
  more_sent (d ∷ cs) r r' e =
      let (k', at_, rest) =
        bind-some (r.consumers d) (λ k. forward plain cs (forward_to plain d k r)) r' e in
      let (news, grown) = more_sent cs (forward_to plain d k' r) r' rest in
      let (first, moved) = (Moves-forward_to plain d k' r).more in
      (first ++ news, grown ∙ ap (λ l. l ++ news) moved ∙ append_assoc r.sent first news)

  -- No other consumer on the list is of the same subscriber.
  abbrev Alone : List ℕ → Router S D → Type 0
  Alone cs r =
      (d : ℕ) (x : Consumer) → Memᴰ d cs → d ≢ c → r.consumers d ≡ some x → x.subscriber ≢ some sub

  Alone-later :
      (d : ℕ) (cs : List ℕ) (r r' : Router S D) → Keeps r r' → Alone (d ∷ cs) r → Alone cs r'
  Alone-later d cs r r' w alone e x m n at_ same =
      let (x₀, at₀) = w.back e x at_ in
      let (x₁, at₁, refs) = w.alive e x₀ at₀ in
      let x₁_is : x₁ ≡ x = some-injective x₁ x (sym at₁ ∙ at_) in
      alone e x₀ (Memᴰ.tail m) n at₀
        (sym refs.subscriber ∙ ap (λ (z : Consumer). z.subscriber) x₁_is ∙ same)

  forward-Got :
      (cs : List ℕ) (r r' : Router S D)
      → forward plain cs r ≡ some r'
      → Memᴰ c cs
      → Receives c sub s k r
      → Alone cs r
      → Got (to_sub r) r.sent r'.sent
  unfolding forward
  forward-Got [] r r' e m h alone = elim m [ ]
  forward-Got (d ∷ cs) r r' e m h alone =
      let (k', at_, rest) =
        bind-some (r.consumers d) (λ k. forward plain cs (forward_to plain d k r)) r' e in
      elim (Bool-cases (d == c)) [
        | inl hit ↦
            let here : d ≡ c = (==_iff d c).0 hit in
            let same : k' ≡ k = some-injective k' k (sym at_ ∙ ap r.consumers here ∙ h.stored) in
            let (news, grown) = more_sent cs (forward_to plain c k r) r' (
              subst (λ x. forward plain cs (forward_to plain c x r) ≡ some r') same
                (subst (λ x. forward plain cs (forward_to plain x k' r) ≡ some r') here rest)) in
            Got-after (to_sub r) r.sent (forward_to plain c k r).sent r'.sent news grown
              (forward_to-Got r h)
        | inr miss ↦
            let ne : d ≢ c = λ p. ground arith in
            let r₁ = forward_to plain d k' r in
            let mv = Moves-forward_to plain d k' r in
            let (ctx, has, on, set) = h.keyed in
            let later : Receives c sub s k r₁ = record {
              stored = mv.others c ne ∙ h.stored;
              is_active = h.is_active;
              subscribed = h.subscribed;
              negotiated = h.negotiated;
              keyed = (ctx, mv.contexts sub (alone d k' (Memᴰ.head refl) ne at_) ∙ has, on, set);
            } in
            Got-before (to_sub r) r.sent r₁.sent r'.sent mv.more.0 mv.more.1 (
              subst (λ ep. Got (record { target = ep; payload = out }) r₁.sent r'.sent)
                (mv.endpoints sub)
                (forward-Got cs r₁ r' rest (tail_of ne m) later
                  (Alone-later d cs r r₁ (Keeps-forward_to plain d k' r at_) alone)))
      ]

-- A packet whose producer exists goes straight to the loop.
found-forward :
    {S D : Type 0} ⦃lib : Lib S⦄ (video_pts : ℕ → Bool) (plain : Bytes) (hdr : RtpHeader) (q : ℕ)
    (p : Producer) (r : Router S D)
    → parse plain ≡ some hdr
    → find_producer hdr.ssrc (r.peers q).producers ≡ some p
    → on_rtp_packet video_pts plain q r ≡ forward plain p.consumers r
unfolding on_rtp_packet targets_of find_or_create_producer
found-forward video_pts plain hdr q p r e found = rw (e, found) refl

-- A packet of bytes with an RTP header, of a peer that has a producer for its SSRC, is handled, and
-- the router's invariant holds after it. A consumer of the producer that is active, has a mid and a
-- subscriber with keys, who has no other consumer of this producer, and whose counters fit their
-- widths, makes the router send the subscriber a datagram: what libsrtp makes, in this subscriber's
-- session, of the packet under the consumer's SSRC with every other field of the header and every
-- byte past it as it was; where libsrtp takes that. Nothing that was sent before is lost.
pub rtp_delivered :
    {S D : Type 0} ⦃lib : Lib S⦄ (video_pts : ℕ → Bool) (plain : Bytes) (hdr : RtpHeader)
    (q c sub : ℕ) (s : S) (k : Consumer) (out : Bytes) (p : Producer) (r : Router S D)
    → All IsByte plain
    → parse plain ≡ some hdr
    → Inv r
    → find_producer hdr.ssrc (r.peers q).producers ≡ some p
    → Memᴰ c p.consumers
    → InRange k
    → Receives c sub s k r
    → ((d : ℕ) (x : Consumer)
        → Memᴰ d p.consumers
        → d ≢ c
        → r.consumers d ≡ some x
        → x.subscriber ≢ some sub)
    → (lib.srtp_protect s (rewrite_rtp_header plain k).0).1 ≡ some out
    → (r' : Router S D) × (on_rtp_packet video_pts plain q r ≡ some r')
      × Inv r'
      × Got (record { target = (r.peers sub).remote_ep; payload = out }) r.sent r'.sent
      × (parse (rewrite_rtp_header plain k).0 ≡ some (record hdr { ssrc = k.rewritten_ssrc }))
      × (drop 12 (rewrite_rtp_header plain k).0 ≡ drop 12 plain)
rtp_delivered video_pts plain hdr q c sub s k out p r ok e v found m range h alone takes =
    let (at_s, links) = find_producer-some hdr.ssrc (r.peers q).producers p found in
    let ne : hdr.ssrc ≢ 0 =
      Linked-ne-zero c hdr.ssrc (r.peers q).producers (v.distinct q) (links c m) in
    let (r', done, v') =
      on_rtp_packet-Inv video_pts plain q r
        (λ x ex. subst (λ (y : RtpHeader). y.ssrc ≢ 0) (some-injective hdr x (sym e ∙ ex)) ne) v in
    let (header, _, body, _, _, _) = rewrite_rtp_header_lem plain hdr k ok range e in
    (
      r',
      done,
      v',
      forward-Got plain c sub s k out takes p.consumers r r'
          (sym (found-forward video_pts plain hdr q p r e found) ∙ done) m h alone,
      header,
      body,
    )
