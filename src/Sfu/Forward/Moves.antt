-- ===== src/Sfu/Forward/Moves.antt =====
-- Router::onRtpPacket: what the loop's body for one consumer leaves as it is.
use namecon.Sfu.Forward.{rewrite_rtp_header, count_if, send_if_srtp, send_if_subscriber, forward_to}
use namecon.Common.{
  ℕ, ◌≡◌, ◌≢◌, refl, sym, ap, ◌∙◌, List, [], ◌++◌, Option, none, some, length, if_elim,
}
use namecon.Common.Store.{update, update-ne, update_elim}
use mathlib.Core.List.{append-nil}
use namecon.Sfu.Types.{Consumer, Peer}
use text.Mathlib.Text.{◌==◌ as str_eq}
use namecon.Common.Bytes.{Bytes}
use namecon.Transport.Srtp.{Lib, SrtpContext, protect}
use namecon.Sfu.State.{Router, Datagram, set_consumer, sent_on}

module _ {S D : Type 0} ⦃lib : Lib S⦄ where
  -- What the loop's body for one consumer leaves as it is.
  pub record Moves (c : ℕ) (k : Consumer) (r r' : Router S D) : Type 0 where
    pub others : (d : ℕ) → c ≢ d → r'.consumers d ≡ r.consumers d
    pub endpoints : (j : ℕ) → (r'.peers j).remote_ep ≡ (r.peers j).remote_ep
    pub contexts : (j : ℕ) → k.subscriber ≢ some j → (r'.peers j).srtp ≡ (r.peers j).srtp
    pub more : (news : List Datagram) × (r'.sent ≡ r.sent ++ news)

  Moves-refl : (c : ℕ) (k : Consumer) (r : Router S D) → Moves c k r r
  Moves-refl c k r = record {
    others = λ d n. refl;
    endpoints = λ j. refl;
    contexts = λ j n. refl;
    more = ([], sym (append-nil r.sent));
  }

  abbrev with_context : ℕ → SrtpContext S → Router S D → Peer S D
  with_context q ctx r = record (r.peers q) { srtp = some ctx }

  endpoints_kept :
      (q : ℕ) (ctx : SrtpContext S) (r : Router S D) (j : ℕ)
      → (update r.peers q (with_context q ctx r) j).remote_ep ≡ (r.peers j).remote_ep
  endpoints_kept q ctx r j =
      update_elim (λ j (x : Peer S D). x.remote_ep ≡ (r.peers j).remote_ep) r.peers q
        (with_context q ctx r) refl (λ j _. refl) j

  contexts_kept :
      (q : ℕ) (o : Option ℕ) (ctx : SrtpContext S) (r : Router S D) (j : ℕ)
      → o ≡ some q
      → o ≢ some j
      → (update r.peers q (with_context q ctx r) j).srtp ≡ (r.peers j).srtp
  contexts_kept q o ctx r j e n =
      ap (λ (x : Peer S D). x.srtp)
        (update-ne r.peers q (with_context q ctx r) j (λ same. n (e ∙ ap some same)))

  Moves-sent :
      (q c len : ℕ) (k k' : Consumer) (out : SrtpContext S × Option Bytes) (r : Router S D)
      → k.subscriber ≡ some q
      → Moves c k r (
          count_if
            (sent_on q out (set_consumer c k' r)).1
            len
            c
            k'
            (sent_on q out (set_consumer c k' r)).0)
  Moves-sent q c len k k' (ctx, none) r to = record {
    others = λ d n. update-ne r.consumers c (some k') d n;
    endpoints = endpoints_kept q ctx r;
    contexts = λ j n. contexts_kept q k.subscriber ctx r j to n;
    more = ([], sym (append-nil r.sent));
  }
  Moves-sent q c len k k' (ctx, some payload) r to = record {
    others = λ d n.
        update-ne (update r.consumers c (some k')) c _ d n ∙ update-ne r.consumers c (some k') d n;
    endpoints = endpoints_kept q ctx r;
    contexts = λ j n. contexts_kept q k.subscriber ctx r j to n;
    more = (_, refl);
  }

  pub Moves-forward_to :
      (plain : Bytes) (c : ℕ) (k : Consumer) (r : Router S D) → Moves c k r (forward_to plain c k r)
  unfolding forward_to
  Moves-forward_to plain c k r =
      if_elim (Moves c k r) k.active _ _ (to_subscriber k.subscriber refl) (Moves-refl c k r)
    where
      to_peer :
          (q : ℕ) (o : Option (SrtpContext S))
          → k.subscriber ≡ some q
          → Moves c k r (send_if_srtp plain c k q o r)
      to_peer q none to = Moves-refl c k r
      to_peer q (some ctx) to =
          if_elim (Moves c k r) (str_eq k.recv_mid "") _ _ (Moves-refl c k r) (
            Moves-sent q c (length plain) k (rewrite_rtp_header plain k).1
              (protect ctx (rewrite_rtp_header plain k).0) r to)

      to_subscriber :
          (o : Option ℕ) → k.subscriber ≡ o → Moves c k r (send_if_subscriber plain c k o r)
      to_subscriber none to = Moves-refl c k r
      to_subscriber (some q) to = to_peer q (r.peers q).srtp to
