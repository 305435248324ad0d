-- ===== src/Sfu/Memory/Keeps.antt =====
-- Operations that move counters, mids and SRTP contexts, and no pointer.
use mathlib.Core.Path.{subst}
use mathlib.Core.Option.{some-injective}
use namecon.Transport.Srtp.{protect_rtcp, Lib, SrtpContext}
use namecon.Common.{inr, inl, Option-cases, ℕ, ◌≡◌, refl, sym, ◌∙◌, ap, Option, none, some, arith}
use namecon.Common.Bytes.{Bytes}
use namecon.Common.Store.{update, update_self, update-ne, update_elim}
use native.Mathlib.Decide.{ℕ_discrete}
use namecon.Sfu.Types.{Consumer, Peer}
use namecon.Sfu.State.{Router, set_peer, set_consumer, sent_on, send_rtcp}
use namecon.Sfu.RouteTable.{bind}
use namecon.Sfu.Memory.{Inv}

-- What the invariant reads of an object is the same in both.
pub record SameRefs (k k' : Consumer) : Type 0 where
  pub subscriber : k'.subscriber ≡ k.subscriber
  pub publisher : k'.publisher ≡ k.publisher
  pub publisher_ssrc : k'.publisher_ssrc ≡ k.publisher_ssrc
  pub rewritten_ssrc : k'.rewritten_ssrc ≡ k.rewritten_ssrc

pub SameRefs-refl : (k : Consumer) → SameRefs k k
SameRefs-refl k = ground arith

pub SameRefs-trans : (a b c : Consumer) → SameRefs a b → SameRefs b c → SameRefs a c
SameRefs-trans a b c x y = ground arith

module _ {S D : Type 0} where
  pub record Keeps (r r' : Router S D) : Type 0 where
    pub alive :
        (c : ℕ) (k : Consumer)
        → r.consumers c ≡ some k
        → (k' : Consumer) × (r'.consumers c ≡ some k') × SameRefs k k'
    pub back :
        (c : ℕ) (k' : Consumer)
        → r'.consumers c ≡ some k'
        → (k : Consumer) × (r.consumers c ≡ some k)
    pub next : r'.next ≡ r.next
    pub subscriptions : (q : ℕ) → (r'.peers q).consumers ≡ (r.peers q).consumers
    pub streams : (q : ℕ) → (r'.peers q).producers ≡ (r.peers q).producers
    pub entries : r'.out_ssrcs ≡ r.out_ssrcs

  pub Keeps-refl : (r : Router S D) → Keeps r r
  Keeps-refl r = record {
    alive = λ c k e. (k, e, SameRefs-refl k);
    back = λ c k e. (k, e);
    next = refl;
    subscriptions = λ q. refl;
    streams = λ q. refl;
    entries = refl;
  }

  pub Keeps-trans : (r₁ r₂ r₃ : Router S D) → Keeps r₁ r₂ → Keeps r₂ r₃ → Keeps r₁ r₃
  Keeps-trans r₁ r₂ r₃ a b = record {
    alive = λ c k e.
        let (k₂, e₂, s₂) = a.alive c k e in
        let (k₃, e₃, s₃) = b.alive c k₂ e₂ in (k₃, e₃, SameRefs-trans k k₂ k₃ s₂ s₃);
    back = λ c k e. let (k₂, e₂) = b.back c k e in a.back c k₂ e₂;
    next = b.next ∙ a.next;
    subscriptions = λ q. b.subscriptions q ∙ a.subscriptions q;
    streams = λ q. b.streams q ∙ a.streams q;
    entries = b.entries ∙ a.entries;
  }

  pub Keeps-Inv : (r r' : Router S D) → Keeps r r' → Inv r → Inv r'
  Keeps-Inv r r' w v = record {
    linked = λ q c s l.
        let (k, e, a, b) = v.linked q c s (rw (w.streams q) at l) in
        let (k', e', same) = w.alive c k e in (k', e', same.publisher ∙ a, same.publisher_ssrc ∙ b);
    distinct = λ q. rw (w.streams q) (v.distinct q);
    owned = λ q c m.
        let (k, e, a) = v.owned q c (rw (w.subscriptions q) at m) in
        let (k', e', same) = w.alive c k e in (k', e', same.subscriber ∙ a);
    mapped = λ s c e.
        let (k, e₁, a) = v.mapped s c (rw w.entries at e) in
        let (k', e', same) = w.alive c k e₁ in (k', e', same.rewritten_ssrc ∙ a);
    fresh = λ c k e. let (k', e') = w.back c k e in rw w.next (v.fresh c k' e');
  }

  -- A new SRTP context for a peer.
  Keeps-set_peer :
      (q : ℕ) (ctx : Option (SrtpContext S)) (r : Router S D)
      → Keeps r (set_peer q (record (r.peers q) { srtp = ctx }) r)
  Keeps-set_peer q ctx r =
      let peer : Peer S D = record (r.peers q) { srtp = ctx } in
      record {
        alive = λ c k e. (k, e, SameRefs-refl k);
        back = λ c k e. (k, e);
        next = refl;
        subscriptions =
            update_elim (λ j (x : Peer S D). x.consumers ≡ (r.peers j).consumers) r.peers q peer
              refl (λ j _. refl);
        streams =
            update_elim (λ j (x : Peer S D). x.producers ≡ (r.peers j).producers) r.peers q peer
              refl (λ j _. refl);
        entries = refl;
      }

  pub Keeps-set_consumer :
      (c : ℕ) (k k' : Consumer) (r : Router S D)
      → r.consumers c ≡ some k
      → SameRefs k k'
      → Keeps r (set_consumer c k' r)
  Keeps-set_consumer c k k' r e same = record {
    alive = λ d x ex. elim (ℕ_discrete c d) [
      | yes p ↦ (
        k',
        ap (update r.consumers c (some k')) (sym p) ∙ update_self r.consumers c (some k'),
        subst (λ z. SameRefs z k') (some-injective k x (sym e ∙ ap r.consumers p ∙ ex)) same,
      )
      | no p ↦ (x, update-ne r.consumers c (some k') d p ∙ ex, SameRefs-refl x)
    ];
    back = λ d x ex. elim (ℕ_discrete c d) [
      | yes p ↦ (k, ap r.consumers (sym p) ∙ e)
      | no p ↦ (x, sym (update-ne r.consumers c (some k') d p) ∙ ex)
    ];
    next = refl;
    subscriptions = λ q. refl;
    streams = λ q. refl;
    entries = refl;
  }

  pub Keeps-sent_on :
      (q : ℕ) (out : SrtpContext S × Option Bytes) (r : Router S D) → Keeps r (sent_on q out r).0
  Keeps-sent_on q (ctx, none) r = Keeps-set_peer q (some ctx) r
  Keeps-sent_on q (ctx, some out) r =
      let w = Keeps-set_peer q (some ctx) r in
      record {
        alive = w.alive;
        back = w.back;
        next = w.next;
        subscriptions = w.subscriptions;
        streams = w.streams;
        entries = w.entries;
      }

  pub Keeps-send_rtcp :
      ⦃lib : Lib S⦄ (q : ℕ) (pkt : Bytes) (r : Router S D) → Keeps r (send_rtcp q pkt r).0
  unfolding send_rtcp
  Keeps-send_rtcp q pkt r = elim (Option-cases (r.peers q).srtp) [
    | inl e ↦ rw e (Keeps-refl r)
    | inr (ctx, e) ↦ rw e (Keeps-sent_on q (protect_rtcp ctx pkt) r)
  ]

  pub Keeps-table :
      (q ssrc : ℕ) (r : Router S D) → Keeps r (record r { table = bind ssrc q r.table })
  Keeps-table q ssrc r = record {
    alive = λ c k e. (k, e, SameRefs-refl k);
    back = λ c k e. (k, e);
    next = refl;
    subscriptions = λ q. refl;
    streams = λ q. refl;
    entries = refl;
  }
