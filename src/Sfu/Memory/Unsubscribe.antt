-- ===== src/Sfu/Memory/Unsubscribe.antt =====
-- The second loop of Router::removePeer: the subscriptions of the peer that leaves.
use namecon.Common.Store.{update_elim, lookup, erase, lookup-erase}
use namecon.Common.{ℕ, ◌≡◌, ◌≢◌, refl, ◌∙◌, inl, inr, List, [], ◌∷◌, Option, none, some, All, arith}
use mathlib.Core.List.{Memᴰ}
use namecon.Sfu.Types.{Consumer, Producer, Peer}
use namecon.Sfu.State.{Router}
use namecon.Sfu.Setup.{unlink_at, unlink_from, unsubscribe}
use namecon.Sfu.Memory.{Inv, Linked, Distinct}
use namecon.Sfu.Memory.Links.{
  Mem-cases, Linked-unlink_from, not-Linked-unlink_from, Distinct-unlink_from,
}

pub erase-entries :
    (t s c : ℕ) (m : List (ℕ × ℕ)) → lookup s (erase t m) ≡ some c → (lookup s m ≡ some c) × (t ≢ s)
erase-entries t s c m e = ground (arith, lookup-erase t s m)

module _ {S D : Type 0} where
  -- `r'` differs from `r` only by links and map entries that are gone.
  pub record Shrinks (r r' : Router S D) : Type 0 where
    pub heap : r'.consumers ≡ r.consumers
    pub next : r'.next ≡ r.next
    pub subscriptions : (q : ℕ) → (r'.peers q).consumers ≡ (r.peers q).consumers
    pub links : (q c s : ℕ) → Linked c s (r'.peers q).producers → Linked c s (r.peers q).producers
    pub no_streams : (q : ℕ) → (r.peers q).producers ≡ [] → (r'.peers q).producers ≡ []
    pub distinct : (q : ℕ) → Distinct (r.peers q).producers → Distinct (r'.peers q).producers
    pub entries : (s c : ℕ) → lookup s r'.out_ssrcs ≡ some c → lookup s r.out_ssrcs ≡ some c

  Shrinks-refl : (r : Router S D) → Shrinks r r
  Shrinks-refl r = record {
    heap = refl;
    next = refl;
    subscriptions = λ q. refl;
    links = λ q c s l. l;
    no_streams = λ q e. e;
    distinct = λ q d. d;
    entries = λ s c e. e;
  }

  Shrinks-trans : (r₁ r₂ r₃ : Router S D) → Shrinks r₁ r₂ → Shrinks r₂ r₃ → Shrinks r₁ r₃
  Shrinks-trans r₁ r₂ r₃ a b = record {
    heap = b.heap ∙ a.heap;
    next = b.next ∙ a.next;
    subscriptions = λ q. b.subscriptions q ∙ a.subscriptions q;
    links = λ q c s l. a.links q c s (b.links q c s l);
    no_streams = λ q e. b.no_streams q (a.no_streams q e);
    distinct = λ q d. b.distinct q (a.distinct q d);
    entries = λ s c e. a.entries s c (b.entries s c e);
  }

  pub Shrinks-Inv : (r r' : Router S D) → Shrinks r r' → Inv r → Inv r'
  Shrinks-Inv r r' sh v = record {
    linked = λ q c s l. rw sh.heap (v.linked q c s (sh.links q c s l));
    distinct = λ q. sh.distinct q (v.distinct q);
    owned = λ q c m. rw sh.heap (v.owned q c (rw (sh.subscriptions q) at m));
    mapped = λ s c e. rw sh.heap (v.mapped s c (sh.entries s c e));
    fresh = λ c k e. rw sh.next (v.fresh c k (rw sh.heap at e));
  }

  -- No producer lists the consumer, and no SSRC leads to it.
  pub record Gone (c : ℕ) (r : Router S D) : Type 0 where
    pub unlinked : (q s : ℕ) → ¬ Linked c s (r.peers q).producers
    pub unmapped : (s : ℕ) → lookup s r.out_ssrcs ≢ some c

  Gone-Shrinks : (c : ℕ) (r r' : Router S D) → Shrinks r r' → Gone c r → Gone c r'
  Gone-Shrinks c r r' sh g = record {
    unlinked = λ q s l. g.unlinked q s (sh.links q c s l);
    unmapped = λ s e. g.unmapped s (sh.entries s c e);
  }

  -- One round of the second loop.
  abbrev unsubscribed : ℕ → Consumer → Router S D → Router S D
  unsubscribed c k r = record (unlink_at c k k.publisher r) {
    out_ssrcs = erase k.rewritten_ssrc r.out_ssrcs;
  }

  Shrinks-unsubscribed :
      (c : ℕ) (k : Consumer) (r : Router S D) (o : Option ℕ)
      → Shrinks r (record (unlink_at c k o r) { out_ssrcs = erase k.rewritten_ssrc r.out_ssrcs })
  Shrinks-unsubscribed c k r none = record {
    heap = refl;
    next = refl;
    subscriptions = λ q. refl;
    links = λ q d s l. l;
    no_streams = λ q e. e;
    distinct = λ q dist. dist;
    entries = λ s d e. (erase-entries k.rewritten_ssrc s d r.out_ssrcs e).0;
  }
  Shrinks-unsubscribed c k r (some p) =
      let ps : List Producer = unlink_from k.publisher_ssrc c (r.peers p).producers in
      let peer : Peer S D = record (r.peers p) { producers = ps } in
      record {
        heap = refl;
        next = refl;
        subscriptions =
            update_elim (λ q (x : Peer S D). x.consumers ≡ (r.peers q).consumers) r.peers p peer
              refl (λ q _. refl);
        links = λ q d s.
            update_elim
              (λ q (x : Peer S D). Linked d s x.producers → Linked d s (r.peers q).producers)
              r.peers p peer (Linked-unlink_from k.publisher_ssrc c (r.peers p).producers d s)
              (λ q _ l. l) q;
        no_streams =
            update_elim (λ q (x : Peer S D). (r.peers q).producers ≡ [] → x.producers ≡ []) r.peers
              p peer (λ e. rw e (unfold unlink_from in refl)) (λ q _ e. e);
        distinct =
            update_elim (λ q (x : Peer S D). Distinct (r.peers q).producers → Distinct x.producers)
              r.peers p peer (Distinct-unlink_from k.publisher_ssrc c (r.peers p).producers)
              (λ q _ dist. dist);
        entries = λ s d e. (erase-entries k.rewritten_ssrc s d r.out_ssrcs e).0;
      }

  -- After its round the consumer is gone: its one link, if any, is to the publisher and SSRC that it
  -- names.
  Gone-unsubscribed :
      (c : ℕ) (k : Consumer) (r : Router S D) (o : Option ℕ)
      → Inv r
      → r.consumers c ≡ some k
      → k.publisher ≡ o
      → Gone c (record (unlink_at c k o r) { out_ssrcs = erase k.rewritten_ssrc r.out_ssrcs })
  Gone-unsubscribed c k r o v alive e = record {
    unlinked = unlinked o e;
    unmapped = λ s found.
        let (m, other) = erase-entries k.rewritten_ssrc s c r.out_ssrcs found in
        let (k', alive', at_s) = v.mapped s c m in ground (arith, other);
  }
    where
      back :
          (q s : ℕ)
          → Linked c s (r.peers q).producers
          → (k.publisher ≡ some q) × (k.publisher_ssrc ≡ s)
      back q s l = let (k', alive', pub_, ssrc) = v.linked q c s l in ground arith

      unlinked :
          (o : Option ℕ)
          → k.publisher ≡ o
          → (q s : ℕ)
          → ¬ Linked c s
              ((record (unlink_at c k o r) { out_ssrcs = erase k.rewritten_ssrc r.out_ssrcs }).peers
                q).producers
      unlinked none e q s = λ l. let (a, b) = back q s l in cc
      unlinked (some p) e q s =
          let ps : List Producer = unlink_from k.publisher_ssrc c (r.peers p).producers in
          let peer : Peer S D = record (r.peers p) { producers = ps } in
          update_elim (λ q (x : Peer S D). ¬ Linked c s x.producers) r.peers p peer
            (λ l.
              let (a, b) =
                back p s (Linked-unlink_from k.publisher_ssrc c (r.peers p).producers c s l) in
              not-Linked-unlink_from k.publisher_ssrc c (r.peers p).producers (v.distinct p)
                (rw (← b) at l))
            (λ j ne l. let (a, b) = back j s l in ground (arith, ne)) q

  -- The second loop over consumers that are alive ends with all of them gone.
  pub unsubscribe_lem :
      (cs : List ℕ) (r : Router S D)
      → Inv r
      → All (λ c. (k : Consumer) × (r.consumers c ≡ some k)) cs
      → (r' : Router S D) × (unsubscribe cs r ≡ some r')
        × Shrinks r r'
        × ((c : ℕ) → Memᴰ c cs → Gone c r')
  unfolding unsubscribe
  unsubscribe_lem [] r v alive = (r, refl, Shrinks-refl r, λ c m. elim m [ ])
  unsubscribe_lem (c ∷ cs) r v ((k, e), alive) =
      let r₁ = unsubscribed c k r in
      let sh = Shrinks-unsubscribed c k r k.publisher in
      let (r', done, more, gone) =
        unsubscribe_lem cs r₁ (Shrinks-Inv r r₁ sh v) (rw sh.heap alive) in
      (
        r',
        rw e done,
        Shrinks-trans r r₁ r' sh more,
        λ d m. elim (Mem-cases m) [
          | inl same ↦
              rw same (Gone-Shrinks c r₁ r' more (Gone-unsubscribed c k r k.publisher v e refl))
          | inr rest ↦ gone d rest
        ],
      )
