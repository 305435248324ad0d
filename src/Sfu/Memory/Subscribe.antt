-- ===== src/Sfu/Memory/Subscribe.antt =====
-- Router::addConsumer and the router's invariant.
use namecon.Common.{
  ℕ, ◌≡◌, refl, sym, ◌∙◌, ap, ◌⊎◌, inl, inr, [], ◌∷◌, ◌++◌, Option, some, arith, Bool, if_elim,
}
use namecon.Common.Store.{update, update_self, update-ne, update_elim, lookup-insert}
use mathlib.Core.List.{Memᴰ}
use native.Mathlib.Decide.{ℕ_discrete}
use namecon.Sfu.Types.{Consumer, Peer}
use namecon.Sfu.State.{Router, register_peer, listed}
use namecon.Sfu.Setup.{with_producers, attach, attached_ssrc, new_consumer, join, subscribe}
use namecon.Sfu.Memory.{Inv, Linked, Distinct}
use namecon.Sfu.Memory.Links.{Linked-attach, Distinct-attach, Mem-last}

module _ {S D : Type 0} where
  -- A record with the fields of the invariant, over routers that differ elsewhere.
  pub register_peer-Inv : (p : ℕ) (r : Router S D) → Inv r → Inv (register_peer p r)
  unfolding register_peer
  register_peer-Inv p r v = if_elim Inv (listed p r.all_peers) _ _ v (record {
    linked = v.linked;
    distinct = v.distinct;
    owned = v.owned;
    mapped = v.mapped;
    fresh = v.fresh;
  })

  module _ (sub pub_ : ℕ) (is_video : Bool) (ssrc draws : ℕ) (r : Router S D) (v : Inv r) where
    abbrev made : Consumer
    made = record (new_consumer sub pub_ is_video ssrc) {
      publisher_ssrc = attached_ssrc is_video (r.peers pub_).producers;
    }

    abbrev heap : ℕ → Option Consumer
    heap = update r.consumers r.next (some made)

    -- Objects that were alive stand below `next`, and are kept.
    kept : (c : ℕ) (k : Consumer) → r.consumers c ≡ some k → heap c ≡ some k
    kept c k e =
        update-ne r.consumers r.next (some made) c
          (λ same. absurd (omega (arith, v.fresh c k e, same)))
        ∙ e

    kept_with :
        (P : Consumer → Type 0) (c : ℕ)
        → ((k : Consumer) × (r.consumers c ≡ some k) × P k)
        → (k : Consumer) × (heap c ≡ some k) × P k
    kept_with P c (k, e, h) = (k, kept c k e, h)

    made_with :
        (P : Consumer → Type 0) (c : ℕ)
        → c ≡ r.next
        → P made
        → (k : Consumer) × (heap c ≡ some k) × P k
    made_with P c e h = (made, ap heap e ∙ update_self r.consumers r.next (some made), h)

    joined_links :
        (q c s : ℕ)
        → Linked c s
            ((with_producers pub_ (attach r.next is_video (r.peers pub_).producers) r).peers
              q).producers
        → (k : Consumer) × (heap c ≡ some k) × ((k.publisher ≡ some q) × (k.publisher_ssrc ≡ s))
    joined_links q c s =
        let ps = (r.peers pub_).producers in
        let peer : Peer S D = record (r.peers pub_) { producers = attach r.next is_video ps } in
        update_elim
          (λ q (x : Peer S D).
            Linked c s x.producers
            → (k : Consumer) × (heap c ≡ some k)
              × ((k.publisher ≡ some q) × (k.publisher_ssrc ≡ s)))
          r.peers pub_ peer
          (λ l. elim (Linked-attach r.next is_video ps c s l) [
            | inl old ↦ kept_with _ c (let (k, e, a, b) = v.linked pub_ c s old in (k, e, (a, b)))
            | inr (new, at_s) ↦ made_with _ c new (refl, at_s)
          ])
          (λ j _ l. kept_with _ c (let (k, e, a, b) = v.linked j c s l in (k, e, (a, b)))) q

    -- A peer's own list is the old one, or the old one and the new consumer, if it is the subscriber.
    joined_lists :
        (q c : ℕ)
        → Memᴰ c ((join sub pub_ is_video ssrc draws r).peers q).consumers
        → Memᴰ c (r.peers q).consumers ⊎ ((c ≡ r.next) × (sub ≡ q))
    unfolding join
    joined_lists q c =
        let r₁ = with_producers pub_ (attach r.next is_video (r.peers pub_).producers) r in
        let peer : Peer S D = record (r₁.peers sub) {
          consumers = (r₁.peers sub).consumers ++ (r.next ∷ []);
        } in
        update_elim
          (λ q (x : Peer S D).
            Memᴰ c x.consumers → Memᴰ c (r.peers q).consumers ⊎ ((c ≡ r.next) × (sub ≡ q)))
          r₁.peers sub peer
          (λ m. elim (Mem-last (r₁.peers sub).consumers m) [
            | inl old ↦ inl (rw (same sub) at old)
            | inr new ↦ inr (new, refl)
          ])
          (λ j _ m. inl (rw (same j) at m)) q
      where
        same :
            (j : ℕ)
            → ((with_producers pub_ (attach r.next is_video (r.peers pub_).producers) r).peers
                j).consumers
              ≡ (r.peers j).consumers
        same =
            update_elim (λ j (x : Peer S D). x.consumers ≡ (r.peers j).consumers) r.peers pub_
              (record (r.peers pub_) {
                producers = attach r.next is_video (r.peers pub_).producers;
              })
              refl (λ j _. refl)

    -- The producers are not touched by the second write.
    joined_producers :
        (q : ℕ)
        → ((join sub pub_ is_video ssrc draws r).peers q).producers
          ≡ ((with_producers pub_ (attach r.next is_video (r.peers pub_).producers) r).peers
              q).producers
    unfolding join
    joined_producers =
        let r₁ = with_producers pub_ (attach r.next is_video (r.peers pub_).producers) r in
        update_elim (λ j (x : Peer S D). x.producers ≡ (r₁.peers j).producers) r₁.peers sub
          (record (r₁.peers sub) { consumers = (r₁.peers sub).consumers ++ (r.next ∷ []) }) refl
          (λ j _. refl)

    joined-Distinct :
        (q : ℕ)
        → Distinct
            ((with_producers pub_ (attach r.next is_video (r.peers pub_).producers) r).peers
              q).producers
    joined-Distinct =
        update_elim (λ j (x : Peer S D). Distinct x.producers) r.peers pub_
          (record (r.peers pub_) { producers = attach r.next is_video (r.peers pub_).producers })
          (Distinct-attach r.next is_video (r.peers pub_).producers (v.distinct pub_))
          (λ j _. v.distinct j)

    pub join-Inv : Inv (join sub pub_ is_video ssrc draws r)
    unfolding join
    join-Inv = record {
      linked = λ q c s l.
          let (k, e, (a, b)) = joined_links q c s (rw (joined_producers q) at l) in (k, e, a, b);
      distinct = λ q. rw (joined_producers q) (joined-Distinct q);
      owned = λ q c m. elim (joined_lists q c m) [
        | inl old ↦ kept_with _ c (v.owned q c old)
        | inr (new, e) ↦ made_with (λ x. x.subscriber ≡ some q) c new (ap some e)
      ];
      mapped = λ s c e. elim (ℕ_discrete ssrc s) [
        | yes same ↦
            made_with (λ x. x.rewritten_ssrc ≡ s) c
              (ground (arith, lookup-insert ssrc s r.next r.out_ssrcs)) same
        | no other ↦
            kept_with _ c (v.mapped s c (ground (arith, lookup-insert ssrc s r.next r.out_ssrcs)))
      ];
      fresh = λ c k e. elim (ℕ_discrete r.next c) [
        | yes same ↦ omega arith
        | no other ↦
            let e' = sym (update-ne r.consumers r.next (some made) c other) ∙ e in
            omega (arith, v.fresh c k e')
      ];
    }

  pub subscribe-Inv :
      (sub pub_ : ℕ) (is_video : Bool) (ssrc draws : ℕ) (r : Router S D)
      → Inv r
      → Inv (subscribe sub pub_ is_video ssrc draws r)
  unfolding subscribe
  subscribe-Inv sub pub_ is_video ssrc draws r v =
      join-Inv sub pub_ is_video ssrc draws (register_peer pub_ (register_peer sub r))
        (register_peer-Inv pub_ (register_peer sub r) (register_peer-Inv sub r v))
