-- ===== src/Sfu/Setup/Subscription.antt =====
-- Router::addConsumer: what a subscriber gets.
use namecon.Sfu.Types.{Peer, Producer, Consumer}
use namecon.Sfu.State.{listed, Router, register_peer}
use namecon.Common.{
  if_elim, Bool-cases, ℕ, ◌+◌, ◌≤◌, ◌≡◌, ◌⊎◌, inl, inr, refl, sym, ◌∙◌, ap, Bool, false, some, [],
  ◌∷◌, ◌++◌, arith, List, ◌==◌,
}
use namecon.Sfu.Memory.Subscribe.{subscribe-Inv}
use namecon.Sfu.Memory.{Inv, later, here, Linked}
use namecon.Sfu.Setup.{
  subscribe, allocate_ssrc, add_consumer, attachable, new_consumer, with_producers, attached_ssrc,
  attach, join,
}
use namecon.Common.Store.{update_elim, update, lookup-insert, update_self}
use namecon.Sfu.Mids.{find_consumer_by_out_ssrc}
use mathlib.Core.List.{Memᴰ}
use mathlib.Core.Path.{subst}

Mem-end : (c : ℕ) (cs : List ℕ) → Memᴰ c (cs ++ (c ∷ []))
Mem-end c [] = Memᴰ.head refl
Mem-end c (d ∷ cs) = Memᴰ.tail (Mem-end c cs)

-- The consumer joins the producer whose SSRC it reports, or there is none and it reports 0.
attach-Linked :
    (c : ℕ) (is_video : Bool) (ps : List Producer)
    → (attached_ssrc is_video ps ≡ 0) ⊎ Linked c (attached_ssrc is_video ps) (attach c is_video ps)
unfolding attach attached_ssrc
attach-Linked c is_video [] = inl refl
attach-Linked c is_video (p ∷ ps) = elim (Bool-cases (attachable is_video p)) [
  | inl hit ↦ rw hit (inr (here refl (Mem-end c p.consumers)))
  | inr miss ↦ elim (attach-Linked c is_video ps) [
    | inl none_yet ↦ rw miss (inl none_yet)
    | inr l ↦ rw miss (inr (later l))
  ]
]

module _ {S D : Type 0} where
  -- What a new subscription is: its object, the map entry, its place in the subscriber's list, and
  -- its link.
  pub record Subscribed (sub pub_ : ℕ) (is_video : Bool) (c ssrc : ℕ) (r : Router S D)
      : Type 0 where
    pub made : Consumer
    pub alive : r.consumers c ≡ some made
    pub subscriber : made.subscriber ≡ some sub
    pub publisher : made.publisher ≡ some pub_
    pub kind : made.is_video ≡ is_video
    pub out : made.rewritten_ssrc ≡ ssrc
    pub found : find_consumer_by_out_ssrc ssrc r ≡ some c
    pub listed : Memᴰ c (r.peers sub).consumers
    pub linked : (made.publisher_ssrc ≡ 0) ⊎ Linked c made.publisher_ssrc (r.peers pub_).producers

  join-Subscribed :
      (sub pub_ : ℕ) (is_video : Bool) (ssrc draws : ℕ) (r : Router S D)
      → Subscribed sub pub_ is_video r.next ssrc (join sub pub_ is_video ssrc draws r)
  unfolding join find_consumer_by_out_ssrc
  join-Subscribed sub pub_ is_video ssrc draws r =
      let c = r.next in
      let ps = (r.peers pub_).producers in
      let r₁ = with_producers pub_ (attach c is_video ps) r in
      record {
        made = record (new_consumer sub pub_ is_video ssrc) {
          publisher_ssrc = attached_ssrc is_video ps;
        };
        alive = update_self r.consumers c _;
        subscriber = refl;
        publisher = refl;
        kind = refl;
        out = refl;
        found = ground (arith, lookup-insert ssrc ssrc c r.out_ssrcs);
        listed =
            rw
              (update_self r₁.peers sub
                (record (r₁.peers sub) { consumers = (r₁.peers sub).consumers ++ (c ∷ []) }))
              (Mem-end c (r₁.peers sub).consumers);
        linked = elim (attach-Linked c is_video ps) [
          | inl none_yet ↦ inl none_yet
          | inr l ↦
              let same : ((update r₁.peers sub
                      (record (r₁.peers sub) { consumers = (r₁.peers sub).consumers ++ (c ∷ []) }))
                    pub_).producers
                  ≡ attach c is_video ps =
                update_elim (λ j (x : Peer S D). x.producers ≡ (r₁.peers j).producers) r₁.peers sub
                  (record (r₁.peers sub) { consumers = (r₁.peers sub).consumers ++ (c ∷ []) }) refl
                  (λ j _. refl) pub_
                ∙ ap (λ (x : Peer S D). x.producers) (update_self r.peers pub_ _) in
              inr (subst (Linked c (attached_ssrc is_video ps)) (sym same) l)
        ];
      }

  register_peer-next : (p : ℕ) (r : Router S D) → (register_peer p r).next ≡ r.next
  unfolding register_peer
  register_peer-next p r =
      if_elim (λ (x : Router S D). x.next ≡ r.next) (listed p r.all_peers) _ _ refl refl

  -- Where the distribution draws from its range, `addConsumer` ends with an SSRC of that range, and
  -- the new consumer is alive, is found under the SSRC, is in the subscriber's list, and is linked to
  -- the producer that it reports, if it reports one. One draw is enough, and the invariant is kept.
  pub add_consumer-Subscribed :
      (dis : ℕ → ℕ) (sub pub_ : ℕ) (is_video : Bool) (r : Router S D)
      → ((n : ℕ) → (0x40000000 ≤ dis n) × (dis n ≤ 0x7FFFFFFF))
      → Inv r
      → (ssrc : ℕ) × (r' : Router S D) × (add_consumer dis sub pub_ is_video r ≡ some (ssrc, r'))
        × (0x40000000 ≤ ssrc)
        × (ssrc ≤ 0x7FFFFFFF)
        × Subscribed sub pub_ is_video r.next ssrc r'
        × Inv r'
  unfolding add_consumer allocate_ssrc subscribe
  add_consumer-Subscribed dis sub pub_ is_video r range v =
      let ssrc = dis r.draws in
      let r₁ = register_peer pub_ (register_peer sub r) in
      let nonzero : (ssrc == 0) ≡ false = ground (arith, range r.draws) in
      let same : r₁.next ≡ r.next =
        register_peer-next pub_ (register_peer sub r) ∙ register_peer-next sub r in
      (
        ssrc,
        subscribe sub pub_ is_video ssrc (r.draws + 1) r,
        rw nonzero refl,
        (range r.draws).0,
        (range r.draws).1,
        subst
            (λ c.
              Subscribed sub pub_ is_video c ssrc
                (subscribe sub pub_ is_video ssrc (r.draws + 1) r))
            same (join-Subscribed sub pub_ is_video ssrc (r.draws + 1) r₁),
        subscribe-Inv sub pub_ is_video ssrc (r.draws + 1) r v,
      )
