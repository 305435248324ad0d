-- ===== src/Sfu/Memory/Produce.antt =====
-- Router::findOrCreateProducer and the router's invariant.
use namecon.Sfu.Memory.Keeps.{Keeps-trans, Keeps-table, Keeps, Keeps-Inv, Keeps-send_rtcp}
use namecon.Common.{
  Option-cases, ℕ, ◌≡◌, ◌≢◌, refl, sym, ◌∙◌, ap, inl, inr, List, [], ◌∷◌, ◌++◌, Option, some, Bool,
  All, if_elim,
}
use mathlib.Core.Path.{subst}
use namecon.Common.Store.{update_elim}
use mathlib.Core.List.{Memᴰ}
use namecon.Transport.Srtp.{Lib}
use namecon.Sfu.Types.{Consumer, Producer, Peer}
use namecon.Sfu.RouteTable.{bind}
use namecon.Sfu.State.{Router, send_rtcp}
use namecon.Sfu.Setup.{
  subscriptions, with_producers, create_producer, ask_key_frame, new_producer, find_producer,
  find_or_create_producer, pli_for,
}
use namecon.Sfu.Memory.{Inv, Linked, Distinct}
use namecon.Sfu.Memory.Link.{Moved, Linking, Linking-start, link_lem}
use namecon.Sfu.Memory.Producers.{
  find_producer-none, Distinct-last, Linked-last, Linked-ne-zero, find_producer-some,
}

module _ {S D : Type 0} where
  -- Every subscription of every peer is alive.
  subscriptions-alive :
      (r : Router S D) (ps : List ℕ)
      → Inv r
      → All (λ c. (k : Consumer) × (r.consumers c ≡ some k)) (subscriptions r.peers ps)
  unfolding subscriptions
  subscriptions-alive r [] v = tt
  subscriptions-alive r (p ∷ ps) v =
      All-append (r.peers p).consumers (subscriptions r.peers ps)
        (owned-alive (r.peers p).consumers (λ c m. let (k, e, _) = v.owned p c m in (k, e)))
        (subscriptions-alive r ps v)
    where
      owned-alive :
          (cs : List ℕ)
          → ((c : ℕ) → Memᴰ c cs → (k : Consumer) × (r.consumers c ≡ some k))
          → All (λ c. (k : Consumer) × (r.consumers c ≡ some k)) cs
      owned-alive [] h = tt
      owned-alive (c ∷ cs) h = (h c (Memᴰ.head refl), owned-alive cs (λ d m. h d (Memᴰ.tail m)))

      All-append :
          (xs ys : List ℕ)
          → All (λ c. (k : Consumer) × (r.consumers c ≡ some k)) xs
          → All (λ c. (k : Consumer) × (r.consumers c ≡ some k)) ys
          → All (λ c. (k : Consumer) × (r.consumers c ≡ some k)) (xs ++ ys)
      All-append [] ys a b = b
      All-append (x ∷ xs) ys a b = (a.0, All-append xs ys a.1 b)

  -- The router after the loop, from what the loop left.
  produced-Inv :
      (q ssrc : ℕ) (is_video : Bool) (r : Router S D) (h : ℕ → Option Consumer) (linked : List ℕ)
      → (ne : ssrc ≢ 0) → Inv r
      → Linking q is_video ssrc ne r.consumers h linked
      → All (λ x. x.original_ssrc ≢ ssrc) (r.peers q).producers
      → Inv
          (record (with_producers q
            ((r.peers q).producers ++ (new_producer q ssrc is_video linked ∷ []))
            r) { consumers = h })
  produced-Inv q ssrc is_video r h linked ne v w unused =
      let p = new_producer q ssrc is_video linked in
      let peer : Peer S D = record (r.peers q) { producers = (r.peers q).producers ++ (p ∷ []) } in
      record {
        linked = λ j c s.
            update_elim
              (λ j (x : Peer S D).
                Linked c s x.producers
                → (k : Consumer) × (h c ≡ some k) × (k.publisher ≡ some j) × (k.publisher_ssrc ≡ s))
              r.peers q peer
              (λ l. elim (Linked-last (r.peers q).producers p c s l) [
                | inl old ↦ linked_before q c s old
                | inr (at_s, m) ↦ let (k, e, a, b) = w.joined c m in (k, e, a, b ∙ at_s)
              ])
              (λ j _ l. linked_before j c s l) j;
        distinct =
            update_elim (λ j (x : Peer S D). Distinct x.producers) r.peers q peer
              (Distinct-last (r.peers q).producers p (v.distinct q) ne unused)
              (λ j _. v.distinct j);
        owned = λ j c.
            update_elim
              (λ j (x : Peer S D).
                Memᴰ c x.consumers → (k : Consumer) × (h c ≡ some k) × (k.subscriber ≡ some j))
              r.peers q peer
              (λ m. moved_with (λ k. k.subscriber ≡ some q) c (λ _ e. e) (v.owned q c m))
              (λ j _ m. moved_with (λ k. k.subscriber ≡ some j) c (λ _ e. e) (v.owned j c m)) j;
        mapped = λ s c e. moved_with (λ k. k.rewritten_ssrc ≡ s) c (λ _ e. e) (v.mapped s c e);
        fresh = λ c k e. let (k', e') = w.back c k e in v.fresh c k' e';
      }
    where
      moved_with :
          (P : Consumer → Type 0) (c : ℕ)
          → ((k : Consumer) → P k → P (record k { publisher_ssrc = ssrc }))
          → ((k : Consumer) × (r.consumers c ≡ some k) × P k)
          → (k : Consumer) × (h c ≡ some k) × P k
      moved_with P c keep (k, e, hk) = let (k', e', m) = w.forth c k e in (k', e', pick m)
        where
          pick : {k' : Consumer} → Moved q is_video ssrc ne r.consumers k k' → P k'
          pick (inl same) = subst P (sym same) hk
          pick (inr (same, _, _)) = subst P (sym same) (keep k hk)

      linked_before :
          (j c s : ℕ)
          → Linked c s (r.peers j).producers
          → (k : Consumer) × (h c ≡ some k) × (k.publisher ≡ some j) × (k.publisher_ssrc ≡ s)
      linked_before j c s l =
          let (k, e, a, b) = v.linked j c s l in
          let (k', e', m) = w.forth c k e in let (a', b') = pick k a b m in (k', e', a', b')
        where
          pick :
              (k : Consumer) {k' : Consumer}
              → k.publisher ≡ some j
              → k.publisher_ssrc ≡ s
              → Moved q is_video ssrc ne r.consumers k k'
              → (k'.publisher ≡ some j) × (k'.publisher_ssrc ≡ s)
          pick k a b (inl same) = (
            ap (λ (z : Consumer). z.publisher) same ∙ a,
            ap (λ (z : Consumer). z.publisher_ssrc) same ∙ b,
          )
          pick k a b (inr (_, _, z)) =
              absurd (Linked-ne-zero c s (r.peers j).producers (v.distinct j) l (sym b ∙ z))

  -- The table entry and the PLI that `create_producer` makes first.
  pub Keeps-asked :
      ⦃lib : Lib S⦄ (q ssrc : ℕ) (is_video : Bool) (r : Router S D)
      → Keeps r (ask_key_frame q ssrc is_video (record r { table = bind ssrc q r.table }))
  Keeps-asked q ssrc is_video r =
      let r₁ : Router S D = record r { table = bind ssrc q r.table } in
      let w : Keeps r r₁ = Keeps-table q ssrc r in
      if_elim (Keeps r) is_video _ _
        (Keeps-trans r r₁ (send_rtcp q (pli_for ssrc) r₁).0 w (Keeps-send_rtcp q (pli_for ssrc) r₁))
        w

  create_producer-Inv :
      ⦃lib : Lib S⦄ (q ssrc : ℕ) (is_video : Bool) (r : Router S D)
      → ssrc ≢ 0
      → Inv r
      → All (λ x. x.original_ssrc ≢ ssrc) (r.peers q).producers
      → (r' : Router S D) × (p : Producer) × (create_producer q ssrc is_video r ≡ some (r', p))
        × Inv r'
        × (p.original_ssrc ≡ ssrc)
        × ((c : ℕ) → Memᴰ c p.consumers → (k : Consumer) × (r'.consumers c ≡ some k))
  unfolding create_producer
  create_producer-Inv q ssrc is_video r ne v unused =
      let r₁ = ask_key_frame q ssrc is_video (record r { table = bind ssrc q r.table }) in
      let w = Keeps-asked q ssrc is_video r in
      let v₁ = Keeps-Inv r r₁ w v in
      let (h, linked, done, lk) =
        link_lem q is_video ssrc ne r₁.consumers (subscriptions r₁.peers r₁.all_peers) r₁.consumers
          [] (Linking-start q is_video ssrc ne r₁.consumers)
          (subscriptions-alive r₁ r₁.all_peers v₁) in
      let p = new_producer q ssrc is_video linked in
      (
        record (with_producers q ((r₁.peers q).producers ++ (p ∷ [])) r₁) { consumers = h },
        p,
        rw done refl,
        produced-Inv q ssrc is_video r₁ h linked ne v₁ lk (rw (w.streams q) unused),
        refl,
        (λ c m. let (k, e, _, _) = lk.joined c m in (k, e)),
      )

  -- Under the invariant the producer of an SSRC that is not 0 is found or made without a read of a
  -- freed object, the invariant holds after it, and everything that the producer lists is alive.
  pub find_or_create_producer-Inv :
      ⦃lib : Lib S⦄ (q ssrc : ℕ) (is_video : Bool) (r : Router S D)
      → ssrc ≢ 0
      → Inv r
      → (r' : Router S D) × (p : Producer) × (find_or_create_producer q ssrc is_video r
          ≡ some (r', p))
        × Inv r'
        × (p.original_ssrc ≡ ssrc)
        × ((c : ℕ) → Memᴰ c p.consumers → (k : Consumer) × (r'.consumers c ≡ some k))
  unfolding find_or_create_producer
  find_or_create_producer-Inv q ssrc is_video r ne v =
      elim (Option-cases (find_producer ssrc (r.peers q).producers)) [
        | inl absent ↦ rw absent (
            create_producer-Inv q ssrc is_video r ne v
              (find_producer-none ssrc (r.peers q).producers absent))
        | inr (p, found) ↦
            let (at_s, links) = find_producer-some ssrc (r.peers q).producers p found in
            (
              r,
              p,
              rw found refl,
              v,
              at_s,
              λ c m. let (k, e, _, _) = v.linked q c ssrc (links c m) in (k, e),
            )
      ]
