-- ===== src/Sfu/Memory/Remove.antt =====
-- Router::removePeer and the router's invariant.
use namecon.Common.{
  ℕ, ◌≡◌, ◌≢◌, refl, sym, ◌∙◌, ap, inl, inr, List, [], ◌∷◌, Option, none, some, All, arith,
}
use namecon.Common.Store.{update, update_self, update-ne, update_elim}
use mathlib.Core.List.{Memᴰ}
use namecon.Sfu.Types.{Consumer, Peer}
use namecon.Sfu.State.{Router}
use namecon.Sfu.RouteTable.{unbind_peer}
use namecon.Sfu.Setup.{with_producers, free, clear_consumers, remove_peer, without}
use namecon.Sfu.Memory.{Inv, Linked, Distinct}
use namecon.Sfu.Memory.Links.{Mem-cases}
use namecon.Sfu.Memory.Unsubscribe.{Gone, Shrinks-Inv, unsubscribe_lem}
use namecon.Sfu.Memory.Silence.{Quiet, Inv-Quiet, silence_all_lem}

-- Freed memory is free, and what is not on the list keeps its object.
free_listed : (cs : List ℕ) (h : ℕ → Option Consumer) (c : ℕ) → h c ≡ none → free cs h c ≡ none
unfolding free
free_listed [] h c e = e
free_listed (d ∷ cs) h c e = free_listed cs (update h d none) c (ground arith)

pub free-mem : (cs : List ℕ) (h : ℕ → Option Consumer) (c : ℕ) → Memᴰ c cs → free cs h c ≡ none
unfolding free
free-mem [] h c m = elim m [ ]
free-mem (d ∷ cs) h c m = elim (Mem-cases m) [
  | inl e ↦ free_listed cs (update h d none) c (ground arith)
  | inr rest ↦ free-mem cs (update h d none) c rest
]

pub free-not_mem : (cs : List ℕ) (h : ℕ → Option Consumer) (c : ℕ) → ¬ Memᴰ c cs → free cs h c ≡ h c
unfolding free
free-not_mem [] h c n = refl
free-not_mem (d ∷ cs) h c n =
    free-not_mem cs (update h d none) c (λ m. n (Memᴰ.tail m))
    ∙ update-ne h d none c (λ e. n (Memᴰ.head (sym e)))

free-some :
    (cs : List ℕ) (h : ℕ → Option Consumer) (c : ℕ) (k : Consumer)
    → free cs h c ≡ some k
    → h c ≡ some k
unfolding free
free-some [] h c k e = e
free-some (d ∷ cs) h c k e = let e' = free-some cs (update h d none) c k e in ground arith

module _ {S D : Type 0} (p : ℕ) where
  -- Between the two loops the peer has no streams, and the whole invariant holds again.
  Quiet-Inv : (r : Router S D) → Quiet p r → Inv (with_producers p [] r)
  Quiet-Inv r v =
      let peer : Peer S D = record (r.peers p) { producers = [] } in
      record {
        linked = λ q c s.
            update_elim
              (λ q (x : Peer S D).
                Linked c s x.producers
                → (k : Consumer) × (r.consumers c ≡ some k)
                  × (k.publisher ≡ some q)
                  × (k.publisher_ssrc ≡ s))
              r.peers p peer (λ l. elim l [ ]) (λ j ne l. v.linked j c s (λ e. ne (sym e)) l) q;
        distinct =
            update_elim (λ q (x : Peer S D). Distinct x.producers) r.peers p peer tt
              (λ j _. v.distinct j);
        owned = λ q c.
            update_elim
              (λ q (x : Peer S D).
                Memᴰ c x.consumers
                → (k : Consumer) × (r.consumers c ≡ some k) × (k.subscriber ≡ some q))
              r.peers p peer (v.owned p c) (λ j _. v.owned j c) q;
        mapped = v.mapped;
        fresh = v.fresh;
      }

  -- Freeing the peer's consumers keeps the invariant once they are gone from lists and map.
  clear_consumers-Inv :
      (r : Router S D)
      → Inv r
      → ((c : ℕ) → Memᴰ c (r.peers p).consumers → Gone c r)
      → Inv (clear_consumers p r)
  clear_consumers-Inv r v gone =
      let mine = (r.peers p).consumers in
      let peer : Peer S D = record (r.peers p) { consumers = [] } in
      record {
        linked = λ q c s.
            update_elim
              (λ q (x : Peer S D).
                Linked c s x.producers
                → (k : Consumer) × (free mine r.consumers c ≡ some k)
                  × (k.publisher ≡ some q)
                  × (k.publisher_ssrc ≡ s))
              r.peers p peer (λ l. keep p c s l) (λ j _ l. keep j c s l) q;
        distinct =
            update_elim (λ q (x : Peer S D). Distinct x.producers) r.peers p peer (v.distinct p)
              (λ j _. v.distinct j);
        owned = λ q c.
            update_elim
              (λ q (x : Peer S D).
                Memᴰ c x.consumers
                → (k : Consumer) × (free mine r.consumers c ≡ some k) × (k.subscriber ≡ some q))
              r.peers p peer (λ m. elim m [ ]) (λ j ne m. theirs j c ne m) q;
        mapped = λ s c e.
            let (k, alive, at_s) = v.mapped s c e in
            (k, free-not_mem mine r.consumers c (λ m. (gone c m).unmapped s e) ∙ alive, at_s);
        fresh = λ c k e. v.fresh c k (free-some mine r.consumers c k e);
      }
    where
      keep :
          (q c s : ℕ)
          → Linked c s (r.peers q).producers
          → (k : Consumer) × (free (r.peers p).consumers r.consumers c ≡ some k)
            × (k.publisher ≡ some q)
            × (k.publisher_ssrc ≡ s)
      keep q c s l =
          let (k, alive, pub_, at_s) = v.linked q c s l in
          (
            k,
            free-not_mem (r.peers p).consumers r.consumers c (λ m. (gone c m).unlinked q s l)
                ∙ alive,
            pub_,
            at_s,
          )

      theirs :
          (q c : ℕ)
          → p ≢ q
          → Memᴰ c (r.peers q).consumers
          → (k : Consumer) × (free (r.peers p).consumers r.consumers c ≡ some k)
            × (k.subscriber ≡ some q)
      theirs q c ne m =
          let (k, alive, sub) = v.owned q c m in
          (
            k,
            free-not_mem (r.peers p).consumers r.consumers c
                  (λ m'. let (k', alive', sub') = v.owned p c m' in ground (arith, ne))
                ∙ alive,
            sub,
          )

  alive-All :
      (r : Router S D) (q : ℕ) (cs : List ℕ)
      → ((c : ℕ) → Memᴰ c cs → (k : Consumer) × (r.consumers c ≡ some k) × (k.subscriber ≡ some q))
      → All (λ c. (k : Consumer) × (r.consumers c ≡ some k)) cs
  alive-All r q [] h = tt
  alive-All r q (c ∷ cs) h =
      let (k, e, _) = h c (Memᴰ.head refl) in ((k, e), alive-All r q cs (λ d m. h d (Memᴰ.tail m)))

  -- Under the invariant `removePeer` reads no freed object, keeps the invariant, frees every consumer
  -- that the peer owned, and leaves the peer without streams and subscriptions.
  pub remove_peer-Inv :
      (r : Router S D)
      → Inv r
      → (r' : Router S D) × (remove_peer p r ≡ some r')
        × Inv r'
        × ((c : ℕ) → Memᴰ c (r.peers p).consumers → r'.consumers c ≡ none)
        × ((r'.peers p).producers ≡ [])
        × ((r'.peers p).consumers ≡ [])
  unfolding remove_peer
  remove_peer-Inv r v =
      let (r₁, done₁, quiet, same₁) =
        silence_all_lem p (r.peers p).producers r (Inv-Quiet p r v) (λ c s l. l) in
      let r₂ = with_producers p [] r₁ in
      let v₂ = Quiet-Inv r₁ quiet in
      let (r₃, done₃, sh, gone) =
        unsubscribe_lem (r₂.peers p).consumers r₂ v₂
          (alive-All r₂ p (r₂.peers p).consumers (v₂.owned p)) in
      let mine₃ : (r₃.peers p).consumers ≡ (r₂.peers p).consumers = sh.subscriptions p in
      let mine₂ : (r₂.peers p).consumers ≡ (r.peers p).consumers =
        ap (λ (x : Peer S D). x.consumers)
          (update_self r₁.peers p (record (r₁.peers p) { producers = [] }))
        ∙ ap (λ (f : ℕ → Peer S D). (f p).consumers) same₁ in
      let none₂ : (r₂.peers p).producers ≡ [] =
        ap (λ (x : Peer S D). x.producers)
          (update_self r₁.peers p (record (r₁.peers p) { producers = [] })) in
      let r₄ = clear_consumers p r₃ in
      let v₄ = clear_consumers-Inv r₃ (Shrinks-Inv r₂ r₃ sh v₂) (λ c m. gone c (rw mine₃ at m)) in
      let self₄ = update_self r₃.peers p (record (r₃.peers p) { consumers = [] }) in
      (
        record r₄ { all_peers = without p r₄.all_peers; table = unbind_peer p r₄.table },
        rw done₁ (rw done₃ refl),
        record {
          linked = v₄.linked;
          distinct = v₄.distinct;
          owned = v₄.owned;
          mapped = v₄.mapped;
          fresh = v₄.fresh;
        },
        (λ c m. free-mem (r₃.peers p).consumers r₃.consumers c (rw (mine₃, mine₂) m)),
        ap (λ (x : Peer S D). x.producers) self₄ ∙ sh.no_streams p none₂,
        ap (λ (x : Peer S D). x.consumers) self₄,
      )
