-- ===== src/Sfu/Memory/Silence.antt =====
-- The first loop of Router::removePeer: the consumers of the streams of the peer that leaves.
use mathlib.Core.List.{Memᴰ}
use namecon.Common.{
  ℕ, ◌≡◌, ◌≢◌, refl, sym, ◌∙◌, ap, ◌<◌, List, [], ◌∷◌, none, some, All, arith, false,
}
use mathlib.Core.Path.{subst}
use mathlib.Core.Option.{some-injective}
use namecon.Common.Store.{update-ne, lookup, erase}
use native.Mathlib.Decide.{ℕ_discrete}
use namecon.Sfu.Types.{Consumer, Producer}
use namecon.Sfu.State.{Router, set_consumer}
use namecon.Sfu.Setup.{silence, silence_all}
use namecon.Sfu.Memory.{Inv, Linked, here, later, Distinct}
use namecon.Sfu.Memory.Unsubscribe.{erase-entries}

abbrev mute : Consumer → Consumer
mute k = record k { publisher = none; active = false }

listed_links :
    (s : ℕ) (ps : List Producer) (cs : List ℕ)
    → ((c : ℕ) → Memᴰ c cs → Linked c s ps)
    → All (λ c. (s : ℕ) × Linked c s ps) cs
listed_links s ps [] h = tt
listed_links s ps (c ∷ cs) h =
    ((s, h c (Memᴰ.head refl)), listed_links s ps cs (λ d m. h d (Memᴰ.tail m)))

module _ {S D : Type 0} (p : ℕ) where
  -- The invariant while the streams of `p` are being silenced: what they list is alive, and has no
  -- other publisher.
  pub record Quiet (r : Router S D) : Type 0 where
    pub linked :
        (q c s : ℕ)
        → q ≢ p
        → Linked c s (r.peers q).producers
        → (k : Consumer) × (r.consumers c ≡ some k)
          × (k.publisher ≡ some q)
          × (k.publisher_ssrc ≡ s)
    pub own :
        (c s : ℕ)
        → Linked c s (r.peers p).producers
        → (k : Consumer) × (r.consumers c ≡ some k) × ((q : ℕ) → q ≢ p → k.publisher ≢ some q)
    pub distinct : (q : ℕ) → Distinct (r.peers q).producers
    pub owned :
        (q c : ℕ)
        → Memᴰ c (r.peers q).consumers
        → (k : Consumer) × (r.consumers c ≡ some k) × (k.subscriber ≡ some q)
    pub mapped :
        (s c : ℕ)
        → lookup s r.out_ssrcs ≡ some c
        → (k : Consumer) × (r.consumers c ≡ some k) × (k.rewritten_ssrc ≡ s)
    pub fresh : (c : ℕ) (k : Consumer) → r.consumers c ≡ some k → c < r.next

  pub Inv-Quiet : (r : Router S D) → Inv r → Quiet r
  Inv-Quiet r v = record {
    linked = λ q c s _ l. v.linked q c s l;
    own = λ c s l. let (k, e, pub_, _) = v.linked p c s l in (k, e, λ q ne e'. ground (arith, ne));
    distinct = v.distinct;
    owned = v.owned;
    mapped = v.mapped;
    fresh = v.fresh;
  }

  abbrev silenced : ℕ → Consumer → Router S D → Router S D
  silenced c k r = record (set_consumer c (mute k) r) {
    out_ssrcs = erase k.rewritten_ssrc r.out_ssrcs;
  }

  module _ (c : ℕ) (k : Consumer) (r : Router S D) (alive : r.consumers c ≡ some k) where
    -- What holds of every object before holds of every object after, if muting keeps it.
    after_mute :
        (P : Consumer → Type 0) (d : ℕ)
        → (P k → P (mute k))
        → ((k' : Consumer) × (r.consumers d ≡ some k') × P k')
        → (k' : Consumer) × ((silenced c k r).consumers d ≡ some k') × P k'
    after_mute P d keep (k', e, h) = elim (ℕ_discrete c d) [
      | yes same ↦ (
        mute k,
        ground arith,
        keep (subst P (some-injective k' k (sym e ∙ ap r.consumers (sym same) ∙ alive)) h),
      )
      | no other ↦ (k', ground arith, h)
    ]

    Quiet-silenced : Quiet r → ((q : ℕ) → q ≢ p → k.publisher ≢ some q) → Quiet (silenced c k r)
    Quiet-silenced v alone = record {
      linked = λ q d s ne l.
          let (k', e, pub_, at_s) = v.linked q d s ne l in
          let away : c ≢ d = λ same. alone q ne (ground arith) in
          (k', update-ne r.consumers c (some (mute k)) d away ∙ e, pub_, at_s);
      own = λ d s l.
          after_mute (λ x. (q : ℕ) → q ≢ p → x.publisher ≢ some q) d (λ _ q _ e. cc) (v.own d s l);
      distinct = v.distinct;
      owned = λ q d m. after_mute (λ x. x.subscriber ≡ some q) d (λ e. e) (v.owned q d m);
      mapped = λ s d found.
          after_mute (λ x. x.rewritten_ssrc ≡ s) d (λ e. e)
            (v.mapped s d (erase-entries k.rewritten_ssrc s d r.out_ssrcs found).0);
      fresh = λ d k' e. elim (ℕ_discrete c d) [
        | yes same ↦ rw (← same) (v.fresh c k alive)
        | no other ↦ v.fresh d k' (sym (update-ne r.consumers c (some (mute k)) d other) ∙ e)
      ];
    }

  silence_lem :
      (cs : List ℕ) (r : Router S D)
      → Quiet r
      → All (λ c. (s : ℕ) × Linked c s (r.peers p).producers) cs
      → (r' : Router S D) × (silence cs r ≡ some r') × Quiet r' × (r'.peers ≡ r.peers)
  unfolding silence
  silence_lem [] r v inside = (r, refl, v, refl)
  silence_lem (c ∷ cs) r v ((s, l), inside) =
      let (k, e, alone) = v.own c s l in
      let (r', done, v', same) =
        silence_lem cs (silenced c k r) (Quiet-silenced c k r e v alone) inside in
      (r', rw e done, v', same)

  -- The first loop ends, with the weaker invariant.
  pub silence_all_lem :
      (ps : List Producer) (r : Router S D)
      → Quiet r
      → ((c s : ℕ) → Linked c s ps → Linked c s (r.peers p).producers)
      → (r' : Router S D) × (silence_all ps r ≡ some r') × Quiet r' × (r'.peers ≡ r.peers)
  unfolding silence_all
  silence_all_lem [] r v inside = (r, refl, v, refl)
  silence_all_lem (x ∷ ps) r v inside =
      let (r₁, done₁, v₁, same₁) = silence_lem x.consumers r v (
        listed_links x.original_ssrc (r.peers p).producers x.consumers
          (λ c m. inside c x.original_ssrc (here refl m))) in
      let (r₂, done₂, v₂, same₂) =
        silence_all_lem ps r₁ v₁ (λ c s l. rw same₁ (inside c s (later l))) in
      (r₂, rw done₁ done₂, v₂, same₂ ∙ same₁)
