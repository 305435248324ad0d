-- ===== src/Sfu/Memory/Stages.antt =====
-- The stages of Router::removePeer, and what each of them leaves alone.
use namecon.Common.Store.{update-ne, update_self, update_elim, bind-some}
use mathlib.Core.Option.{some-injective}
use mathlib.Core.Path.{subst}
use namecon.Sfu.Memory.{here, later, Memᴰ, Linked}
use namecon.Sfu.Memory.Links.{Linked-cases}
use namecon.Common.{
  not, ◌&&◌, ◌==◌, ℕ, ◌≡◌, refl, sym, ◌∙◌, ap, inl, inr, List, [], ◌∷◌, Option, none, some, arith,
  Bool-cases,
}
use namecon.Sfu.Memory.Remove.{free-mem}
use namecon.Sfu.Setup.{
  clear_consumers, free, with_producers, unlink_at, unlink_from, remove_peer, unsubscribe,
  silence_all, silence,
}
use namecon.Sfu.Types.{Producer, Peer, Consumer}
use namecon.Sfu.State.{Router}

-- Producers of SSRC 0 keep what they list.
Linked-zero : (t c d : ℕ) (ps : List Producer) → Linked d 0 ps → Linked d 0 (unlink_from t c ps)
unfolding unlink_from
Linked-zero t c d [] l = l
Linked-zero t c d (p ∷ ps) l =
    elim (Bool-cases (p.original_ssrc == t && not (p.original_ssrc == 0))) [
      | inl hit ↦ elim (Linked-cases l) [
        | inl (e, m) ↦ ground arith
        | inr rest ↦ rw hit (later rest)
      ]
      | inr miss ↦ elim (Linked-cases l) [
        | inl (e, m) ↦ rw miss (here e m)
        | inr rest ↦ rw miss (later (Linked-zero t c d ps rest))
      ]
    ]

module _ {S D : Type 0} where
  silence-other :
      (cs : List ℕ) (r r' : Router S D) (c : ℕ)
      → ¬ Memᴰ c cs
      → silence cs r ≡ some r'
      → (r'.consumers c ≡ r.consumers c) × (r'.peers ≡ r.peers)
  unfolding silence
  silence-other [] r r' c out e =
      let same = some-injective r r' e in
      (
        ap (λ (x : Router S D). x.consumers c) (sym same),
        ap (λ (x : Router S D). x.peers) (sym same),
      )
  silence-other (d ∷ cs) r r' c out e =
      let (k, ek, rest) = bind-some (r.consumers d) _ r' e in
      let (a, b) = silence-other cs _ r' c (λ m. out (Memᴰ.tail m)) rest in
      (a ∙ update-ne r.consumers d _ c (λ same. out (Memᴰ.head (sym same))), b)

  pub silence_all-other :
      (ps : List Producer) (r r' : Router S D) (c : ℕ)
      → ((s : ℕ) → ¬ Linked c s ps)
      → silence_all ps r ≡ some r'
      → (r'.consumers c ≡ r.consumers c) × (r'.peers ≡ r.peers)
  unfolding silence_all
  silence_all-other [] r r' c out e =
      let same = some-injective r r' e in
      (
        ap (λ (x : Router S D). x.consumers c) (sym same),
        ap (λ (x : Router S D). x.peers) (sym same),
      )
  silence_all-other (p ∷ ps) r r' c out e =
      let (r₁, e₁, rest) = bind-some (silence p.consumers r) _ r' e in
      let (a₁, b₁) = silence-other p.consumers r r₁ c (λ m. out p.original_ssrc (here refl m)) e₁ in
      let (a, b) = silence_all-other ps r₁ r' c (λ s l. out s (later l)) rest in (a ∙ a₁, b ∙ b₁)

  silence-peers : (cs : List ℕ) (r r' : Router S D) → silence cs r ≡ some r' → r'.peers ≡ r.peers
  unfolding silence
  silence-peers [] r r' e = ap (λ (x : Router S D). x.peers) (sym (some-injective r r' e))
  silence-peers (d ∷ cs) r r' e =
      let (k, ek, rest) = bind-some (r.consumers d) _ r' e in silence-peers cs _ r' rest

  pub silence_all-peers :
      (ps : List Producer) (r r' : Router S D) → silence_all ps r ≡ some r' → r'.peers ≡ r.peers
  unfolding silence_all
  silence_all-peers [] r r' e = ap (λ (x : Router S D). x.peers) (sym (some-injective r r' e))
  silence_all-peers (p ∷ ps) r r' e =
      let (r₁, e₁, rest) = bind-some (silence p.consumers r) _ r' e in
      silence_all-peers ps r₁ r' rest ∙ silence-peers p.consumers r r₁ e₁

  -- What the second loop keeps: all objects, all subscriptions, and the links to SSRC 0.
  pub record Left (r r' : Router S D) : Type 0 where
    pub heap : r'.consumers ≡ r.consumers
    pub subscriptions : (q : ℕ) → (r'.peers q).consumers ≡ (r.peers q).consumers
    pub links : (q d : ℕ) → Linked d 0 (r.peers q).producers → Linked d 0 (r'.peers q).producers

  Left-unlink_at :
      (c : ℕ) (k : Consumer) (o : Option ℕ) (r : Router S D) → Left r (unlink_at c k o r)
  Left-unlink_at c k none r = record { heap = refl; subscriptions = λ q. refl; links = λ q d l. l }
  Left-unlink_at c k (some p) r =
      let ps = unlink_from k.publisher_ssrc c (r.peers p).producers in
      let peer : Peer S D = record (r.peers p) { producers = ps } in
      record {
        heap = refl;
        subscriptions =
            update_elim (λ q (x : Peer S D). x.consumers ≡ (r.peers q).consumers) r.peers p peer
              refl (λ q _. refl);
        links = λ q d.
            update_elim
              (λ q (x : Peer S D). Linked d 0 (r.peers q).producers → Linked d 0 x.producers)
              r.peers p peer (Linked-zero k.publisher_ssrc c d (r.peers p).producers) (λ q _ l. l)
              q;
      }

  unsubscribe-Left : (cs : List ℕ) (r r' : Router S D) → unsubscribe cs r ≡ some r' → Left r r'
  unfolding unsubscribe
  unsubscribe-Left [] r r' e =
      subst (Left r) (some-injective r r' e)
        (record { heap = refl; subscriptions = λ q. refl; links = λ q d l. l })
  unsubscribe-Left (c ∷ cs) r r' e =
      let (k, ek, rest) = bind-some (r.consumers c) _ r' e in
      let a = Left-unlink_at c k k.publisher r in
      let b = unsubscribe-Left cs _ r' rest in
      record {
        heap = b.heap ∙ a.heap;
        subscriptions = λ q. b.subscriptions q ∙ a.subscriptions q;
        links = λ q d l. b.links q d (a.links q d l);
      }

  -- The stages of a removal that returns.
  pub record Stages (p : ℕ) (r r' : Router S D) : Type 0 where
    pub quiet : Router S D
    pub cut : Router S D
    pub silenced : silence_all (r.peers p).producers r ≡ some quiet
    pub left : Left (with_producers p [] quiet) cut
    pub heap : r'.consumers ≡ free (cut.peers p).consumers cut.consumers
    pub peers : r'.peers ≡ (clear_consumers p cut).peers

  pub stages : (p : ℕ) (r r' : Router S D) → remove_peer p r ≡ some r' → Stages p r r'
  unfolding remove_peer
  stages p r r' e =
      let (r₁, e₁, rest₁) = bind-some (silence_all (r.peers p).producers r) _ r' e in
      let r₂ = with_producers p [] r₁ in
      let (r₃, e₃, rest₃) = bind-some (unsubscribe (r₂.peers p).consumers r₂) _ r' rest₁ in
      record {
        quiet = r₁;
        cut = r₃;
        silenced = e₁;
        left = unsubscribe-Left (r₂.peers p).consumers r₂ r₃ e₃;
        heap = ap (λ (x : Router S D). x.consumers) (sym (some-injective _ r' rest₃));
        peers = ap (λ (x : Router S D). x.peers) (sym (some-injective _ r' rest₃));
      }

  -- The peer's list is the same in the end, up to the clearing.
  pub listed-cut :
      (p : ℕ) (r r' : Router S D) (st : Stages p r r')
      → (st.cut.peers p).consumers ≡ (r.peers p).consumers
  listed-cut p r r' st =
      st.left.subscriptions p
      ∙ ap (λ (x : Peer S D). x.consumers) (update_self st.quiet.peers p _)
      ∙ ap (λ (f : ℕ → Peer S D). (f p).consumers)
          (silence_all-peers (r.peers p).producers r st.quiet st.silenced)

  pub remove_peer-frees :
      (p c : ℕ) (r r' : Router S D)
      → Memᴰ c (r.peers p).consumers
      → remove_peer p r ≡ some r'
      → r'.consumers c ≡ none
  remove_peer-frees p c r r' m e =
      let st = stages p r r' e in
      ap (λ (h : ℕ → Option Consumer). h c) st.heap
      ∙ free-mem (st.cut.peers p).consumers st.cut.consumers c (rw (listed-cut p r r' st) m)
