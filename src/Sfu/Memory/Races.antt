-- ===== src/Sfu/Memory/Races.antt =====
-- Router::removePeer against the callers that hold on to what it frees.
use namecon.Common.Store.{update-ne}
use namecon.Sfu.Memory.Stages.{
  silence_all-other, listed-cut, silence_all-peers, stages, remove_peer-frees,
}
use namecon.Sfu.Setup.{with_producers, remove_peer}
use namecon.Sfu.Memory.Remove.{free-not_mem}
use namecon.Sfu.Memory.Packets.{Keeps-forward_to}
use namecon.Sfu.Types.{Peer, Consumer}
use namecon.Sfu.Forward.{forward_to, forward}
use namecon.Sfu.Memory.Links.{Mem-cases}
use namecon.Sfu.Memory.{Memᴰ, Linked}
use namecon.Common.{
  Option-cases, ℕ, ◌≡◌, ◌≢◌, refl, sym, ◌∙◌, ap, inl, inr, List, [], ◌∷◌, Option, none, some,
}
use namecon.Sfu.State.{Router}
use namecon.Common.Bytes.{Bytes}
use namecon.Sfu.Memory.Keeps.{Keeps}
use namecon.Transport.Srtp.{Lib}

module _ {S D : Type 0} where
  -- A consumer that no producer of the peer lists, and that the peer does not own, is the same after
  -- the peer's removal: it still names the peer as its publisher if it did.
  pub waiting_survives :
      (p c : ℕ) (k : Consumer) (r r' : Router S D)
      → r.consumers c ≡ some k
      → ((s : ℕ) → ¬ Linked c s (r.peers p).producers)
      → ¬ Memᴰ c (r.peers p).consumers
      → remove_peer p r ≡ some r'
      → r'.consumers c ≡ some k
  waiting_survives p c k r r' e free_of other done =
      let st = stages p r r' done in
      ap (λ (h : ℕ → Option Consumer). h c) st.heap
      ∙ free-not_mem (st.cut.peers p).consumers st.cut.consumers c
          (λ m. other (rw (listed-cut p r r' st) at m))
      ∙ ap (λ (h : ℕ → Option Consumer). h c) st.left.heap
      ∙ (silence_all-other (r.peers p).producers r st.quiet c free_of st.silenced).0
      ∙ e

  -- A producer with SSRC 0 of another peer still lists a consumer of the removed peer, and the
  -- consumer is freed.
  pub zero_ssrc_dangles :
      (p q c : ℕ) (r r' : Router S D)
      → p ≢ q
      → Memᴰ c (r.peers p).consumers
      → Linked c 0 (r.peers q).producers
      → remove_peer p r ≡ some r'
      → Linked c 0 (r'.peers q).producers × (r'.consumers c ≡ none)
  zero_ssrc_dangles p q c r r' ne m l done =
      let st = stages p r r' done in
      let same₁ : (st.quiet.peers q).producers ≡ (r.peers q).producers =
        ap (λ (f : ℕ → Peer S D). (f q).producers)
          (silence_all-peers (r.peers p).producers r st.quiet st.silenced) in
      let same₂ : ((with_producers p [] st.quiet).peers q).producers
          ≡ (st.quiet.peers q).producers =
        ap (λ (x : Peer S D). x.producers) (update-ne st.quiet.peers p _ q ne) in
      let same₃ : (r'.peers q).producers ≡ (st.cut.peers q).producers =
        ap (λ (f : ℕ → Peer S D). (f q).producers) st.peers
        ∙ ap (λ (x : Peer S D). x.producers) (update-ne st.cut.peers p _ q ne) in
      (rw same₃ (st.left.links q c (rw (same₂ ∙ same₁) l)), remove_peer-frees p c r r' m done)

  module _ ⦃lib : Lib S⦄ where
    still_freed :
        (c : ℕ) (r r' : Router S D) → Keeps r r' → r.consumers c ≡ none → r'.consumers c ≡ none
    still_freed c r r' w e = elim (Option-cases (r'.consumers c)) [
      | inl freed ↦ freed
      | inr (k, alive) ↦ let (k', alive') = w.back c k alive in cc
    ]

    forward-freed :
        (plain : Bytes) (cs : List ℕ) (c : ℕ) (r : Router S D)
        → r.consumers c ≡ none
        → Memᴰ c cs
        → forward plain cs r ≡ none
    unfolding forward
    forward-freed plain [] c r e m = elim m [ ]
    forward-freed plain (d ∷ cs) c r e m = elim (Option-cases (r.consumers d)) [
      | inl freed ↦ rw freed refl
      | inr (k, alive) ↦ rw alive (elim (Mem-cases m) [
        | inl same ↦ let freed = ap r.consumers (sym same) ∙ e in cc
        | inr rest ↦
            forward-freed plain cs c (forward_to plain d k r)
              (still_freed c r (forward_to plain d k r) (Keeps-forward_to plain d k r alive) e) rest
      ])
    ]

    -- A packet whose consumers were copied before the owner of one of them was removed, and that is
    -- forwarded after, reads the freed object, whatever the packet and the other consumers are.
    pub snapshot_dangles :
        (p c : ℕ) (plain : Bytes) (targets : List ℕ) (r r' : Router S D)
        → Memᴰ c (r.peers p).consumers
        → Memᴰ c targets
        → remove_peer p r ≡ some r'
        → forward plain targets r' ≡ none
    snapshot_dangles p c plain targets r r' m n done =
        forward-freed plain targets c r' (remove_peer-frees p c r r' m done) n
