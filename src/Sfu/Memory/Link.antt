-- ===== src/Sfu/Memory/Link.antt =====
-- The loop of Router::findOrCreateProducer that links the waiting consumers.
use mathlib.Core.Option.{some-injective}
use namecon.Common.{
  ℕ, ◌≡◌, ◌≢◌, refl, sym, ◌∙◌, ap, ◌⊎◌, inl, inr, List, [], ◌∷◌, ◌++◌, Option, some, arith, Bool,
  true, All, Bool-cases,
}
use namecon.Common.Store.{update, update_self, update-ne}
use mathlib.Core.List.{Memᴰ}
use native.Mathlib.Decide.{ℕ_discrete}
use namecon.Sfu.Types.{Consumer}
use namecon.Sfu.Setup.{waiting, link}
use namecon.Sfu.Memory.Links.{Mem-last}

pub waiting-true :
    (k : Consumer) (q : ℕ) (is_video : Bool)
    → waiting k q is_video ≡ true
    → (k.publisher ≡ some q) × (k.publisher_ssrc ≡ 0) × (k.is_video ≡ is_video)
waiting-true k q is_video e = ground arith

module _ (q : ℕ) (is_video : Bool) (ssrc : ℕ) (ne : ssrc ≢ 0) (h₀ : ℕ → Option Consumer) where
  -- What the loop made of an object: nothing, or it waited and got the SSRC.
  abbrev pub Moved : Consumer → Consumer → Type 0
  Moved k k' =
      (k' ≡ k)
      ⊎ ((k' ≡ record k { publisher_ssrc = ssrc })
          × (k.publisher ≡ some q)
          × (k.publisher_ssrc ≡ 0))

  pub record Linking (h : ℕ → Option Consumer) (linked : List ℕ) : Type 0 where
    pub forth :
        (c : ℕ) (k : Consumer) → h₀ c ≡ some k → (k' : Consumer) × (h c ≡ some k') × Moved k k'
    pub back : (c : ℕ) (k' : Consumer) → h c ≡ some k' → (k : Consumer) × (h₀ c ≡ some k)
    pub joined :
        (c : ℕ)
        → Memᴰ c linked
        → (k' : Consumer) × (h c ≡ some k') × (k'.publisher ≡ some q) × (k'.publisher_ssrc ≡ ssrc)

  Linking-step :
      (h : ℕ → Option Consumer) (linked : List ℕ) (c : ℕ) (k : Consumer)
      → Linking h linked
      → h c ≡ some k
      → waiting k q is_video ≡ true
      → Linking (update h c (some (record k { publisher_ssrc = ssrc }))) (linked ++ (c ∷ []))
  Linking-step h linked c k v alive waits = record {
    forth = λ d x ex.
        let (k', e', m) = v.forth d x ex in
        elim (ℕ_discrete c d) [
          | yes same ↦
              (k₁, at_c d same, moved x (some-injective k' k (sym e' ∙ ap h (sym same) ∙ alive)) m)
          | no other ↦ (k', update-ne h c (some k₁) d other ∙ e', m)
        ];
    back = λ d x ex. elim (ℕ_discrete c d) [
      | yes same ↦ v.back d k (ap h (sym same) ∙ alive)
      | no other ↦ v.back d x (sym (update-ne h c (some k₁) d other) ∙ ex)
    ];
    joined = λ d m. elim (Mem-last linked m) [
      | inl old ↦ elim (ℕ_discrete c d) [
        | yes same ↦ (k₁, at_c d same, (waiting-true k q is_video waits).0, refl)
        | no other ↦
            let (x, e, a, b) = v.joined d old in (x, update-ne h c (some k₁) d other ∙ e, a, b)
      ]
      | inr new ↦ (k₁, at_c d (sym new), (waiting-true k q is_video waits).0, refl)
    ];
  }
    where
      k₁ : Consumer
      k₁ = record k { publisher_ssrc = ssrc }

      at_c : (d : ℕ) → c ≡ d → update h c (some k₁) d ≡ some k₁
      at_c d same = ap (update h c (some k₁)) (sym same) ∙ update_self h c (some k₁)

      moved : (x : Consumer) {k' : Consumer} → k' ≡ k → Moved x k' → Moved x k₁
      moved x e (inl e') =
          let same : k ≡ x = sym e ∙ e' in
          let (a, b, _) = waiting-true k q is_video waits in
          inr (
            ap (λ (z : Consumer). record z { publisher_ssrc = ssrc }) same,
            ap (λ (z : Consumer). z.publisher) (sym same) ∙ a,
            ap (λ (z : Consumer). z.publisher_ssrc) (sym same) ∙ b,
          )
      moved x e (inr (e', _, _)) =
          let old : k.publisher_ssrc ≡ ssrc =
            ap (λ (z : Consumer). z.publisher_ssrc) (sym e ∙ e') in
          absurd (ne (sym old ∙ (waiting-true k q is_video waits).1))

  pub link_lem :
      (cs : List ℕ) (h : ℕ → Option Consumer) (linked : List ℕ)
      → Linking h linked
      → All (λ c. (k : Consumer) × (h₀ c ≡ some k)) cs
      → (h' : ℕ → Option Consumer) × (linked' : List ℕ) × (link cs q is_video ssrc h linked
          ≡ some (h', linked'))
        × Linking h' linked'
  unfolding link
  link_lem [] h linked v alive = (h, linked, refl, v)
  link_lem (c ∷ cs) h linked v ((k₀, e₀), alive) =
      let (k, e, _) = v.forth c k₀ e₀ in
      elim (Bool-cases (waiting k q is_video)) [
        | inl waits ↦
            let (h', linked', done, v') =
              link_lem cs (update h c (some (record k { publisher_ssrc = ssrc })))
                (linked ++ (c ∷ [])) (Linking-step h linked c k v e waits) alive in
            (h', linked', rw e (rw waits done), v')
        | inr busy ↦
            let (h', linked', done, v') = link_lem cs h linked v alive in
            (h', linked', rw e (rw busy done), v')
      ]

  pub Linking-start : Linking h₀ []
  Linking-start = record {
    forth = λ c k e. (k, e, inl refl);
    back = λ c k e. (k, e);
    joined = λ c m. elim m [ ];
  }
