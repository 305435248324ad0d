-- ===== src/Sfu/Memory/Producers.antt =====
-- A peer's producers: the search by SSRC, and a producer at the end.
use namecon.Common.{
  ℕ, ◌≡◌, ◌≢◌, sym, ◌∙◌, ap, ◌⊎◌, inl, inr, List, [], ◌∷◌, ◌++◌, none, some, arith, All, Bool-cases,
  ◌==◌,
}
use mathlib.Core.Path.{subst}
use mathlib.Core.Option.{some-injective}
use mathlib.Core.List.{Memᴰ}
use namecon.Sfu.Types.{Producer}
use namecon.Sfu.Setup.{find_producer}
use namecon.Sfu.Memory.{Linked, here, later, Distinct}
use namecon.Sfu.Memory.Links.{Linked-cases}

All-last :
    (s : ℕ) (ps : List Producer) (p : Producer)
    → All (λ x. x.original_ssrc ≢ s) ps
    → p.original_ssrc ≢ s
    → All (λ x. x.original_ssrc ≢ s) (ps ++ (p ∷ []))
All-last s [] p h n = (n, tt)
All-last s (x ∷ ps) p h n = (h.0, All-last s ps p h.1 n)

-- `find_producer` found nothing: no producer has the SSRC.
pub find_producer-none :
    (s : ℕ) (ps : List Producer) → find_producer s ps ≡ none → All (λ x. x.original_ssrc ≢ s) ps
unfolding find_producer
find_producer-none s [] e = tt
find_producer-none s (x ∷ ps) e = (ground arith, find_producer-none s ps (ground arith))

pub Distinct-last :
    (ps : List Producer) (p : Producer)
    → Distinct ps
    → p.original_ssrc ≢ 0
    → All (λ x. x.original_ssrc ≢ p.original_ssrc) ps
    → Distinct (ps ++ (p ∷ []))
Distinct-last [] p d n h = (n, tt, tt)
Distinct-last (x ∷ ps) p d n h =
    (d.0, All-last x.original_ssrc ps p d.1 (λ e. h.0 (sym e)), Distinct-last ps p d.2 n h.1)

pub Linked-last :
    (ps : List Producer) (p : Producer) (c s : ℕ)
    → Linked c s (ps ++ (p ∷ []))
    → Linked c s ps ⊎ ((p.original_ssrc ≡ s) × Memᴰ c p.consumers)
Linked-last [] p c s l = elim (Linked-cases l) [ inl h ↦ inr h | inr r ↦ elim r [ ] ]
Linked-last (x ∷ ps) p c s l = elim (Linked-cases l) [
  | inl (e, m) ↦ inl (here e m)
  | inr r ↦ elim (Linked-last ps p c s r) [ inl o ↦ inl (later o) | inr n ↦ inr n ]
]

-- A link's SSRC is not 0.
pub Linked-ne-zero : (c s : ℕ) (ps : List Producer) → Distinct ps → Linked c s ps → s ≢ 0
Linked-ne-zero c s [] d l = elim l [ ]
Linked-ne-zero c s (p ∷ ps) d (here e m) = λ z. d.0 (e ∙ z)
Linked-ne-zero c s (p ∷ ps) d (later l) = Linked-ne-zero c s ps d.2 l

-- A producer that is found is the peer's, and what it lists is linked to its SSRC.
pub find_producer-some :
    (s : ℕ) (ps : List Producer) (p : Producer)
    → find_producer s ps ≡ some p
    → (p.original_ssrc ≡ s) × ((c : ℕ) → Memᴰ c p.consumers → Linked c s ps)
unfolding find_producer
find_producer-some s [] p e = cc
find_producer-some s (x ∷ ps) p e = elim (Bool-cases (x.original_ssrc == s)) [
  | inl hit ↦
      let same : x ≡ p = some-injective x p (rw hit at e) in
      let at_s : x.original_ssrc ≡ s = ground arith in
      (
        ap (λ (z : Producer). z.original_ssrc) (sym same) ∙ at_s,
        λ c m. here at_s (subst (λ (z : Producer). Memᴰ c z.consumers) (sym same) m),
      )
  | inr miss ↦
      let (at_s, links) = find_producer-some s ps p (rw miss at e) in
      (at_s, λ c m. later (links c m))
]
