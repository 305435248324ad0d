-- ===== src/Sfu/Memory/Links.antt =====
-- How the vectors of producers and of consumer pointers change.
use namecon.Sfu.Setup.{attach, attachable, attached_ssrc, without, unlink_from}
use namecon.Common.{
  Bool, ◌++◌, ℕ, ◌≡◌, refl, ◌∙◌, ◌≢◌, ◌⊎◌, inl, inr, List, [], ◌∷◌, All, arith, ◌==◌, not, ◌&&◌,
  Bool-cases, if_elim,
}
use mathlib.Core.List.{Memᴰ}
use namecon.Sfu.Types.{Producer}
use namecon.Sfu.Memory.{Linked, here, later, Distinct}

pub Mem-cases : {d x : ℕ} {xs : List ℕ} → Memᴰ d (x ∷ xs) → (d ≡ x) ⊎ Memᴰ d xs
Mem-cases (Memᴰ.head e) = inl e
Mem-cases (Memᴰ.tail m) = inr m

pub Linked-cases :
    {c s : ℕ} {p : Producer} {ps : List Producer}
    → Linked c s (p ∷ ps)
    → ((p.original_ssrc ≡ s) × Memᴰ c p.consumers) ⊎ Linked c s ps
Linked-cases (here e m) = inl (e, m)
Linked-cases (later l) = inr l

-- `without` keeps the other elements only.
without-mem : (c : ℕ) (ds : List ℕ) (d : ℕ) → Memᴰ d (without c ds) → Memᴰ d ds × (d ≢ c)
unfolding without
without-mem c [] d m = elim m [ ]
without-mem c (x ∷ ds) d m = elim (Bool-cases (x == c)) [
  | inl hit ↦ let (rest, other) = without-mem c ds d (rw hit at m) in (Memᴰ.tail rest, other)
  | inr miss ↦ elim (Mem-cases (rw miss at m)) [
    | inl e ↦ (Memᴰ.head e, ground arith)
    | inr n ↦ let (rest, other) = without-mem c ds d n in (Memᴰ.tail rest, other)
  ]
]

-- `unlink_from` adds no link.
pub Linked-unlink_from :
    (t c : ℕ) (ps : List Producer) (d s : ℕ) → Linked d s (unlink_from t c ps) → Linked d s ps
unfolding unlink_from
Linked-unlink_from t c [] d s l = l
Linked-unlink_from t c (p ∷ ps) d s l =
    elim (Bool-cases (p.original_ssrc == t && not (p.original_ssrc == 0))) [
      | inl hit ↦ elim (Linked-cases (rw hit at l)) [
        | inl (e, m) ↦ here e (without-mem c p.consumers d m).0
        | inr rest ↦ later rest
      ]
      | inr miss ↦ elim (Linked-cases (rw miss at l)) [
        | inl (e, m) ↦ here e m
        | inr rest ↦ later (Linked-unlink_from t c ps d s rest)
      ]
    ]

-- A producer further down has another SSRC.
Linked-ne :
    (c s t : ℕ) (ps : List Producer) → All (λ p. p.original_ssrc ≢ t) ps → Linked c s ps → s ≢ t
Linked-ne c s t [] other l = elim l [ ]
Linked-ne c s t (p ∷ ps) other (here e m) = λ e'. other.0 (e ∙ e')
Linked-ne c s t (p ∷ ps) other (later l) = Linked-ne c s t ps other.1 l

-- Where SSRCs are distinct and not 0, `unlink_from` cuts the consumer's link to the SSRC.
pub not-Linked-unlink_from :
    (t c : ℕ) (ps : List Producer) → Distinct ps → ¬ Linked c t (unlink_from t c ps)
unfolding unlink_from
not-Linked-unlink_from t c [] dist l = elim l [ ]
not-Linked-unlink_from t c (p ∷ ps) dist l =
    elim (Bool-cases (p.original_ssrc == t && not (p.original_ssrc == 0))) [
      | inl hit ↦ elim (Linked-cases (rw hit at l)) [
        | inl (e, m) ↦ (without-mem c p.consumers c m).1 refl
        | inr rest ↦ Linked-ne c t p.original_ssrc ps dist.1 rest (ground arith)
      ]
      | inr miss ↦ elim (Linked-cases (rw miss at l)) [
        | inl (e, m) ↦ ground (arith, dist.0)
        | inr rest ↦ not-Linked-unlink_from t c ps dist.2 rest
      ]
    ]

All-unlink_from :
    (t c s : ℕ) (ps : List Producer)
    → All (λ p. p.original_ssrc ≢ s) ps
    → All (λ p. p.original_ssrc ≢ s) (unlink_from t c ps)
unfolding unlink_from
All-unlink_from t c s [] h = h
All-unlink_from t c s (p ∷ ps) h =
    if_elim (All (λ p. p.original_ssrc ≢ s)) (p.original_ssrc == t && not (p.original_ssrc == 0)) _
      _ h (h.0, All-unlink_from t c s ps h.1)

pub Distinct-unlink_from :
    (t c : ℕ) (ps : List Producer) → Distinct ps → Distinct (unlink_from t c ps)
unfolding unlink_from
Distinct-unlink_from t c [] h = h
Distinct-unlink_from t c (p ∷ ps) h =
    if_elim Distinct (p.original_ssrc == t && not (p.original_ssrc == 0)) _ _ h
      (h.0, All-unlink_from t c p.original_ssrc ps h.1, Distinct-unlink_from t c ps h.2)

pub Mem-append : {d : ℕ} (xs ys : List ℕ) → Memᴰ d (xs ++ ys) → Memᴰ d xs ⊎ Memᴰ d ys
Mem-append [] ys m = inr m
Mem-append (x ∷ xs) ys m = elim (Mem-cases m) [
  | inl e ↦ inl (Memᴰ.head e)
  | inr rest ↦ elim (Mem-append xs ys rest) [ inl l ↦ inl (Memᴰ.tail l) | inr r ↦ inr r ]
]

pub Mem-last : {d c : ℕ} (xs : List ℕ) → Memᴰ d (xs ++ (c ∷ [])) → Memᴰ d xs ⊎ (d ≡ c)
Mem-last xs m = elim (Mem-append xs _ m) [
  | inl l ↦ inl l
  | inr r ↦ elim (Mem-cases r) [ inl e ↦ inr e | inr n ↦ elim n [ ] ]
]

-- `attach` adds one link: the new consumer, to the SSRC that `attached_ssrc` reports.
pub Linked-attach :
    (c : ℕ) (is_video : Bool) (ps : List Producer) (d s : ℕ)
    → Linked d s (attach c is_video ps)
    → Linked d s ps ⊎ ((d ≡ c) × (attached_ssrc is_video ps ≡ s))
unfolding attach attached_ssrc
Linked-attach c is_video [] d s l = elim l [ ]
Linked-attach c is_video (p ∷ ps) d s l = elim (Bool-cases (attachable is_video p)) [
  | inl hit ↦ rw hit (elim (Linked-cases (rw hit at l)) [
    | inl (e, m) ↦ elim (Mem-last p.consumers m) [
      | inl old ↦ inl (here e old)
      | inr new ↦ inr (new, e)
    ]
    | inr rest ↦ inl (later rest)
  ])
  | inr miss ↦ rw miss (elim (Linked-cases (rw miss at l)) [
    | inl (e, m) ↦ inl (here e m)
    | inr rest ↦ elim (Linked-attach c is_video ps d s rest) [
      | inl old ↦ inl (later old)
      | inr new ↦ inr new
    ]
  ])
]

All-attach :
    (c : ℕ) (is_video : Bool) (s : ℕ) (ps : List Producer)
    → All (λ p. p.original_ssrc ≢ s) ps
    → All (λ p. p.original_ssrc ≢ s) (attach c is_video ps)
unfolding attach
All-attach c is_video s [] h = h
All-attach c is_video s (p ∷ ps) h =
    if_elim (All (λ p. p.original_ssrc ≢ s)) (attachable is_video p) _ _ h
      (h.0, All-attach c is_video s ps h.1)

pub Distinct-attach :
    (c : ℕ) (is_video : Bool) (ps : List Producer) → Distinct ps → Distinct (attach c is_video ps)
unfolding attach
Distinct-attach c is_video [] h = h
Distinct-attach c is_video (p ∷ ps) h =
    if_elim Distinct (attachable is_video p) _ _ h
      (h.0, All-attach c is_video p.original_ssrc ps h.1, Distinct-attach c is_video ps h.2)
