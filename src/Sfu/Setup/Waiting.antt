-- ===== src/Sfu/Setup/Waiting.antt =====
-- Router::findOrCreateProducer and the subscriptions that wait for it.
use namecon.Sfu.Types.{Producer, Peer, Consumer}
use namecon.Sfu.State.{Router, send_rtcp, sent_on}
use namecon.Common.Bytes.{Bytes}
use namecon.Transport.Srtp.{Lib, protect_rtcp, SrtpContext}
use namecon.Common.Store.{update, update_elim, update_self, bind-some}
use namecon.Common.{
  Option-cases, refl, ◌++◌, if_cases, if◌then◌else◌, if_elim, ℕ, ◌≡◌, ◌≢◌, inl, inr, sym, ◌∙◌, Bool,
  false, some, [], ◌∷◌, arith, List, Option,
}
use mathlib.Core.Path.{ap, subst}
use namecon.Sfu.Setup.{
  pli_for, ask_key_frame, find_producer, create_producer, find_or_create_producer, subscriptions,
  waiting, link,
}
use namecon.Sfu.Memory.Produce.{Keeps-asked}
use namecon.Sfu.RouteTable.{bind}
use mathlib.Core.Option.{none, some-injective}
use namecon.Sfu.Memory.Links.{Mem-cases}
use mathlib.Core.List.{Memᴰ}

module _ (q : ℕ) (is_video : Bool) (ssrc : ℕ) (ne : ssrc ≢ 0) where
  abbrev Settled : (ℕ → Option Consumer) → ℕ → Type 0
  Settled h c = (k : Consumer) → h c ≡ some k → waiting k q is_video ≡ false

  -- The loop's write leaves no object waiting that was not.
  Settled-write :
      (h : ℕ → Option Consumer) (d c : ℕ) (k : Consumer)
      → Settled h c
      → Settled (update h d (some (record k { publisher_ssrc = ssrc }))) c
  Settled-write h d c k old =
      update_elim
        (λ j (x : Option Consumer).
          Settled h j → (y : Consumer) → x ≡ some y → waiting y q is_video ≡ false)
        h d (some (record k { publisher_ssrc = ssrc }))
        (λ _ y e.
          subst (λ y. waiting y q is_video ≡ false) (some-injective _ y e) (ground (arith, ne)))
        (λ j _ o. o) c old

  Settled-self :
      (h : ℕ → Option Consumer) (c : ℕ) (k : Consumer)
      → Settled (update h c (some (record k { publisher_ssrc = ssrc }))) c
  Settled-self h c k y e =
      subst (λ y. waiting y q is_video ≡ false) (some-injective _ y (sym (update_self h c _) ∙ e))
        (ground (arith, ne))

  link-Settled :
      (cs : List ℕ) (h h' : ℕ → Option Consumer) (linked linked' : List ℕ) (c : ℕ)
      → link cs q is_video ssrc h linked ≡ some (h', linked')
      → Settled h c
      → Settled h' c
  unfolding link
  link-Settled [] h h' linked linked' c e old =
      subst (λ (z : (ℕ → Option Consumer) × List ℕ). Settled z.0 c)
        (some-injective _ (h', linked') e) old
  link-Settled (d ∷ cs) h h' linked linked' c e old =
      let (k, ek, rest) = bind-some (h d) _ (h', linked') e in
      link-Settled cs _ h' _ linked' c rest
        (if_elim (λ g. Settled g c) (waiting k q is_video) _ _ (Settled-write h d c k old) old)

  -- What the loop visited waits no more.
  pub link-visited :
      (cs : List ℕ) (h h' : ℕ → Option Consumer) (linked linked' : List ℕ) (c : ℕ)
      → link cs q is_video ssrc h linked ≡ some (h', linked')
      → Memᴰ c cs
      → Settled h' c
  unfolding link
  link-visited [] h h' linked linked' c e m = elim m [ ]
  link-visited (d ∷ cs) h h' linked linked' c e m =
      let (k, ek, rest) = bind-some (h d) _ (h', linked') e in
      elim (Mem-cases m) [
        | inl same ↦ link-Settled cs _ h' _ linked' c rest (
            subst
              (λ i.
                Settled
                  (if waiting k q is_video
                    then update h d (some (record k { publisher_ssrc = ssrc }))
                    else h)
                  i)
              (sym same)
              (if_cases (λ g. Settled g d) (waiting k q is_video) _ _ (λ _. Settled-self h d k)
                (λ miss y ey.
                  subst (λ z. waiting z q is_video ≡ false) (some-injective k y (sym ek ∙ ey))
                    miss)))
        | inr later ↦ link-visited cs _ h' _ linked' c rest later
      ]

Mem-left : (c : ℕ) (xs ys : List ℕ) → Memᴰ c xs → Memᴰ c (xs ++ ys)
Mem-left c [] ys m = elim m [ ]
Mem-left c (x ∷ xs) ys m = elim (Mem-cases m) [
  | inl e ↦ Memᴰ.head e
  | inr rest ↦ Memᴰ.tail (Mem-left c xs ys rest)
]

Mem-right : (c : ℕ) (xs ys : List ℕ) → Memᴰ c ys → Memᴰ c (xs ++ ys)
Mem-right c [] ys m = m
Mem-right c (x ∷ xs) ys m = Memᴰ.tail (Mem-right c xs ys m)

module _ {S D : Type 0} where
  subscriptions-mem :
      (peers : ℕ → Peer S D) (ps : List ℕ) (p c : ℕ)
      → Memᴰ p ps
      → Memᴰ c (peers p).consumers
      → Memᴰ c (subscriptions peers ps)
  unfolding subscriptions
  subscriptions-mem peers [] p c m n = elim m [ ]
  subscriptions-mem peers (x ∷ ps) p c m n = elim (Mem-cases m) [
    | inl e ↦ Mem-left c (peers x).consumers _ (subst (λ i. Memᴰ c (peers i).consumers) e n)
    | inr rest ↦ Mem-right c (peers x).consumers _ (subscriptions-mem peers ps p c rest n)
  ]

  sent_on-all_peers :
      (q : ℕ) (out : SrtpContext S × Option Bytes) (r : Router S D)
      → (sent_on q out r).0.all_peers ≡ r.all_peers
  sent_on-all_peers q (ctx, none) r = refl
  sent_on-all_peers q (ctx, some out) r = refl

  module _ ⦃lib : Lib S⦄ where
    send_rtcp-all_peers :
        (q : ℕ) (pkt : Bytes) (r : Router S D) → (send_rtcp q pkt r).0.all_peers ≡ r.all_peers
    unfolding send_rtcp
    send_rtcp-all_peers q pkt r = elim (Option-cases (r.peers q).srtp) [
      | inl e ↦ rw e refl
      | inr (ctx, e) ↦ rw e (sent_on-all_peers q (protect_rtcp ctx pkt) r)
    ]

    -- When a stream's first packet, with an SSRC that is not 0, makes its producer, no consumer
    -- that a registered peer owns is left waiting for the stream's publisher and kind.
    pub none-waiting :
        (q ssrc : ℕ) (is_video : Bool) (r r' : Router S D) (made : Producer) (p c : ℕ)
        (k : Consumer)
        → ssrc ≢ 0
        → find_producer ssrc (r.peers q).producers ≡ none
        → find_or_create_producer q ssrc is_video r ≡ some (r', made)
        → Memᴰ p r.all_peers
        → Memᴰ c (r.peers p).consumers
        → r'.consumers c ≡ some k
        → waiting k q is_video ≡ false
    unfolding find_or_create_producer create_producer
    none-waiting q ssrc is_video r r' made p c k ne absent done m n alive =
        let r₁ = ask_key_frame q ssrc is_video (record r { table = bind ssrc q r.table }) in
        let w = Keeps-asked q ssrc is_video r in
        let same : r₁.all_peers ≡ r.all_peers =
          if_elim (λ (x : Router S D). x.all_peers ≡ r.all_peers) is_video _ _
            (send_rtcp-all_peers q (pli_for ssrc) (record r { table = bind ssrc q r.table }))
            refl in
        let ((h, linked), e, rest) =
          bind-some (link (subscriptions r₁.peers r₁.all_peers) q is_video ssrc r₁.consumers []) _
            (r', made) (rw absent at done) in
        let heap : r'.consumers ≡ h =
          ap (λ (z : Router S D × Producer). z.0.consumers)
            (sym (some-injective _ (r', made) rest)) in
        link-visited q is_video ssrc ne (subscriptions r₁.peers r₁.all_peers) r₁.consumers h []
          linked c e
          (subscriptions-mem r₁.peers r₁.all_peers p c (rw same m) (rw (w.subscriptions p) n)) k
          (ap (λ (f : ℕ → Option Consumer). f c) (sym heap) ∙ alive)
