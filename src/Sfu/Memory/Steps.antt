-- ===== src/Sfu/Memory/Steps.antt =====
-- The router's operations as steps, in any order and number, and what holds of every state that they
-- reach. Each step holds the router's lock, or runs with no other step in between.
use namecon.Sfu.Setup.{subscribe, allocate_ssrc, add_consumer, remove_peer}
use namecon.Common.Store.{lookup-nil, lookup, update_elim}
use namecon.Sfu.Memory.Keeps.{SameRefs-refl, Keeps-Inv}
use Prim.Native.String.{String}
use mathlib.Core.Path.{subst}
use mathlib.Core.Option.{some-injective}
use mathlib.Core.List.{Memᴰ}
use namecon.Common.{
  ℕ, ◌≡◌, ◌≢◌, refl, sym, ◌∙◌, ap, [], Option, none, some, Bool, Option-cases, inl, inr,
}
use namecon.Common.Bytes.{Bytes}
use namecon.Rtp.{RtpHeader, parse}
use namecon.Transport.Srtp.{Lib}
use namecon.Sfu.Types.{Consumer, Peer}
use namecon.Sfu.State.{Router, set_peer}
use namecon.Sfu.Mids.{bind_consumer_by_mid}
use namecon.Sfu.Forward.{on_rtp_packet}
use namecon.Sfu.Feedback.{on_rtcp_packet, generate_and_send_sr}
use namecon.Sfu.Memory.{Inv, Distinct, Linked}
use namecon.Sfu.Memory.Subscribe.{subscribe-Inv}
use namecon.Sfu.Memory.Remove.{remove_peer-Inv}
use namecon.Sfu.Memory.Packets.{on_rtp_packet-Inv}
use namecon.Sfu.Memory.Reports.{
  on_rtcp_packet-Inv, generate_and_send_sr-Inv, bind_consumer_by_mid-Inv,
}

-- The buffer is too short for an RTP header, or its SSRC is not 0.
abbrev pub HasSsrc : Bytes → Type 0
HasSsrc plain = (h : RtpHeader) → parse plain ≡ some h → h.ssrc ≢ 0

module _ {S D : Type 0} ⦃lib : Lib S⦄ where
  pub data Step : Router S D → Router S D → Type 0 where
    -- A peer is made, gets an endpoint or an SRTP context: its streams and subscriptions stay.
    changed :
        {r : Router S D} (q : ℕ) (x : Peer S D)
        → x.producers ≡ (r.peers q).producers
        → x.consumers ≡ (r.peers q).consumers
        → Step r (set_peer q x r)
    added :
        {r r' : Router S D} (dis : ℕ → ℕ) (sub pub_ : ℕ) (is_video : Bool) (ssrc : ℕ)
        → add_consumer dis sub pub_ is_video r ≡ some (ssrc, r')
        → Step r r'
    removed : {r r' : Router S D} (p : ℕ) → remove_peer p r ≡ some r' → Step r r'
    bound :
        {r r' : Router S D} (sub : ℕ) (name : String) (is_video : Bool) (mid : String) (ssrc : ℕ)
        → bind_consumer_by_mid sub name is_video mid r ≡ some (ssrc, r')
        → Step r r'
    media :
        {r r' : Router S D} (video_pts : ℕ → Bool) (plain : Bytes) (q : ℕ)
        → HasSsrc plain
        → on_rtp_packet video_pts plain q r ≡ some r'
        → Step r r'
    control : {r r' : Router S D} (rtcp : Bytes) → on_rtcp_packet rtcp r ≡ some r' → Step r r'
    reported :
        {r r' : Router S D} (now c : ℕ) (k : Consumer)
        → r.consumers c ≡ some k
        → generate_and_send_sr now c r ≡ some r'
        → Step r r'

  pub data Reach (r : Router S D) : Router S D → Type 0 where
    start : Reach r r
    next : {r₁ r₂ : Router S D} → Reach r r₁ → Step r₁ r₂ → Reach r r₂

  -- The router as it is built: no peer has a stream or a subscription.
  pub record IsInitial (r : Router S D) : Type 0 where
    pub no_streams : (q : ℕ) → (r.peers q).producers ≡ []
    pub no_subscriptions : (q : ℕ) → (r.peers q).consumers ≡ []
    pub no_objects : (c : ℕ) → r.consumers c ≡ none
    pub no_entries : r.out_ssrcs ≡ []

  initial-Inv : (r : Router S D) → IsInitial r → Inv r
  initial-Inv r i = record {
    linked = λ q c s l. elim (subst (Linked c s) (i.no_streams q) l) [ ];
    distinct = λ q. subst Distinct (sym (i.no_streams q)) tt;
    owned = λ q c m. elim (subst (Memᴰ c) (i.no_subscriptions q) m) [ ];
    mapped = λ s c e. let at = ap (lookup s) i.no_entries ∙ lookup-nil s in cc;
    fresh = λ c k e. let at = i.no_objects c in cc;
  }

  -- Two results of one call are one.
  same_result :
      (P : Router S D → Type 0) (o : Option (Router S D)) (r' : Router S D)
      → o ≡ some r'
      → ((x : Router S D) × (o ≡ some x) × P x)
      → P r'
  same_result P o r' e (x, e', h) = subst P (some-injective x r' (sym e' ∙ e)) h

  pub changed-Inv :
      (r : Router S D) (q : ℕ) (x : Peer S D)
      → x.producers ≡ (r.peers q).producers
      → x.consumers ≡ (r.peers q).consumers
      → Inv r
      → Inv (set_peer q x r)
  changed-Inv r q x e₁ e₂ v =
      Keeps-Inv r (set_peer q x r)
        (record {
          alive = λ c k e. (k, e, SameRefs-refl k);
          back = λ c k e. (k, e);
          next = refl;
          subscriptions =
              update_elim (λ j (y : Peer S D). y.consumers ≡ (r.peers j).consumers) r.peers q x e₂
                (λ j _. refl);
          streams =
              update_elim (λ j (y : Peer S D). y.producers ≡ (r.peers j).producers) r.peers q x e₁
                (λ j _. refl);
          entries = refl;
        })
        v

  added-Inv :
      (r r' : Router S D) (dis : ℕ → ℕ) (sub pub_ : ℕ) (is_video : Bool) (ssrc : ℕ)
      → add_consumer dis sub pub_ is_video r ≡ some (ssrc, r')
      → Inv r
      → Inv r'
  unfolding add_consumer
  added-Inv r r' dis sub pub_ is_video ssrc e v =
      elim (Option-cases (allocate_ssrc 1 dis r.draws)) [
        | inl failed ↦ let e' = rw failed at e in cc
        | inr ((s, d), drawn) ↦
            subst Inv
              (ap (λ (z : ℕ × Router S D). z.1)
                (some-injective (s, subscribe sub pub_ is_video s d r) (ssrc, r') (rw drawn at e)))
              (subscribe-Inv sub pub_ is_video s d r v)
      ]

  -- Every step keeps the invariant.
  pub Step-Inv : {r r' : Router S D} → Step r r' → Inv r → Inv r'
  Step-Inv (changed {r} q x e₁ e₂) v = changed-Inv r q x e₁ e₂ v
  Step-Inv (added {r} {r'} dis sub pub_ is_video ssrc e) v =
      added-Inv r r' dis sub pub_ is_video ssrc e v
  Step-Inv (removed {r} {r'} p e) v =
      same_result Inv _ r' e (let (x, e', v', _, _, _) = remove_peer-Inv p r v in (x, e', v'))
  Step-Inv (bound {r} {r'} sub name is_video mid ssrc e) v =
      let (s, x, e', v') = bind_consumer_by_mid-Inv sub name is_video mid r v in
      subst Inv (ap (λ (z : ℕ × Router S D). z.1) (some-injective (s, x) (ssrc, r') (sym e' ∙ e)))
        v'
  Step-Inv (media {r} {r'} video_pts plain q good e) v =
      same_result Inv _ r' e (on_rtp_packet-Inv video_pts plain q r good v)
  Step-Inv (control {r} {r'} rtcp e) v = same_result Inv _ r' e (on_rtcp_packet-Inv rtcp r v)
  Step-Inv (reported {r} {r'} now c k alive e) v =
      same_result Inv _ r' e (generate_and_send_sr-Inv now c k r alive v)

  pub Reach-Inv : {r r' : Router S D} → IsInitial r → Reach r r' → Inv r'
  Reach-Inv {r} i start = initial-Inv r i
  Reach-Inv i (next w st) = Step-Inv st (Reach-Inv i w)

  -- In every state that the router reaches from its initial one, by any steps in any order in which
  -- RTP packets have an SSRC that is not 0, the invariant holds, and the removal of a peer, the
  -- binding of a mid, an RTP packet whose SSRC is not 0 and any RTCP buffer read no freed object:
  -- each of them returns.
  pub reachable_safe :
      (r r' : Router S D)
      → IsInitial r
      → Reach r r'
      → Inv r'
        × ((p : ℕ) → remove_peer p r' ≢ none)
        × ((sub : ℕ) (name : String) (is_video : Bool) (mid : String)
            → bind_consumer_by_mid sub name is_video mid r' ≢ none)
        × ((video_pts : ℕ → Bool) (plain : Bytes) (q : ℕ)
            → HasSsrc plain
            → on_rtp_packet video_pts plain q r' ≢ none)
        × ((rtcp : Bytes) → on_rtcp_packet rtcp r' ≢ none)
  reachable_safe r r' i w =
      let v = Reach-Inv i w in
      (
        v,
        (λ p e. let (x, e', _, _, _, _) = remove_peer-Inv p r' v in cc),
        (λ sub name is_video mid e.
            let (s, x, e', _) = bind_consumer_by_mid-Inv sub name is_video mid r' v in cc),
        (λ video_pts plain q good e.
            let (x, e', _) = on_rtp_packet-Inv video_pts plain q r' good v in cc),
        (λ rtcp e. let (x, e', _) = on_rtcp_packet-Inv rtcp r' v in cc),
      )
