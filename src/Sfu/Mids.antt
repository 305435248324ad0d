-- ===== src/Sfu/Mids.antt =====
-- media-svc/sfu/Router.cpp: the `mid` of a subscription, and the read-only queries. Each holds
-- `_mutex` throughout. `none` is a read through a pointer to a `Consumer` that was freed.
use Prim.Native.String.{String}
use text.Mathlib.Text.{◌==◌ as str_eq}
use namecon.Common.{
  ℕ, Bool, false, ◌&&◌, List, [], ◌∷◌, ◌++◌, Option, none, some, bool_eq, if◌then◌else◌,
}
use namecon.Common.Store.{lookup, ◌>>=◌}
use namecon.Sfu.Types.{Consumer, Producer, Peer}
use namecon.Sfu.State.{Router, set_consumer}

unfoldable pub find_mid : List ℕ → String → (ℕ → Option Consumer) → Option ℕ
find_mid [] mid h = some 0
find_mid (c ∷ cs) mid h = do
  k ← h c
  let rest = find_mid cs mid h
  if str_eq k.recv_mid mid then some k.rewritten_ssrc else rest

unfoldable pub video_of : List Producer → List Producer
video_of [] = []
video_of (p ∷ ps) = if p.is_video then p ∷ video_of ps else video_of ps

module _ {S D : Type 0} where
  -- `c->publisher && c->publisher->peerId == publisherPeerId`
  abbrev pub publisher_named : (ℕ → Peer S D) → Option ℕ → String → Bool
  publisher_named peers none name = false
  publisher_named peers (some q) name = str_eq (peers q).peer_id name

  abbrev pub is_from : (ℕ → Peer S D) → Consumer → String → Bool → Bool
  is_from peers k name is_video =
      bool_eq k.is_video is_video && publisher_named peers k.publisher name

  unfoldable pub bind_mid : List ℕ → String → Bool → String → Router S D → Option (ℕ × Router S D)
  bind_mid [] name is_video mid r = some (0, r)
  bind_mid (c ∷ cs) name is_video mid r = do
    k ← r.consumers c
    let rest = bind_mid cs name is_video mid r
    if is_from r.peers k name is_video
        then some (k.rewritten_ssrc, set_consumer c (record k { recv_mid = mid }) r)
        else rest

  unfoldable pub bind_consumer_by_mid :
      ℕ → String → Bool → String → Router S D → Option (ℕ × Router S D)
  bind_consumer_by_mid sub name is_video mid r =
      bind_mid (r.peers sub).consumers name is_video mid r

  unfoldable pub find_rewritten_ssrc : ℕ → String → Router S D → Option ℕ
  find_rewritten_ssrc sub mid r = find_mid (r.peers sub).consumers mid r.consumers

  -- `_outSsrcToConsumer.find`
  unfoldable pub find_consumer_by_out_ssrc : ℕ → Router S D → Option ℕ
  find_consumer_by_out_ssrc out_ssrc r = lookup out_ssrc r.out_ssrcs

  unfoldable pub video_producers : (ℕ → Peer S D) → List ℕ → List Producer
  video_producers peers [] = []
  video_producers peers (q ∷ qs) = video_of (peers q).producers ++ video_producers peers qs

  unfoldable pub get_all_video_producers : Router S D → List Producer
  get_all_video_producers r = video_producers r.peers r.all_peers

-- `std::map<std::string, uint32_t>`: the entries without their order.
unfoldable pub put : String → ℕ → List (String × ℕ) → List (String × ℕ)
put mid ssrc [] = (mid, ssrc) ∷ []
put mid ssrc ((m, s) ∷ rest) =
    if str_eq m mid then (mid, ssrc) ∷ rest else (m, s) ∷ put mid ssrc rest

unfoldable pub bound_ssrcs :
    List ℕ → (ℕ → Option Consumer) → List (String × ℕ) → Option (List (String × ℕ))
bound_ssrcs [] h result = some result
bound_ssrcs (c ∷ cs) h result = do
  k ← h c
  bound_ssrcs cs h (if str_eq k.recv_mid "" then result else put k.recv_mid k.rewritten_ssrc result)

module _ {S D : Type 0} where
  unfoldable pub get_all_bound_ssrcs : ℕ → Router S D → Option (List (String × ℕ))
  get_all_bound_ssrcs sub r = bound_ssrcs (r.peers sub).consumers r.consumers []
