-- ===== src/Service/Ghost.antt =====
-- MediaServiceImpl::RemovePeer against the tables of PacketRouter.
use namecon.Dispatch.Pointers.{drop_pointer-tables}
use namecon.Dispatch.{
  drop_pointer, holds_name, find_name, new_endpoint, known_endpoint, find_endpoint,
  register_pending, take_pending, get_or_create_peer,
}
use namecon.Service.{
  named_peer, str_eq, drop_name, add_peer, remove_found, remove_named, MediaService,
}
use namecon.Sfu.Setup.{remove_peer}
use namecon.Sfu.Types.{Endpoint}
use namecon.Common.Store.{bind-some}
use namecon.Sfu.Mids.{put}
use namecon.Common.{
  ℕ, ◌≡◌, refl, ◌∙◌, ap, inl, inr, some, none, [], ◌∷◌, List, Option, Bool-cases, true,
}
use mathlib.Core.Path.{subst}
use Prim.Native.String.{String}
use mathlib.Core.Option.{some-injective}

find-drop_name : (name : String) (m : List (String × ℕ)) → find_name name (drop_name name m) ≡ none
unfolding find_name drop_name
find-drop_name name [] = refl
find-drop_name name ((n, p) ∷ m) = elim (Bool-cases (str_eq n name)) [
  | inl hit ↦ rw hit (find-drop_name name m)
  | inr miss ↦ rw miss (rw miss (find-drop_name name m))
]

module _ {L S : Type 0} where
  -- The tables that RemovePeer leaves as they were.
  abbrev SameTables : MediaService L S → MediaService L S → Type 0
  SameTables s s' =
      (s'.packet_router.pending_peers ≡ s.packet_router.pending_peers)
      × (s'.packet_router.peer_map ≡ s.packet_router.peer_map)

  remove_found-SameTables :
      (name : String) (s s' : MediaService L S) (o : Option ℕ)
      → remove_found name s o ≡ some s'
      → SameTables s s'
  remove_found-SameTables name s s' none e =
      subst (SameTables s) (some-injective s s' e) (refl, refl)
  remove_found-SameTables name s s' (some p) e = elim (Bool-cases s.has_router) [
    | inl routed ↦
        let (r, _, rest) = bind-some (remove_peer p s.packet_router.router) _ s' (rw routed at e) in
        subst (SameTables s) (some-injective _ s' rest) (refl, refl)
    | inr bare ↦ subst (SameTables s) (some-injective _ s' (rw bare at e)) (refl, refl)
  ]

  -- A peer that is added while no other is pending and is removed before it connects is still
  -- pending: the next endpoint that is not known, whoever it is, is given the removed peer.
  pub ghost_peer :
      (name : String) (i : ℕ) (ep : Endpoint) (s s' : MediaService L S)
      → s.has_packet_router ≡ true
      → s.packet_router.pending_peers ≡ []
      → find_endpoint ep s.packet_router.peer_map ≡ none
      → remove_named name (add_peer name s) ≡ some s'
      → (get_or_create_peer i ep s'.packet_router).0 ≡ s.packet_router.next_peer
  unfolding remove_named add_peer register_pending get_or_create_peer put take_pending find_name
      drop_pointer
  ghost_peer name i ep s s' set empty unknown done =
      let s₁ = add_peer name s in
      let (pending, known) = remove_found-SameTables name s₁ s' (find_name name s₁.peers) done in
      let p = s.packet_router.next_peer in
      let held = holds_name (put name p s.peers) in
      let d₁ = drop_pointer held (find_name name s.peers) (named_peer name s.packet_router) in
      let (tables, map, _) =
        drop_pointer-tables held (find_name name s.peers) (named_peer name s.packet_router) in
      let none_pending : d₁.pending_peers ≡ [] = tables ∙ empty in
      let d = s'.packet_router in
      let unknown' : find_endpoint ep d.peer_map ≡ none =
        ap (find_endpoint ep) known ∙ rw (set, none_pending) (rw map unknown) in
      let first : (n : String) × (d.pending_peers ≡ (n, p) ∷ []) =
        ((d₁.router.peers p).peer_id, pending ∙ rw (set, none_pending) refl) in
      ap (λ o. (known_endpoint i ep d o).0) unknown'
      ∙ ap (λ q. (new_endpoint ep d (take_pending i q)).0) first.1
