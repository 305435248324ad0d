-- ===== src/Dispatch/Pointers.antt =====
-- What a pointer that is dropped leaves of PacketRouter.
use namecon.Common.{
  ℕ, ◌<◌, ◌≤◌, ◌≡◌, refl, ◌⊎◌, inl, inr, Bool, ◌||◌, Bool-cases, Option, none, some, length, arith,
  if_elim,
}
use namecon.Dispatch.{PacketRouter, drop_pointer, destroy, holds_name, holds_endpoint}

module _ {L S : Type 0} where
  pub drop_pointer-tables :
      (held : ℕ → Bool) (o : Option ℕ) (d : PacketRouter L S)
      → ((drop_pointer held o d).pending_peers ≡ d.pending_peers)
        × ((drop_pointer held o d).peer_map ≡ d.peer_map)
        × ((drop_pointer held o d).next_peer ≡ d.next_peer)
  unfolding drop_pointer destroy
  drop_pointer-tables held none d = (refl, refl, refl)
  drop_pointer-tables held (some q) d =
      if_elim
        (λ (x : PacketRouter L S).
          (x.pending_peers ≡ d.pending_peers)
          × (x.peer_map ≡ d.peer_map)
          × (x.next_peer ≡ d.next_peer))
        (held q || (holds_name d.pending_peers q || holds_endpoint d.peer_map q)) _ _
        (refl, refl, refl) (refl, refl, refl)

  -- A peer was destroyed in between.
  abbrev pub Destroys : PacketRouter L S → PacketRouter L S → Type 0
  Destroys d d' = length d.freed_peers < length d'.freed_peers

  pub drop_pointer-le :
      (held : ℕ → Bool) (o : Option ℕ) (d : PacketRouter L S)
      → length d.freed_peers ≤ length (drop_pointer held o d).freed_peers
  unfolding drop_pointer destroy
  drop_pointer-le held none d = omega arith
  drop_pointer-le held (some q) d =
      if_elim (λ (x : PacketRouter L S). length d.freed_peers ≤ length x.freed_peers)
        (held q || (holds_name d.pending_peers q || holds_endpoint d.peer_map q)) _ _ (omega arith)
        (omega arith)

  pub drop_pointer-cases :
      (held : ℕ → Bool) (o : Option ℕ) (d : PacketRouter L S)
      → (drop_pointer held o d ≡ d) ⊎ Destroys d (drop_pointer held o d)
  unfolding drop_pointer destroy
  drop_pointer-cases held none d = inl refl
  drop_pointer-cases held (some q) d =
      elim (Bool-cases (held q || (holds_name d.pending_peers q || holds_endpoint d.peer_map q))) [
        | inl kept ↦ inl (rw kept refl)
        | inr last ↦ inr (rw last (omega arith))
      ]
