-- ===== src/Dispatch/Binding.antt =====
-- PacketRouter::getOrCreatePeer: which peer an endpoint is.
use namecon.Dispatch.{
  bind_endpoint, DtlsContext, is_stun, String, Openssl, handle_srtp, on_packet, known_endpoint,
  find_endpoint, endpoint_eq, get_or_create_peer, PacketRouter, take_pending,
}
use namecon.Common.{
  ◌∙◌, ◌&&◌, leb, false, ltb, length, ◌≤◌, Bool, ℕ, ◌≡◌, refl, ap, inl, inr, some, none, [], ◌∷◌,
  ◌++◌, arith, List, Option-cases, true, Bool-cases,
}
use namecon.Sfu.Types.{Peer, Endpoint}
use namecon.Common.Store.{update_self}
use namecon.Common.Bytes.{byte, Bytes}
use namecon.Transport.Ice.{Crypto}
use namecon.Transport.Srtp.{Lib}

endpoint_eq_refl : (ep : Endpoint) → endpoint_eq ep ep ≡ true
unfolding endpoint_eq
endpoint_eq_refl ep = ground arith

find-append :
    (ep : Endpoint) (p : ℕ) (m : List (Endpoint × ℕ))
    → find_endpoint ep m ≡ none
    → find_endpoint ep (m ++ ((ep, p) ∷ [])) ≡ some p
unfolding find_endpoint
find-append ep p [] e = rw (endpoint_eq_refl ep) refl
find-append ep p ((k, q) ∷ m) e = elim (Bool-cases (endpoint_eq k ep)) [
  | inl hit ↦ let e' = rw hit at e in cc
  | inr miss ↦ rw miss (find-append ep p m (rw miss at e))
]

module _ {L S : Type 0} where
  get_or_create_peer_found :
      (i : ℕ) (ep : Endpoint) (d : PacketRouter L S)
      → find_endpoint ep (get_or_create_peer i ep d).1.peer_map ≡ some (get_or_create_peer i ep d).0
  unfolding get_or_create_peer
  get_or_create_peer_found i ep d = elim (Option-cases (find_endpoint ep d.peer_map)) [
    | inr (p, found) ↦ rw found found
    | inl absent ↦ elim (Option-cases (take_pending i d.pending_peers)) [
      | inl empty ↦ rw (absent, empty) (find-append ep d.next_peer d.peer_map absent)
      | inr ((p, rest), taken) ↦ rw (absent, taken) (find-append ep p d.peer_map absent)
    ]
  ]

  -- The peer that an endpoint is given is the endpoint's from then on: it stands in the map, and the
  -- next call for the endpoint gives it again and changes nothing, whatever else is pending.
  pub get_or_create_peer_again :
      (i j : ℕ) (ep : Endpoint) (d : PacketRouter L S)
      → (find_endpoint ep (get_or_create_peer i ep d).1.peer_map
          ≡ some (get_or_create_peer i ep d).0)
        × (get_or_create_peer j ep (get_or_create_peer i ep d).1 ≡ get_or_create_peer i ep d)
  unfolding get_or_create_peer
  get_or_create_peer_again i j ep d =
      let found = get_or_create_peer_found i ep d in
      (found, ap (known_endpoint j ep (get_or_create_peer i ep d).1) found)

  -- A datagram that begins like SRTP, from an endpoint that is not known, binds the pending peer
  -- that stands first, if it has no SRTP context yet, to that endpoint and takes it off the pending
  -- ones, whatever the datagram holds and whoever sent it.
  pub stranger_takes_pending :
      ⦃lib : Lib S⦄ (openssl : Openssl L) (crypto : Crypto) (video_pts : ℕ → Bool) (i p : ℕ)
      (rest : List (String × ℕ)) (ep : Endpoint) (data_ : Bytes) (d : PacketRouter L S)
      → find_endpoint ep d.peer_map ≡ none
      → take_pending i d.pending_peers ≡ some (p, rest)
      → (d.router.peers p).srtp ≡ none
      → 1 ≤ length data_
      → 128 ≤ byte data_ 0
      → (d' : PacketRouter L S) × (on_packet openssl crypto video_pts i ep data_ d ≡ some d')
        × (find_endpoint ep d'.peer_map ≡ some p)
        × (d'.pending_peers ≡ rest)
        × ((d'.router.peers p).remote_ep ≡ ep)
  unfolding on_packet handle_srtp get_or_create_peer
  stranger_takes_pending openssl crypto video_pts i p rest ep data_ d absent taken fresh long srtp =
      let e₁ : ltb (length data_) 1 ≡ false = ground arith in
      let e₂ : is_stun data_ ≡ false = ground arith in
      let e₃ : (leb 20 (byte data_ 0) && leb (byte data_ 0) 64) ≡ false = ground arith in
      let e₄ : leb 128 (byte data_ 0) ≡ true = ground arith in
      let self = update_self d.router.peers p (record (d.router.peers p) { remote_ep = ep }) in
      let none_yet = ap (λ (x : Peer S (DtlsContext L)). x.srtp) self ∙ fresh in
      (
        bind_endpoint p ep (record d { pending_peers = rest }),
        rw (e₁, e₂, e₃, e₄) (rw (absent, taken) (rw none_yet refl)),
        find-append ep p d.peer_map absent,
        refl,
        ap (λ (x : Peer S (DtlsContext L)). x.remote_ep) self,
      )
