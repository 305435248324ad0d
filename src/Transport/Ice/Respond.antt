-- ===== src/Transport/Ice/Respond.antt =====
-- IceServer::sendResponse: the layout of the Binding Response.
use namecon.Common.{
  length-drop, length-append, ℕ, ◌+◌, ◌-◌, ◌≡◌, refl, length, take, drop, arith, ◌++◌, ◌∷◌, [],
  List, ◌≤◌, zero, suc,
}
use namecon.Transport.Srtp.Keys.{take-append}
use namecon.Transport.Ice.{
  response, bit_xor, with_length, xor_mapped, signed_part, add_integrity, tag_at, add_fingerprint,
  IceServer, Crypto,
}
use namecon.Common.Bytes.{be32, be16, read32, read16, Bytes}

-- A message says its own length, past the header of 20 bytes.
abbrev pub length_field : Bytes → ℕ
length_field msg = read16 msg 2 + 20

length-take {ℓ} : {A : Type ℓ} (n : ℕ) (xs : List A) → n ≤ length xs → length (take n xs) ≡ n
length-take zero xs h = refl
length-take (suc n) [] h = absurd (omega arith)
length-take (suc n) (x ∷ xs) h = omega (arith, length-take n xs (omega arith))

exactly_twelve {ℓ} :
    (P : Bytes → Type ℓ)
    → ((a b c d e f g h i j k l : ℕ) → P (a ∷ b ∷ c ∷ d ∷ e ∷ f ∷ g ∷ h ∷ i ∷ j ∷ k ∷ l ∷ []))
    → (xs : Bytes) → length xs ≡ 12
    → P xs
exactly_twelve P p (a ∷ b ∷ c ∷ d ∷ e ∷ f ∷ g ∷ h ∷ i ∷ j ∷ k ∷ l ∷ []) _ =
    p a b c d e f g h i j k l
exactly_twelve P p _ long = absurd (omega arith)

module _ (crypto : Crypto) (server : IceServer) (address port : ℕ) where
  -- The response with transaction id `id`.
  abbrev respond : Bytes → Bytes
  respond id = add_fingerprint crypto server (
      add_integrity crypto server (
        ((be16 0x0101 ++ be16 0) ++ (be32 0x2112A442 ++ id))
        ++ xor_mapped crypto server address port))

  abbrev pub Layout : Bytes → Bytes → Type 0
  Layout id resp =
      (length resp ≡ 64)
      × (length_field resp ≡ length resp)
      × (read16 resp 0 ≡ 0x0101)
      × (read32 resp 4 ≡ 0x2112A442)
      × (take 12 (drop 8 resp) ≡ id)
      × (read16 resp 32 ≡ 0x0008)
      × (tag_at resp 32 ≡ crypto.hmac server.ice_pwd (signed_part resp 32))

  layout :
      (id : Bytes)
      → length id ≡ 12
      → ((msg : Bytes) → length (crypto.hmac server.ice_pwd msg) ≡ 20)
      → Layout id (respond id)
  layout id twelve tag =
      exactly_twelve (λ x. Layout x (respond x))
        (λ a b c d e f g h i j k l.
          let at_ = a ∷ b ∷ c ∷ d ∷ e ∷ f ∷ g ∷ h ∷ i ∷ j ∷ k ∷ l ∷ [] in
          let base =
            ((be16 0x0101 ++ be16 0) ++ (be32 0x2112A442 ++ at_))
            ++ xor_mapped crypto server address port in
          let msg = with_length crypto server base 36 in
          let mac = crypto.hmac server.ice_pwd msg in
          let whole = add_integrity crypto server base in
          let fingerprint =
            (be16 0x8028 ++ be16 4)
            ++ be32 (
                bit_xor (crypto.crc32 (with_length crypto server whole (length whole - 20 + 8)))
                  0x5354554E) in
          let sized : length (respond at_) ≡ 64 =
            omega (arith, tag msg, length-append mac fingerprint) in
          (
            sized,
            omega (arith, tag msg, sized),
            refl,
            refl,
            refl,
            refl,
            take-append mac fingerprint 20 (tag msg),
          ))
        id twelve

  -- On a request of at least 20 bytes, where HMACs have 20 bytes, the response has 64 bytes and says
  -- so, is a Binding Response under the magic cookie with the request's transaction id, and its
  -- MESSAGE-INTEGRITY at byte 32 holds the tag that `validate_credentials` computes there.
  pub response-Layout :
      (request : Bytes)
      → 20 ≤ length request
      → ((msg : Bytes) → length (crypto.hmac server.ice_pwd msg) ≡ 20)
      → Layout (take 12 (drop 8 request)) (response crypto server request address port)
  unfolding response
  response-Layout request long tag =
      layout (take 12 (drop 8 request))
        (length-take 12 (drop 8 request) (omega (arith, length-drop 8 request, long))) tag
