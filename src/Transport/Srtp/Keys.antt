-- ===== src/Transport/Srtp/Keys.antt =====
-- Which keys SrtpContext::init hands to libsrtp, and what a context without them does.
use namecon.Common.Bytes.{Bytes}
use namecon.Common.{
  true, none, some, length-append, false, ◌∙◌, ltb, ap, ℕ, zero, suc, ◌+◌, ◌≡◌, refl, List, [], ◌∷◌,
  ◌++◌, length, take, drop, arith,
}
use namecon.Transport.Srtp.{
  policy_out, unprotect_rtcp, policy_in, unprotect, protect_rtcp, SrtpContext, key_with_salt_out,
  protect, Lib, key_with_salt_in, init, new_context,
}
use mathlib.Core.Path.{ap₂}
use Prim.Native.Nat.add

module _ {ℓ} {A : Type ℓ} where
  pub take-append : (xs ys : List A) (n : ℕ) → length xs ≡ n → take n (xs ++ ys) ≡ xs
  take-append [] ys zero e = refl
  take-append [] ys (suc n) e = absurd (omega arith)
  take-append (x ∷ xs) ys zero e = absurd (omega arith)
  take-append (x ∷ xs) ys (suc n) e = ap (◌∷◌ x) (take-append xs ys n (omega arith))

  drop-append : (xs ys : List A) (n m : ℕ) → length xs ≡ n → drop (n + m) (xs ++ ys) ≡ drop m ys
  drop-append [] ys zero m e = rw add.zero
  drop-append [] ys (suc n) m e = absurd (omega arith)
  drop-append (x ∷ xs) ys zero m e = absurd (omega arith)
  drop-append (x ∷ xs) ys (suc n) m e = rw add.suc (drop-append xs ys n m (omega arith))

take_all {ℓ} : {A : Type ℓ} (xs : List A) (n : ℕ) → length xs ≡ n → take n xs ≡ xs
take_all [] zero e = refl
take_all [] (suc n) e = refl
take_all (x ∷ xs) zero e = absurd (omega arith)
take_all (x ∷ xs) (suc n) e = ap (◌∷◌ x) (take_all xs n (omega arith))

module _ (ck sk cs ss : Bytes) (h₁ : length ck ≡ 16) (h₂ : length sk ≡ 16) (h₃ : length cs ≡ 14)
    (h₄ : length ss ≡ 14) where
  abbrev pub material : Bytes
  material = ck ++ (sk ++ (cs ++ ss))

  inbound_key : key_with_salt_in material ≡ ck ++ cs
  inbound_key = ap₂ ◌++◌ (take-append ck (sk ++ (cs ++ ss)) 16 h₁) (
      ap (take 14) (drop-append ck (sk ++ (cs ++ ss)) 16 16 h₁ ∙ drop-append sk (cs ++ ss) 16 0 h₂)
      ∙ take-append cs ss 14 h₃)

  outbound_key : key_with_salt_out material ≡ sk ++ ss
  outbound_key =
      ap₂ ◌++◌
        (ap (take 16) (drop-append ck (sk ++ (cs ++ ss)) 16 0 h₁) ∙ take-append sk (cs ++ ss) 16 h₂)
        (ap (take 14) (
            drop-append ck (sk ++ (cs ++ ss)) 16 30 h₁
            ∙ drop-append sk (cs ++ ss) 16 14 h₂
            ∙ drop-append cs ss 14 0 h₃)
          ∙ take_all ss 14 h₄)

  length-material : ltb (length material) 60 ≡ false
  length-material =
      ground (
        arith,
        length-append ck (sk ++ (cs ++ ss)),
        length-append sk (cs ++ ss),
        length-append cs ss,
      )

  -- On the layout that the DTLS exporter gives (client key, server key, client salt, server salt) the
  -- inbound session is made from the client's key and salt and the outbound one from the server's,
  -- and `init` succeeds with these two sessions when libsrtp makes both.
  pub init_keys :
      {S : Type 0} ⦃lib : Lib S⦄ (ctx : SrtpContext S) (a b : S)
      → lib.create policy_in (ck ++ cs) ≡ some a
      → lib.create policy_out (sk ++ ss) ≡ some b
      → init ctx material ≡ (record { srtp_in = some a; srtp_out = some b; inited = true }, true)
  unfolding init
  init_keys ctx a b ea eb = rw (length-material, inbound_key, ea) (rw (outbound_key, eb))

-- A new context whose `init` failed neither encrypts nor decrypts anything.
pub failed_init :
    (S : Type 0) ⦃lib : Lib S⦄ (km buf : Bytes)
    → (init (new_context {S = S}) km).1 ≡ false
    → let ctx = (init (new_context {S = S}) km).0 in
      ((protect ctx buf).1 ≡ none)
      × ((protect_rtcp ctx buf).1 ≡ none)
      × ((unprotect ctx buf).1 ≡ none)
      × ((unprotect_rtcp ctx buf).1 ≡ none)
unfolding init protect protect_rtcp unprotect unprotect_rtcp
failed_init S km buf e = ground arith
