-- ===== src/Transport/Ice/Validate.antt =====
-- IceServer::validateCredentials: its loop, and what it accepts.
use namecon.Common.{
  ℕ, zero, suc, ◌+◌, ◌-◌, ◌≤◌, ◌<◌, ◌≡◌, ◌≢◌, ◌⊎◌, refl, [], ◌∷◌, some, none, if_cases, arith,
  Option, length, ltb, leb,
}
use namecon.Transport.Ice.{
  validate_credentials, check_tag, IceServer, align4, Crypto, scan, split_colon, value_at,
  value_end, stuck, Scan, ◌>>=◌, accept, on_attribute, Verdict,
}
use namecon.Common.Bytes.{read16, Bytes}

bind-stuck {ℓ κ} :
    {A : Type ℓ} {B : Type κ} (o : Verdict A) (f : A → Verdict B)
    → o ≢ stuck
    → ((a : A) → f a ≢ stuck)
    → (o >>= f) ≢ stuck
bind-stuck (accept a) f ho hf = hf a
bind-stuck Verdict.reject f ho hf = λ e. cc
bind-stuck Verdict.stuck f ho hf = absurd (ho refl)

-- What the loop has found so far stands in the message.
record Sound (ufrag data_ : Bytes) (st : Scan) : Type 0 where
  pub tag : (mi : ℕ) → st.mi_pos ≡ some mi → (mi + 24 ≤ length data_) × (read16 data_ mi ≡ 0x0008)
  pub user :
      (st.peer_ufrag ≡ [])
      ⊎ ((pos : ℕ) × (read16 data_ pos ≡ 0x0006)
          × (split_colon (value_at data_ pos) ≡ some (ufrag, st.peer_ufrag)))

on_attribute-ne-stuck :
    (ufrag : Bytes) (type pos : ℕ) (value : Bytes) (st : Scan)
    → on_attribute ufrag type pos value st ≢ stuck
unfolding on_attribute
on_attribute-ne-stuck ufrag type pos value st = ground arith

scan-ne-stuck :
    (fuel : ℕ) (ufrag data_ : Bytes) (pos : ℕ) (st : Scan)
    → length data_ - pos < fuel
    → scan fuel ufrag data_ pos st ≢ stuck
unfolding scan
scan-ne-stuck zero ufrag data_ pos st h = absurd (omega arith)
scan-ne-stuck (suc fuel) ufrag data_ pos st h =
    if_cases (λ (v : Verdict Scan). v ≢ stuck) (leb (pos + 4) (length data_)) _ _
      (λ inside.
        if_cases (λ (v : Verdict Scan). v ≢ stuck) (ltb (length data_) (value_end data_ pos)) _ _
          (λ _ e. cc)
          (λ whole.
            bind-stuck _ _ (on_attribute-ne-stuck ufrag _ pos (value_at data_ pos) st) (λ st'.
              scan-ne-stuck fuel ufrag data_ (align4 (value_end data_ pos)) st' (ground arith))))
      (λ _ e. cc)

module _ (crypto : Crypto) (server : IceServer) where
  -- On every message the check ends: the fuel, one round for each byte, is never used up.
  pub validate_credentials-ne-stuck :
      (data_ : Bytes) → validate_credentials crypto server data_ ≢ stuck
  unfolding validate_credentials
  validate_credentials-ne-stuck data_ =
      bind-stuck _ _ (scan-ne-stuck (suc (length data_)) server.ice_ufrag data_ 20 _ (omega arith))
        (λ st. ends data_ st.peer_ufrag st.mi_pos)
    where
      ends : (data_ found : Bytes) (o : Option ℕ) → check_tag crypto server data_ found o ≢ stuck
      ends data_ found none e = cc
      ends data_ [] (some mi) e = cc
      ends data_ (p ∷ found) (some mi) e = ground arith
