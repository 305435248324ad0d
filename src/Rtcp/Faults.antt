-- ===== src/Rtcp/Faults.antt =====
-- RtcpHandler::onRtcpPacket: reads past the end of the packet.
use namecon.Common.{
  ◌∙◌, true, false, ℕ, ◌+◌, ◌*◌, ◌≤◌, ◌<◌, ◌≡◌, refl, ◌⊎◌, ◌↔◌, inl, inr, List, [], ◌∷◌, length,
  drop, take, arith, ltb, ◌==◌, if_elim, zero, suc, ◌≢◌, leb,
}
use namecon.Common.Bytes.{Bytes, byte, read32}
use namecon.Rtcp.{
  Callbacks, Event, ok, fault, Result, ◌>>=◌, checked32, sr_packet, sdes_items, sdes_packet,
  sub_packet, on_rtcp_packet, packet_length,
}
use namecon.Rtcp.RoundTrip.{on_rtcp_packet_step, sr_packet_whole}

bind-ne-fault {ℓ κ} :
    {A : Type ℓ} {B : Type κ} (m : Result A) (f : A → Result B)
    → m ≢ fault
    → ((a : A) → f a ≢ fault)
    → (m >>= f) ≢ fault
bind-ne-fault (ok a) f hm hf = hf a
bind-ne-fault Result.fault f hm hf = absurd (hm refl)
bind-ne-fault Result.stuck f hm hf = λ e. cc

abbrev Safe {ℓ} : {A : Type ℓ} → Result A → Type ℓ
Safe r = r ≢ fault

sdes_items-ne-fault :
    (fuel : ℕ) (cbs : Callbacks) (ssrc : ℕ) (items : Bytes) → sdes_items fuel cbs ssrc items ≢ fault
unfolding sdes_items
sdes_items-ne-fault fuel cbs ssrc [] = λ e. cc
sdes_items-ne-fault fuel cbs ssrc (type ∷ []) = λ e. cc
sdes_items-ne-fault zero cbs ssrc (type ∷ val_len ∷ items) = λ e. cc
sdes_items-ne-fault (suc fuel) cbs ssrc (type ∷ val_len ∷ items) =
    if_elim Safe (type == 0) _ _ (λ e. cc)
      (if_elim Safe (ltb (length items) val_len) _ _ (λ e. cc)
        (bind-ne-fault (sdes_items fuel cbs ssrc (drop val_len items)) _
          (sdes_items-ne-fault fuel cbs ssrc (drop val_len items)) (λ more e. cc)))

checked32_outside : (p : Bytes) (i : ℕ) → length p < i + 4 → checked32 p i ≡ fault
checked32_outside p i h = let e : leb (i + 4) (length p) ≡ false = ground arith in rw e

checked32_read : (p : Bytes) (i : ℕ) → (checked32 p i ≡ ok (read32 p i)) ⊎ (checked32 p i ≡ fault)
checked32_read p i =
    if_elim (λ r. (r ≡ ok (read32 p i)) ⊎ (r ≡ fault)) (leb (i + 4) (length p)) _ _ (inl refl)
      (inr refl)

-- A read that may fault, in front of what faults anyway, faults.
bind-eq-fault :
    (p : Bytes) (i : ℕ) (f : ℕ → Result (List Event))
    → ((x : ℕ) → f x ≡ fault)
    → (checked32 p i >>= f) ≡ fault
bind-eq-fault p i f h = elim (checked32_read p i) [ inl e ↦ rw e (h (read32 p i)) | inr e ↦ rw e ]

sr_packet_short : (cbs : Callbacks) (p : Bytes) → length p < 28 → sr_packet cbs p ≡ fault
unfolding sr_packet
sr_packet_short cbs p h = bind-eq-fault p 4 _ λ _. bind-eq-fault p 8 _ λ _.
    bind-eq-fault p 12 _ λ _.
      bind-eq-fault p 16 _ λ _. bind-eq-fault p 20 _ λ _. rw (checked32_outside p 24 (omega arith))

sr_packet-ne-fault : (cbs : Callbacks) (p : Bytes) → 28 ≤ length p → sr_packet cbs p ≢ fault
sr_packet-ne-fault cbs p h = rw (sr_packet_whole cbs p h) (λ e. cc)

sdes_packet_short :
    (cbs : Callbacks) (p : Bytes) (n : ℕ) → length p < 8 → sdes_packet cbs p n ≡ fault
unfolding sdes_packet
sdes_packet_short cbs p n h = rw (checked32_outside p 4 (omega arith))

sdes_packet-ne-fault :
    (cbs : Callbacks) (p : Bytes) (n : ℕ) → 8 ≤ length p → sdes_packet cbs p n ≢ fault
unfolding sdes_packet
sdes_packet-ne-fault cbs p n h =
    let e : leb 8 (length p) ≡ true = ground arith in
    rw e (sdes_items-ne-fault (length p) cbs (read32 p 4) (drop 8 (take n p)))

-- A sub-packet is read past the buffer's end exactly when it is an SR with fewer than 28 bytes left,
-- or an SDES with fewer than 8.
pub sub_packet-fault :
    (cbs : Callbacks) (p : Bytes) (n : ℕ)
    → (sub_packet cbs p n ≡ fault)
      ↔ (((byte p 1 ≡ 200) × (length p < 28)) ⊎ ((byte p 1 ≡ 202) × (length p < 8)))
unfolding sub_packet
sub_packet-fault cbs p n = (
  λ e. ground (arith, sr_packet-ne-fault cbs p, sdes_packet-ne-fault cbs p n),
  λ h. ground (arith, sr_packet_short cbs p, sdes_packet_short cbs p n),
)

-- A buffer that is one SR sub-packet whose own length field promises fewer than six words passes the
-- check against `end` and is still read up to byte 28, past the end, whatever the callbacks are.
pub sr_truncated :
    (cbs : Callbacks) (b l : ℕ) (body : Bytes)
    → l < 6
    → length body ≡ l * 4
    → on_rtcp_packet cbs (b ∷ 200 ∷ 0 ∷ l ∷ body) ≡ fault
sr_truncated cbs b l body h e =
    on_rtcp_packet_step cbs (b ∷ 200 ∷ 0 ∷ l ∷ body) (omega arith) (omega arith)
    ∙ rw (
        (sub_packet-fault cbs (b ∷ 200 ∷ 0 ∷ l ∷ body) (packet_length (b ∷ 200 ∷ 0 ∷ l ∷ body))).1
          (inl (refl, omega arith)))
