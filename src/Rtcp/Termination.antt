-- ===== src/Rtcp/Termination.antt =====
-- RtcpHandler::onRtcpPacket: its loops.
use namecon.Common.{
  refl, ◌==◌, if_cases, false, ◌≡◌, leb, ltb, if_elim, take, ℕ, zero, suc, ◌+◌, ◌≤◌, ◌<◌, ◌≢◌, List,
  [], ◌∷◌, length, length-drop, drop, arith,
}
use namecon.Rtcp.{
  fault, Result, ◌>>=◌, checked32, Callbacks, ok, stuck, sr_packet, sdes_items, sdes_packet,
  sub_packet, packets, on_rtcp_packet, packet_length,
}
use namecon.Common.Bytes.{Bytes}

pub bind-ne-stuck {ℓ κ} :
    {A : Type ℓ} {B : Type κ} (m : Result A) (f : A → Result B)
    → m ≢ stuck
    → ((a : A) → f a ≢ stuck)
    → (m >>= f) ≢ stuck
bind-ne-stuck (ok a) f hm hf = hf a
bind-ne-stuck fault f hm hf = λ e. cc
bind-ne-stuck stuck f hm hf = absurd (hm refl)

abbrev Ends {ℓ} : {A : Type ℓ} → Result A → Type ℓ
Ends r = r ≢ stuck

sdes_items-ne-stuck :
    (fuel : ℕ) (cbs : Callbacks) (ssrc : ℕ) (items : Bytes)
    → length items ≤ fuel
    → sdes_items fuel cbs ssrc items ≢ stuck
unfolding sdes_items
sdes_items-ne-stuck fuel cbs ssrc [] h = λ e. cc
sdes_items-ne-stuck fuel cbs ssrc (type ∷ []) h = λ e. cc
sdes_items-ne-stuck zero cbs ssrc (type ∷ val_len ∷ items) h = absurd (omega arith)
sdes_items-ne-stuck (suc fuel) cbs ssrc (type ∷ val_len ∷ items) h =
    if_elim Ends (type == 0) _ _ (λ e. cc)
      (if_elim Ends (ltb (length items) val_len) _ _ (λ e. cc)
        (bind-ne-stuck (sdes_items fuel cbs ssrc (drop val_len items)) _
          (sdes_items-ne-stuck fuel cbs ssrc (drop val_len items)
            (omega (arith, length-drop val_len items)))
          (λ more e. cc)))

length-take-le {ℓ} : {A : Type ℓ} (n : ℕ) (xs : List A) → length (take n xs) ≤ length xs
length-take-le zero xs = omega arith
length-take-le (suc n) [] = omega arith
length-take-le (suc n) (x ∷ xs) = omega (arith, length-take-le n xs)

checked32-ne-stuck : (p : Bytes) (i : ℕ) → checked32 p i ≢ stuck
checked32-ne-stuck p i = if_elim Ends (leb (i + 4) (length p)) _ _ (λ e. cc) (λ e. cc)

sdes_packet-ne-stuck :
    (cbs : Callbacks) (p : Bytes) (packet_len : ℕ) → sdes_packet cbs p packet_len ≢ stuck
unfolding sdes_packet
sdes_packet-ne-stuck cbs p packet_len =
    bind-ne-stuck (checked32 p 4) _ (checked32-ne-stuck p 4) λ ssrc.
      sdes_items-ne-stuck (length p) cbs ssrc (drop 8 (take packet_len p))
        (omega (arith, length-drop 8 (take packet_len p), length-take-le packet_len p))

sr_packet-ne-stuck : (cbs : Callbacks) (p : Bytes) → sr_packet cbs p ≢ stuck
unfolding sr_packet
sr_packet-ne-stuck cbs p = λ e. ground arith

pub sub_packet-ne-stuck :
    (cbs : Callbacks) (p : Bytes) (packet_len : ℕ) → sub_packet cbs p packet_len ≢ stuck
unfolding sub_packet
sub_packet-ne-stuck cbs p packet_len =
    λ e. ground (arith, sr_packet-ne-stuck cbs p, sdes_packet-ne-stuck cbs p packet_len)

packets-ne-stuck :
    (fuel : ℕ) (cbs : Callbacks) (p : Bytes) → length p < fuel → packets fuel cbs p ≢ stuck
unfolding packets
packets-ne-stuck zero cbs p h = absurd (omega arith)
packets-ne-stuck (suc fuel) cbs p h =
    if_cases Ends (ltb (length p) 4) _ _ (λ _ e. cc)
      (λ long.
        if_elim Ends (ltb (length p) (packet_length p)) _ _ (λ e. cc)
          (bind-ne-stuck (sub_packet cbs p (packet_length p)) _ (sub_packet-ne-stuck cbs p _) (λ es.
            bind-ne-stuck (packets fuel cbs (drop (packet_length p) p)) _
              (packets-ne-stuck fuel cbs (drop (packet_length p) p) (shorter long))
              (λ more e. cc))))
  where
    shorter : ltb (length p) 4 ≡ false → length (drop (packet_length p) p) < fuel
    shorter long = ground (arith, length-drop (packet_length p) p)

-- On every buffer the parser ends: the fuel, one round for each byte, is never used up.
pub on_rtcp_packet-ne-stuck : (cbs : Callbacks) (buf : Bytes) → on_rtcp_packet cbs buf ≢ stuck
unfolding on_rtcp_packet
on_rtcp_packet-ne-stuck cbs buf = packets-ne-stuck (suc (length buf)) cbs buf (omega arith)
