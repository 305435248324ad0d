-- ===== src/Rtcp/RoundTrip.antt =====
-- What the SFU sends as RTCP, read back by RtcpHandler::onRtcpPacket.
use namecon.Common.{
  leb, length-drop, inr, false, inl, Bool-cases, ◌≤◌, ◌∙◌, ℕ, zero, suc, ◌+◌, ◌^◌, ◌<◌, ◌≡◌, List,
  [], ◌∷◌, ◌++◌, length, drop, true, arith, ltb,
}
use namecon.Rtcp.{
  checked32, call, Callbacks, Event, pli, nack, sr, ok, Result, ◌>>=◌, sub_packet, sr_packet,
  nack_packet, pli_packet, packets, on_rtcp_packet, packet_length, pli_bytes, nack_bytes, sr_bytes,
  send_pli, send_nack, send_sr,
}
use namecon.Common.Bytes.{be32-back, be16-back, Bytes, read32}

abbrev all_set : Callbacks
all_set = record { send_cb = true; pli_cb = true; nack_cb = true; sdes_cb = true; sr_cb = true }

-- More fuel than bytes gives the same result.
packets-fuel :
    (n m : ℕ) (cbs : Callbacks) (p : Bytes)
    → length p < n
    → length p < m
    → packets n cbs p ≡ packets m cbs p
unfolding packets
packets-fuel zero m cbs p hn hm = absurd (omega arith)
packets-fuel (suc n) zero cbs p hn hm = absurd (omega arith)
packets-fuel (suc n) (suc m) cbs p hn hm = elim (Bool-cases (ltb (length p) 4)) [
  | inl short ↦ rw short
  | inr long ↦ rw (
      packets-fuel n m cbs (drop (packet_length p) p)
        (ground (arith, length-drop (packet_length p) p))
        (ground (arith, length-drop (packet_length p) p)))
]

-- One round: a whole sub-packet in front of the rest.
pub on_rtcp_packet_step :
    (cbs : Callbacks) (p : Bytes)
    → 4 ≤ length p
    → packet_length p ≤ length p
    → on_rtcp_packet cbs p ≡ (
        sub_packet cbs p (packet_length p) >>= λ es.
        on_rtcp_packet cbs (drop (packet_length p) p) >>= λ more. ok (es ++ more))
unfolding on_rtcp_packet packets
on_rtcp_packet_step cbs p long whole =
    let e₁ : ltb (length p) 4 ≡ false = ground arith in
    let e₂ : ltb (length p) (packet_length p) ≡ false = ground arith in
    rw (e₁, e₂)
      (rw (
        packets-fuel (length p) (suc (length (drop (packet_length p) p))) cbs
          (drop (packet_length p) p) (omega (arith, length-drop (packet_length p) p))
          (omega arith)))

checked32_inside : (p : Bytes) (i : ℕ) → i + 4 ≤ length p → checked32 p i ≡ ok (read32 p i)
checked32_inside p i h = let e : leb (i + 4) (length p) ≡ true = ground arith in rw e

-- Given 28 bytes, the six words are read.
pub sr_packet_whole :
    (cbs : Callbacks) (p : Bytes)
    → 28 ≤ length p
    → sr_packet cbs p
      ≡ ok (
          call cbs.sr_cb
            (sr (read32 p 4) (read32 p 8) (read32 p 12) (read32 p 16) (read32 p 20) (read32 p 24)))
unfolding sr_packet
sr_packet_whole cbs p h = rw (checked32_inside p 4 (omega arith)) (
    rw (checked32_inside p 8 (omega arith)) (
      rw (checked32_inside p 12 (omega arith)) (
        rw (checked32_inside p 16 (omega arith))
          (rw (checked32_inside p 20 (omega arith)) (rw (checked32_inside p 24 (omega arith)))))))

module _ (cbs : Callbacks) (rest : Bytes) where
  -- The events of a sub-packet, then those of the rest.
  abbrev pub then_rest : List Event → Result (List Event)
  then_rest es = on_rtcp_packet cbs rest >>= λ more. ok (es ++ more)

  pli_read :
      (s m : ℕ)
      → m < 2 ^ 32
      → cbs.pli_cb ≡ true
      → sub_packet cbs (pli_bytes s m ++ rest) 12 ≡ ok (pli m ∷ [])
  unfolding sub_packet pli_packet
  pli_read s m fits set = rw (set, be32-back m fits)

  nack_read :
      (s m pid blp : ℕ)
      → m < 2 ^ 32
      → pid < 2 ^ 16
      → blp < 2 ^ 16
      → cbs.nack_cb ≡ true
      → sub_packet cbs (nack_bytes s m pid blp ++ rest) 16 ≡ ok (nack m pid blp ∷ [])
  unfolding sub_packet nack_packet
  nack_read s m pid blp hm hp hb set = rw (set, be32-back m hm, be16-back pid hp, be16-back blp hb)

  sr_read :
      (s hi lo ts pc oc : ℕ)
      → s < 2 ^ 32
      → hi < 2 ^ 32
      → lo < 2 ^ 32
      → ts < 2 ^ 32
      → pc < 2 ^ 32
      → oc < 2 ^ 32
      → cbs.sr_cb ≡ true
      → sub_packet cbs (sr_bytes s hi lo ts pc oc ++ rest) 28 ≡ ok (sr s hi lo ts pc oc ∷ [])
  unfolding sub_packet
  sr_read s hi lo ts pc oc h₁ h₂ h₃ h₄ h₅ h₆ set =
      sr_packet_whole cbs (sr_bytes s hi lo ts pc oc ++ rest) (omega arith)
      ∙ rw (
        set,
        be32-back s h₁,
        be32-back hi h₂,
        be32-back lo h₃,
        be32-back ts h₄,
        be32-back pc h₅,
        be32-back oc h₆,
      )

  -- With the callbacks set, a PLI that `sendPLI` built for an SSRC of 32 bits is read back as a PLI
  -- for the same media SSRC, whatever follows it.
  pub pli_sent :
      (s m : ℕ)
      → m < 2 ^ 32
      → cbs.send_cb ≡ true
      → cbs.pli_cb ≡ true
      → (send_pli cbs s m ≡ pli_bytes s m ∷ [])
        × (on_rtcp_packet cbs (pli_bytes s m ++ rest) ≡ then_rest (pli m ∷ []))
  unfolding send_pli
  pli_sent s m fits sends set = (
    rw sends,
    on_rtcp_packet_step cbs (pli_bytes s m ++ rest) (omega arith) (omega arith)
        ∙ rw (pli_read s m fits set),
  )

  -- With the callbacks set, a NACK that `sendNACK` built from numbers within their widths is read
  -- back with the same media SSRC, PID and BLP, whatever follows it.
  pub nack_sent :
      (s m pid blp : ℕ)
      → m < 2 ^ 32
      → pid < 2 ^ 16
      → blp < 2 ^ 16
      → cbs.send_cb ≡ true
      → cbs.nack_cb ≡ true
      → (send_nack cbs s m pid blp ≡ nack_bytes s m pid blp ∷ [])
        × (on_rtcp_packet cbs (nack_bytes s m pid blp ++ rest) ≡ then_rest (nack m pid blp ∷ []))
  unfolding send_nack
  nack_sent s m pid blp hm hp hb sends set = (
    rw sends,
    on_rtcp_packet_step cbs (nack_bytes s m pid blp ++ rest) (omega arith) (omega arith)
        ∙ rw (nack_read s m pid blp hm hp hb set),
  )

  -- With the callbacks set, an SR that `sendSR` built from numbers of 32 bits is read back with the
  -- same six numbers, whatever follows it.
  pub sr_sent :
      (s media hi lo ts pc oc : ℕ)
      → s < 2 ^ 32
      → hi < 2 ^ 32
      → lo < 2 ^ 32
      → ts < 2 ^ 32
      → pc < 2 ^ 32
      → oc < 2 ^ 32
      → cbs.send_cb ≡ true
      → cbs.sr_cb ≡ true
      → (send_sr cbs s media hi lo ts pc oc ≡ sr_bytes s hi lo ts pc oc ∷ [])
        × (on_rtcp_packet cbs (sr_bytes s hi lo ts pc oc ++ rest)
            ≡ then_rest (sr s hi lo ts pc oc ∷ []))
  unfolding send_sr
  sr_sent s media hi lo ts pc oc h₁ h₂ h₃ h₄ h₅ h₆ sends set = (
    rw sends,
    on_rtcp_packet_step cbs (sr_bytes s hi lo ts pc oc ++ rest) (omega arith) (omega arith)
        ∙ rw (sr_read s hi lo ts pc oc h₁ h₂ h₃ h₄ h₅ h₆ set),
  )
