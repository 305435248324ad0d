-- ===== src/Sfu/Feedback/Translate.antt =====
-- Router::onRtcpPacket on a buffer of one sub-packet, and the RRs that it drops.
use namecon.Common.Bytes.{be32, be16, Bytes, be32-back}
use namecon.Sfu.State.{Router}
use namecon.Common.{
  ap, suc, zero, inr, inl, Option-cases, length-drop, true, false, ltb, ℕ, ◌^◌, ◌<◌, ◌≤◌, ◌≡◌, refl,
  ◌∙◌, some, none, length, drop, arith, ◌∷◌, ◌++◌,
}
use namecon.Sfu.Feedback.{on_rtcp_packet, sub_length, handle_rr, handle_sub, rtcp_loop}
use namecon.Common.Store.{lookup}
use namecon.Sfu.Mids.{find_consumer_by_out_ssrc}
use namecon.Transport.Srtp.{Lib}

suc_cases : (n : ℕ) → 4 ≤ n → (m : ℕ) × (n ≡ suc m)
suc_cases zero h = absurd (omega arith)
suc_cases (suc m) h = (m, refl)

module _ {S D : Type 0} ⦃lib : Lib S⦄ where
  -- A whole sub-packet that is the last of the buffer.
  loop_last :
      (fuel : ℕ) (p : Bytes) (r : Router S D)
      → 4 ≤ length p
      → sub_length p ≡ length p
      → rtcp_loop (suc (suc fuel)) p r ≡ handle_sub p (length p) r
  unfolding rtcp_loop
  loop_last fuel p r long whole =
      let e₁ : ltb (length p) 4 ≡ false = ground arith in
      let e₂ : ltb (length p) (length p) ≡ false = ground arith in
      let e₃ : ltb (length (drop (length p) p)) 4 ≡ true =
        ground (arith, length-drop (length p) p) in
      rw (e₁, whole, e₂)
        (elim (Option-cases (handle_sub p (length p) r)) [
          | inl e ↦ rw e refl
          | inr (r', e) ↦ rw (e, e₃) refl
        ])

  pub on_rtcp_packet_last :
      (p : Bytes) (r : Router S D)
      → 4 ≤ length p
      → sub_length p ≡ length p
      → on_rtcp_packet p r ≡ handle_sub p (length p) r
  unfolding on_rtcp_packet
  on_rtcp_packet_last p r long whole =
      let (n, e) = suc_cases (length p) long in
      ap (λ fuel. rtcp_loop (suc fuel) p r) e ∙ loop_last n p r long whole

  -- An RR of one report block is dropped unless its sender's own SSRC is one that the router gave
  -- out: the SSRC that the block reports on is not looked at.
  pub rr_by_sender :
      (sender about : ℕ) (block : Bytes) (r : Router S D)
      → sender < 2 ^ 32
      → length block ≡ 20
      → lookup sender r.out_ssrcs ≡ none
      → on_rtcp_packet ((0x81 ∷ 201 ∷ be16 7) ++ (be32 sender ++ (be32 about ++ block))) r ≡ some r
  unfolding handle_sub handle_rr find_consumer_by_out_ssrc
  rr_by_sender sender about block r fits whole absent =
      on_rtcp_packet_last ((0x81 ∷ 201 ∷ be16 7) ++ (be32 sender ++ (be32 about ++ block))) r
        (omega arith) (omega arith)
      ∙ rw (whole, be32-back sender fits, absent) refl
