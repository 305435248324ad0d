-- ===== src/Rtcp.antt =====
-- media-svc/rtcp/RtcpHandler.h and RtcpHandler.cpp: the compound packet parser and the packets that
-- the SFU builds. The pointer `p` is the rest of the buffer from `p` to `end`; a read past `end` is
-- the value `fault`. The `while` loops take fuel; `stuck` is no C++ behaviour: the fuel ran out.
pub mod Termination
pub mod RoundTrip
pub mod Faults
mod Runs
use Prim.Native.Nat.{bit_and, bit_or}
use namecon.Common.{
  ℕ, zero, suc, ◌+◌, ◌-◌, ◌*◌, Bool, true, false, ◌&&◌, List, [], ◌∷◌, ◌++◌, length, take, drop,
  ltb, leb, ◌==◌, if◌then◌else◌,
}
use namecon.Common.Bytes.{Bytes, be16, be32, byte, read16, read32, memcpy}

-- Which callbacks are set: `_sendCb`, `_pliCb`, `_nackCb`, `_sdesCb`, `_srCb`.
pub record Callbacks : Type 0 where
  pub send_cb : Bool
  pub pli_cb : Bool
  pub nack_cb : Bool
  pub sdes_cb : Bool
  pub sr_cb : Bool

-- A callback that was made, with its arguments.
pub data Event : Type 0 where
  pli : ℕ → Event
  nack : ℕ → ℕ → ℕ → Event
  sdes : ℕ → Bytes → Event
  sr : ℕ → ℕ → ℕ → ℕ → ℕ → ℕ → Event

pub data Result {ℓ} (A : Type ℓ) : Type ℓ where
  ok : A → Result A
  fault : Result A
  stuck : Result A

infixl 5 ◌>>=◌
abbrev pub ◌>>=◌ {ℓ κ} : {A : Type ℓ} {B : Type κ} → Result A → (A → Result B) → Result B
ok a >>= f = f a
fault >>= f = fault
stuck >>= f = stuck

-- `if (cb) cb(...)`
abbrev pub call : Bool → Event → List Event
call cb e = if cb then e ∷ [] else []

-- `memcpy(&x, p + i, 4)` and `ntohl`, which must not pass `end`.
abbrev pub checked32 : Bytes → ℕ → Result ℕ
checked32 p i = if leb (i + 4) (length p) then ok (read32 p i) else fault

unfoldable pub sr_packet : Callbacks → Bytes → Result (List Event)
sr_packet cbs p = do
  sender_ssrc ← checked32 p 4
  ntp_msw ← checked32 p 8
  ntp_lsw ← checked32 p 12
  rtp_ts ← checked32 p 16
  pkt_cnt ← checked32 p 20
  oct_cnt ← checked32 p 24
  ok (call cbs.sr_cb (sr sender_ssrc ntp_msw ntp_lsw rtp_ts pkt_cnt oct_cnt))

-- The items of an SDES chunk; the list is what lies between `item` and `itemEnd`.
unfoldable pub sdes_items : ℕ → Callbacks → ℕ → Bytes → Result (List Event)
sdes_items fuel cbs ssrc [] = ok []
sdes_items fuel cbs ssrc (type ∷ []) = ok []
sdes_items zero cbs ssrc (type ∷ val_len ∷ items) = stuck
sdes_items (suc fuel) cbs ssrc (type ∷ val_len ∷ items) =
    let found =
      if type == 1 && ltb 0 val_len
      then call cbs.sdes_cb (sdes ssrc (take val_len items))
      else [] in
    let rest = sdes_items fuel cbs ssrc (drop val_len items) in
    if type == 0
    then ok []
    else (if ltb (length items) val_len then ok [] else (rest >>= λ more. ok (found ++ more)))

unfoldable pub sdes_packet : Callbacks → Bytes → ℕ → Result (List Event)
sdes_packet cbs p packet_len = do
  ssrc ← checked32 p 4
  sdes_items (length p) cbs ssrc (drop 8 (take packet_len p))

-- Both feedback packets are read under a guard on `packetLen`.
unfoldable pub nack_packet : Callbacks → Bytes → ℕ → List Event
nack_packet cbs p packet_len =
    if bit_and (byte p 0) 0x1f == 1 && leb 16 packet_len
    then call cbs.nack_cb (nack (read32 p 8) (read16 p 12) (read16 p 14))
    else []

unfoldable pub pli_packet : Callbacks → Bytes → ℕ → List Event
pli_packet cbs p packet_len =
    if bit_and (byte p 0) 0x1f == 1 && leb 12 packet_len
    then call cbs.pli_cb (pli (read32 p 8))
    else []

-- `switch (pt)`
unfoldable pub sub_packet : Callbacks → Bytes → ℕ → Result (List Event)
sub_packet cbs p packet_len =
    if byte p 1 == 200
    then sr_packet cbs p
    else (if byte p 1 == 202
        then sdes_packet cbs p packet_len
        else (if byte p 1 == 205
            then ok (nack_packet cbs p packet_len)
            else (if byte p 1 == 206 then ok (pli_packet cbs p packet_len) else ok [])))

-- The length field counts 32-bit words less one.
abbrev pub packet_length : Bytes → ℕ
packet_length p = (read16 p 2 + 1) * 4

unfoldable pub packets : ℕ → Callbacks → Bytes → Result (List Event)
packets zero cbs p = stuck
packets (suc fuel) cbs p =
    let here = sub_packet cbs p (packet_length p) in
    let rest = packets fuel cbs (drop (packet_length p) p) in
    if ltb (length p) 4
    then ok []
    else (if ltb (length p) (packet_length p)
        then ok []
        else (here >>= λ es. rest >>= λ more. ok (es ++ more)))

-- Each round takes four bytes at least.
unfoldable pub on_rtcp_packet : Callbacks → Bytes → Result (List Event)
on_rtcp_packet cbs buf = packets (suc (length buf)) cbs buf

-- The buffers that are handed to `_sendCb`.
abbrev send : Callbacks → Bytes → List Bytes
send cbs buf = if cbs.send_cb then buf ∷ [] else []

abbrev pub pli_bytes : ℕ → ℕ → Bytes
pli_bytes sender_ssrc media_ssrc =
    (bit_or 0x80 1 ∷ 206 ∷ be16 2) ++ (be32 sender_ssrc ++ be32 media_ssrc)

unfoldable pub send_pli : Callbacks → ℕ → ℕ → List Bytes
send_pli cbs sender_ssrc media_ssrc = send cbs (pli_bytes sender_ssrc media_ssrc)

abbrev pub nack_bytes : ℕ → ℕ → ℕ → ℕ → Bytes
nack_bytes sender_ssrc media_ssrc pid blp =
    (bit_or 0x80 1 ∷ 205 ∷ be16 3)
    ++ (be32 sender_ssrc ++ (be32 media_ssrc ++ (be16 pid ++ be16 blp)))

unfoldable pub send_nack : Callbacks → ℕ → ℕ → ℕ → ℕ → List Bytes
send_nack cbs sender_ssrc media_ssrc pid blp = send cbs (nack_bytes sender_ssrc media_ssrc pid blp)

abbrev pub sr_bytes : ℕ → ℕ → ℕ → ℕ → ℕ → ℕ → Bytes
sr_bytes receiver_ssrc ntp_msw ntp_lsw rtp_ts pkt_cnt oct_cnt =
    (0x80 ∷ 200 ∷ be16 6)
    ++ (be32 receiver_ssrc
        ++ (be32 ntp_msw ++ (be32 ntp_lsw ++ (be32 rtp_ts ++ (be32 pkt_cnt ++ be32 oct_cnt)))))

-- `media_ssrc` is not used by the code.
unfoldable pub send_sr : Callbacks → ℕ → ℕ → ℕ → ℕ → ℕ → ℕ → ℕ → List Bytes
send_sr cbs receiver_ssrc media_ssrc ntp_msw ntp_lsw rtp_ts pkt_cnt oct_cnt =
    send cbs (sr_bytes receiver_ssrc ntp_msw ntp_lsw rtp_ts pkt_cnt oct_cnt)
