-- ===== src/Transport/Ice.antt =====
-- media-svc/transport/IceServer.h and IceServer.cpp: ICE-lite. HMAC-SHA1 (OpenSSL) and CRC-32 (zlib)
-- are the parameter `Crypto`. Texts are their bytes. `stuck` is no C++ behaviour: the fuel ran out.

pub mod Validate
pub mod Respond
use namecon.Common.Text.{bytes_eq}
use Prim.Native.Nat.{bit_xor}
use namecon.Common.{
  ℕ, zero, suc, ◌+◌, ◌-◌, ◌*◌, ◌/◌, ◌^◌, Bool, true, false, ◌&&◌, Option, none, some, List, [], ◌∷◌,
  ◌++◌, length, take, drop, ltb, leb, ◌==◌, if◌then◌else◌,
}
use namecon.Common.Bytes.{Bytes, be16, be32, read16, read32, memcpy}

pub record Crypto : Type 0 where
  pub hmac : Bytes → Bytes → Bytes
  pub crc32 : Bytes → ℕ

pub record IceServer : Type 0 where
  pub ice_ufrag : Bytes
  pub ice_pwd : Bytes
  pub send_cb : Bool

pub data Verdict {ℓ} (A : Type ℓ) : Type ℓ where
  accept : A → Verdict A
  reject : Verdict A
  stuck : Verdict A

-- `miPos`, as an offset, and `outPeerUfrag`.
pub record Scan : Type 0 where
  pub mi_pos : Option ℕ
  pub peer_ufrag : Bytes

abbrev in_front : ℕ → Option (Bytes × Bytes) → Option (Bytes × Bytes)
in_front b none = none
in_front b (some (l, r)) = some (b ∷ l, r)

-- `username.find(':')` and the two parts.
unfoldable pub split_colon : Bytes → Option (Bytes × Bytes)
split_colon [] = none
split_colon (b ∷ bs) = if b == 58 then some ([], bs) else in_front b (split_colon bs)

-- `==` on texts, and `memcmp` on as many bytes.
abbrev pub on_username : Bytes → Scan → Option (Bytes × Bytes) → Verdict Scan
on_username ufrag st none = accept st
on_username ufrag st (some (srv, peer)) =
    if bytes_eq srv ufrag then accept (record st { peer_ufrag = peer }) else reject

-- One attribute: its type, offset and value.
unfoldable pub on_attribute : Bytes → ℕ → ℕ → Bytes → Scan → Verdict Scan
on_attribute ufrag type pos value st =
    if type == 0x0006
    then on_username ufrag st (split_colon value)
    else (if type == 0x0008
        then (if length value == 20 then accept (record st { mi_pos = some pos }) else reject)
        else accept st)

-- `(n + 3) & ~3`
abbrev pub align4 : ℕ → ℕ
align4 n = (n + 3) / 4 * 4

abbrev pub value_end : Bytes → ℕ → ℕ
value_end data_ pos = pos + 4 + read16 data_ (pos + 2)

abbrev pub value_at : Bytes → ℕ → Bytes
value_at data_ pos = take (read16 data_ (pos + 2)) (drop (pos + 4) data_)

infixl 5 ◌>>=◌
abbrev pub ◌>>=◌ {ℓ κ} : {A : Type ℓ} {B : Type κ} → Verdict A → (A → Verdict B) → Verdict B
accept a >>= f = f a
reject >>= f = reject
stuck >>= f = stuck

-- The loop over the attributes.
unfoldable pub scan : ℕ → Bytes → Bytes → ℕ → Scan → Verdict Scan
scan zero ufrag data_ pos st = stuck
scan (suc fuel) ufrag data_ pos st =
    let rest =
      (on_attribute ufrag (read16 data_ pos) pos (value_at data_ pos) st >>= λ st'.
      scan fuel ufrag data_ (align4 (value_end data_ pos)) st') in
    if leb (pos + 4) (length data_)
    then (if ltb (length data_) (value_end data_ pos) then accept st else rest)
    else accept st

-- The message in front of MESSAGE-INTEGRITY, its length field set as if the message ended with it.
abbrev pub signed_part : Bytes → ℕ → Bytes
signed_part data_ mi = memcpy (take mi data_) 2 (be16 (mi + 4))

abbrev pub tag_at : Bytes → ℕ → Bytes
tag_at data_ mi = take 20 (drop (mi + 4) data_)

module _ (crypto : Crypto) (server : IceServer) where
  abbrev pub check_tag : Bytes → Bytes → Option ℕ → Verdict Bytes
  check_tag data_ peer none = reject
  check_tag data_ [] (some mi) = reject
  check_tag data_ (p ∷ peer) (some mi) =
      if ltb 4096 mi
      then reject
      else (if bytes_eq (crypto.hmac server.ice_pwd (signed_part data_ mi)) (tag_at data_ mi)
          then accept (p ∷ peer)
          else reject)

  -- The peer's ufrag where the C++ returns `true`.
  unfoldable pub validate_credentials : Bytes → Verdict Bytes
  validate_credentials data_ = do
    st ←
        scan (suc (length data_)) server.ice_ufrag data_ 20
          (record { mi_pos = none; peer_ufrag = [] })
    check_tag data_ st.peer_ufrag st.mi_pos

  abbrev pub response_header : Bytes → Bytes
  response_header request = (be16 0x0101 ++ be16 0) ++ (be32 0x2112A442 ++ take 12 (drop 8 request))

  abbrev pub xor_mapped : ℕ → ℕ → Bytes
  xor_mapped address port =
      (be16 0x0020 ++ be16 8)
      ++ (0 ∷ 1 ∷ (be16 (bit_xor port (0x2112A442 / 2 ^ 16)) ++ be32 (bit_xor address 0x2112A442)))

  abbrev pub with_length : Bytes → ℕ → Bytes
  with_length msg n = memcpy msg 2 (be16 n)

  abbrev pub add_integrity : Bytes → Bytes
  add_integrity msg =
      let m = with_length msg (length msg - 20 + 24) in
      m ++ ((be16 0x0008 ++ be16 20) ++ crypto.hmac server.ice_pwd m)

  abbrev pub add_fingerprint : Bytes → Bytes
  add_fingerprint msg =
      let m = with_length msg (length msg - 20 + 8) in
      m ++ ((be16 0x8028 ++ be16 4) ++ be32 (bit_xor (crypto.crc32 m) 0x5354554E))

  unfoldable pub response : Bytes → ℕ → ℕ → Bytes
  response request address port =
      add_fingerprint (add_integrity (response_header request ++ xor_mapped address port))

  -- What `_sendCb` is called with.
  unfoldable pub send_response : Bytes → ℕ → ℕ → List Bytes
  send_response request address port =
      if server.send_cb then response request address port ∷ [] else []

  abbrev pub answer : Bytes → ℕ → ℕ → Verdict Bytes → List Bytes
  answer request address port (accept peer) = send_response request address port
  answer request address port reject = []
  answer request address port stuck = []

  unfoldable pub on_stun_packet : Bytes → ℕ → ℕ → List Bytes
  on_stun_packet data_ address port =
      if ltb (length data_) 20
      then []
      else (if read16 data_ 0 == 1
          then (if read32 data_ 4 == 0x2112A442
              then answer data_ address port (validate_credentials data_)
              else [])
          else [])
