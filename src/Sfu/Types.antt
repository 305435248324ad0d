-- ===== src/Sfu/Types.antt =====
-- media-svc/sfu/Consumer.h, Producer.h and Peer.h. A pointer is an address, a number; a null pointer
-- is `none`. Producers are owned by one peer and are kept in it; consumers stand in the store.
use Prim.Native.String.{String}
use namecon.Common.{ℕ, Bool, Option, List}
use namecon.Common.Int.{ℤ}
use namecon.Transport.Srtp.{SrtpContext}

-- An IPv4 endpoint, in host order.
pub record Endpoint : Type 0 where
  pub address : ℕ
  pub port : ℕ

pub record Consumer : Type 0 where
  pub subscriber : Option ℕ
  pub publisher : Option ℕ
  pub is_video : Bool
  pub rewritten_ssrc : ℕ
  pub publisher_ssrc : ℕ
  pub recv_mid : String
  pub seq_initialized : Bool
  pub last_sent_seq : ℕ
  pub last_sent_timestamp : ℕ
  pub seq_delta : ℤ
  pub ts_delta : ℤ
  pub packets_sent : ℕ
  pub octets_sent : ℕ
  pub last_sr_ntp_ts : ℕ
  pub last_sr_rtp_ts : ℕ
  pub active : Bool

pub record Producer : Type 0 where
  pub publisher : ℕ
  pub original_ssrc : ℕ
  pub is_video : Bool
  pub consumers : List ℕ

-- `S` is libsrtp's session and `D` the peer's DTLS context.
pub record Peer (S D : Type 0) : Type 0 where
  pub peer_id : String
  pub remote_ep : Endpoint
  pub dtls : Option D
  pub srtp : Option (SrtpContext S)
  pub producers : List Producer
  pub consumers : List ℕ
