-- ===== src/Sdp/Types.antt =====
-- media-svc/sdp/SdpParser.h: the members. The static ones, which all parsers share, are the record
-- `Payloads`.
use namecon.Common.{ℕ, Bool, List}
use namecon.Common.Bytes.{Bytes}
use namecon.Common.Int.{ℤ}

pub data Direction : Type 0 where
  unset : Direction
  sendrecv : Direction
  sendonly : Direction
  recvonly : Direction
  inactive : Direction

pub record MediaSection : Type 0 where
  pub type : Bytes
  pub mid : Bytes
  pub direction : Direction
  pub pt_list : Bytes
  pub codec_lines : List Bytes

-- `videoPTs`, `audioPTs`, `videoPT` and `audioPT`.
pub record Payloads : Type 0 where
  pub video_pts : ℕ → Bool
  pub audio_pts : ℕ → Bool
  pub video_pt : ℕ
  pub audio_pt : ℕ

pub record SdpParser : Type 0 where
  pub sections : List MediaSection
  pub ice_ufrag : Bytes
  pub ice_pwd : Bytes
  pub fingerprint : Bytes
  pub server_ip : Bytes
  pub server_port : ℤ
  pub server_ufrag : Bytes
  pub server_pwd : Bytes
  pub server_fingerprint : Bytes
  pub mid_ssrc : List (Bytes × ℕ)
  pub shared : Payloads

-- The members as they are, or as they are when `std::stoi` throws.
pub data Parse : Type 0 where
  parsed : SdpParser → Parse
  throws : SdpParser → Parse
