-- ===== src/Transport/Srtp.antt =====
-- media-svc/transport/SrtpContext.h and SrtpContext.cpp over libsrtp, which is the parameter `Lib`.
pub mod Keys
use namecon.Common.{
  ℕ, ◌+◌, Bool, true, false, Option, none, some, List, ◌++◌, length, take, drop, ltb, if◌then◌else◌,
}
use namecon.Common.Bytes.{Bytes}

-- What `init` sets in an `srtp_policy_t` beside the key; both ciphers are AES_CM_128_HMAC_SHA1_80.
pub data Direction : Type 0 where
  any_inbound any_outbound : Direction

pub record Policy : Type 0 where
  pub ssrc_type : Direction
  pub window_size : ℕ
  pub allow_repeat_tx : Bool

-- libsrtp: `srtp_create` makes a session or fails; the four operations change the session and give
-- the new packet, or nothing where they do not return `srtp_err_status_ok`.
pub record Lib (S : Type 0) : Type 0 where
  pub create : Policy → Bytes → Option S
  pub srtp_protect : S → Bytes → S × Option Bytes
  pub srtp_protect_rtcp : S → Bytes → S × Option Bytes
  pub srtp_unprotect : S → Bytes → S × Option Bytes
  pub srtp_unprotect_rtcp : S → Bytes → S × Option Bytes

pub record SrtpContext (S : Type 0) : Type 0 where
  pub srtp_in : Option S
  pub srtp_out : Option S
  pub inited : Bool

abbrev pub new_context : {S : Type 0} → SrtpContext S
new_context = record { srtp_in = none; srtp_out = none; inited = false }

abbrev pub policy_in : Policy
policy_in = record { ssrc_type = any_inbound; window_size = 128; allow_repeat_tx = false }

abbrev pub policy_out : Policy
policy_out = record { ssrc_type = any_outbound; window_size = 128; allow_repeat_tx = false }

-- The slices of the key material: two keys of 16 bytes, two salts of 14.
abbrev pub key_with_salt_in : Bytes → Bytes
key_with_salt_in km = take 16 km ++ take 14 (drop 32 km)

abbrev pub key_with_salt_out : Bytes → Bytes
key_with_salt_out km = take 16 (drop 16 km) ++ take 14 (drop 46 km)

module _ {S : Type 0} ⦃lib : Lib S⦄ where
  -- After `srtp_create` of the outbound session, with the inbound session at hand.
  abbrev init_out : SrtpContext S → S → Option S → SrtpContext S × Bool
  init_out ctx session_in none = (record ctx { srtp_in = none; srtp_out = none }, false)
  init_out ctx session_in (some session_out) =
      (record { srtp_in = some session_in; srtp_out = some session_out; inited = true }, true)

  abbrev init_in : SrtpContext S → Bytes → Option S → SrtpContext S × Bool
  init_in ctx km none = (record ctx { srtp_in = none }, false)
  init_in ctx km (some session_in) =
      init_out ctx session_in (lib.create policy_out (key_with_salt_out km))

  unfoldable pub init : SrtpContext S → Bytes → SrtpContext S × Bool
  init ctx km =
      if ltb (length km) 60
      then (ctx, false)
      else init_in ctx km (lib.create policy_in (key_with_salt_in km))

  -- `if (!_inited || !_srtp) return false`, then the library's call on that session.
  abbrev on_session : Bool → Option S → (S → S × Option Bytes) → Option S × Option Bytes
  on_session inited none f = (none, none)
  on_session false (some s) f = (some s, none)
  on_session true (some s) f = (some (f s).0, (f s).1)

  abbrev on_in : SrtpContext S → (S → S × Option Bytes) → SrtpContext S × Option Bytes
  on_in ctx f = let r = on_session ctx.inited ctx.srtp_in f in (record ctx { srtp_in = r.0 }, r.1)

  abbrev on_out : SrtpContext S → (S → S × Option Bytes) → SrtpContext S × Option Bytes
  on_out ctx f =
      let r = on_session ctx.inited ctx.srtp_out f in (record ctx { srtp_out = r.0 }, r.1)

  unfoldable pub unprotect : SrtpContext S → Bytes → SrtpContext S × Option Bytes
  unprotect ctx buf = on_in ctx (λ s. lib.srtp_unprotect s buf)

  unfoldable pub unprotect_rtcp : SrtpContext S → Bytes → SrtpContext S × Option Bytes
  unprotect_rtcp ctx buf = on_in ctx (λ s. lib.srtp_unprotect_rtcp s buf)

  unfoldable pub protect : SrtpContext S → Bytes → SrtpContext S × Option Bytes
  protect ctx buf = on_out ctx (λ s. lib.srtp_protect s buf)

  unfoldable pub protect_rtcp : SrtpContext S → Bytes → SrtpContext S × Option Bytes
  protect_rtcp ctx buf = on_out ctx (λ s. lib.srtp_protect_rtcp s buf)
