-- ===== src/Transport/Credentials.antt =====
-- media-svc/transport/IceServer.cpp: the random credentials, and media-svc/transport/DtlsContext.cpp:
-- the text of the certificate's fingerprint.
use namecon.Common.{
  ℕ, zero, suc, ◌+◌, ◌/◌, ◌%◌, ◌<◌, ◌≡◌, ◌≢◌, refl, true, List, [], ◌∷◌, ◌++◌, if◌then◌else◌, ltb,
  length, get_or, arith, All, some,
}
use namecon.Common.Bytes.{Bytes}
use namecon.Common.Text.{bytes_eq_refl, ascii, NoLf}
use namecon.Transport.Ice.{IceServer, Scan, on_username, split_colon, accept}

abbrev chars : Bytes
chars = ascii "abcdefghijklmnopqrstuvwxyz0123456789"

-- `randomString`, with the draws from `k` on.
unfoldable pub random_string : (ℕ → ℕ) → ℕ → ℕ → Bytes
random_string dis k zero = []
random_string dis k (suc len) = get_or chars (dis k) 0 ∷ random_string dis (k + 1) len

-- The constructor, and `setSendCallback`.
unfoldable pub new_ice_server : (ℕ → ℕ) → IceServer
new_ice_server dis = record {
  ice_ufrag = random_string dis 0 4;
  ice_pwd = random_string dis 4 22;
  send_cb = true;
}

-- A digit of `std::hex` in upper case.
abbrev hex_digit : ℕ → ℕ
hex_digit n = if ltb n 10 then 48 + n else 55 + n

abbrev pub colon : ℕ → Bytes → Bytes
colon zero text = text
colon (suc i) text = 58 ∷ text

-- The loop over the digest, from byte `i` on.
unfoldable pub fingerprint_from : ℕ → Bytes → Bytes
fingerprint_from i [] = []
fingerprint_from i (b ∷ md) =
    colon i (hex_digit (b / 16) ∷ hex_digit (b % 16) ∷ fingerprint_from (suc i) md)

unfoldable pub fingerprint : Bytes → Bytes
fingerprint md = fingerprint_from 0 md

get_or-All {κ} :
    (P : ℕ → Type κ) (xs : List ℕ) (i d : ℕ) → All P xs → i < length xs → P (get_or xs i d)
get_or-All P [] i d h lt = absurd (omega arith)
get_or-All P (x ∷ xs) zero d h lt = h.0
get_or-All P (x ∷ xs) (suc i) d h lt = get_or-All P xs i d h.1 (omega arith)

-- The credentials are of their length, and hold no line feed and no colon.
random_string-All :
    (dis : ℕ → ℕ) (k len : ℕ)
    → ((n : ℕ) → dis n < 36)
    → All (λ c. (c ≢ 10) × (c ≢ 58)) (random_string dis k len)
unfolding random_string
random_string-All dis k zero range = tt
random_string-All dis k (suc len) range = (
  get_or-All (λ c. (c ≢ 10) × (c ≢ 58)) chars (dis k) 0 (omega arith) (range k),
  random_string-All dis (k + 1) len range,
)

pub random_string-NoLf :
    (dis : ℕ → ℕ) (k len : ℕ) → ((n : ℕ) → dis n < 36) → NoLf (random_string dis k len)
random_string-NoLf dis k len range =
    no_lf (random_string dis k len) (random_string-All dis k len range)
  where
    no_lf : (text : Bytes) → All (λ c. (c ≢ 10) × (c ≢ 58)) text → NoLf text
    no_lf [] h = tt
    no_lf (c ∷ text) h = (h.0.0, no_lf text h.1)

hex_digit-ne-lf : (n : ℕ) → hex_digit n ≢ 10
hex_digit-ne-lf n = ground arith

pub fingerprint_from-NoLf : (i : ℕ) (md : Bytes) → NoLf (fingerprint_from i md)
unfolding fingerprint_from
fingerprint_from-NoLf i [] = tt
fingerprint_from-NoLf zero (b ∷ md) =
    (hex_digit-ne-lf (b / 16), (hex_digit-ne-lf (b % 16), fingerprint_from-NoLf 1 md))
fingerprint_from-NoLf (suc i) (b ∷ md) = (
  omega arith,
  (hex_digit-ne-lf (b / 16), (hex_digit-ne-lf (b % 16), fingerprint_from-NoLf (suc (suc i)) md)),
)

split_colon-append :
    (ufrag peer : Bytes)
    → All (λ c. (c ≢ 10) × (c ≢ 58)) ufrag
    → split_colon (ufrag ++ 58 ∷ peer) ≡ some (ufrag, peer)
unfolding split_colon
split_colon-append [] peer h = refl
split_colon-append (c ∷ ufrag) peer h = ground (arith, split_colon-append ufrag peer h.1)

-- The credential check takes the USERNAME that a browser makes of the server's ufrag and its own.
pub on_username_own :
    (dis : ℕ → ℕ) (peer : Bytes) (st : Scan)
    → ((n : ℕ) → dis n < 36)
    → on_username
        (new_ice_server dis).ice_ufrag
        st
        (split_colon ((new_ice_server dis).ice_ufrag ++ 58 ∷ peer))
      ≡ accept (record st { peer_ufrag = peer })
unfolding new_ice_server
on_username_own dis peer st range = rw (
  split_colon-append (random_string dis 0 4) peer (random_string-All dis 0 4 range),
  bytes_eq_refl (random_string dis 0 4),
)
