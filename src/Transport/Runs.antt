-- ===== src/Transport/Runs.antt =====
-- SrtpContext and IceServer over stand-ins for libsrtp, OpenSSL and zlib.
use namecon.Transport.Ice.Validate.{validate_credentials-ne-stuck}
use namecon.Transport.Ice.{stuck, Crypto, validate_credentials, IceServer, response}
use namecon.Common.{arith, length, ◌≢◌, ◌+◌, ℕ, ◌≡◌, refl, some, true, false, [], ◌∷◌, ◌++◌}
use namecon.Transport.Ice.Respond.{response-Layout, Layout}
use namecon.Common.Bytes.{be32, be16, Bytes}
use namecon.Transport.Srtp.{Lib, init, new_context}

-- Sessions are packet counters; a protected packet has one byte more.
instance abbrev counting : Lib ℕ
counting = record {
  create = λ policy key. some 0;
  srtp_protect = λ n buf. (n + 1, some (buf ++ (n ∷ [])));
  srtp_protect_rtcp = λ n buf. (n + 1, some (buf ++ (n ∷ [])));
  srtp_unprotect = λ n buf. (n + 1, some buf);
  srtp_unprotect_rtcp = λ n buf. (n + 1, some buf);
}

abbrev key : Bytes
key = 1 ∷ 2 ∷ 3 ∷ 4 ∷ 5 ∷ 6 ∷ 7 ∷ 8 ∷ 9 ∷ 10 ∷ 11 ∷ 12 ∷ 13 ∷ 14 ∷ 15 ∷ 16 ∷ []

short_key : (init (new_context {S = ℕ}) key).1 ≡ false
unfolding init
short_key = refl

-- A stand-in for HMAC-SHA1 and CRC-32.
abbrev twenty : Bytes
twenty =
    1 ∷ 2 ∷ 3 ∷ 4 ∷ 5 ∷ 6 ∷ 7 ∷ 8 ∷ 9 ∷ 10 ∷ 11 ∷ 12 ∷ 13 ∷ 14 ∷ 15 ∷ 16 ∷ 17 ∷ 18 ∷ 19 ∷ 20 ∷ []

abbrev peer_c : Bytes
peer_c = 99 ∷ []

abbrev constant_tag : Crypto
constant_tag = record { hmac = λ password msg. twenty; crc32 = λ msg. length msg }

-- The server's ufrag is "ab".
abbrev server : IceServer
server = record { ice_ufrag = 97 ∷ 98 ∷ []; ice_pwd = 99 ∷ []; send_cb = true }

-- A Binding Request with USERNAME "ab:c".
abbrev request : Bytes
request =
    (0 ∷ 1 ∷ be16 32)
    ++ (be32 0x2112A442
        ++ (1 ∷ 2 ∷ 3 ∷ 4 ∷ 5 ∷ 6 ∷ 7 ∷ 8 ∷ 9 ∷ 10 ∷ 11 ∷ 12 ∷ 0 ∷ 6 ∷ 0 ∷ 4 ∷ 97 ∷ 98 ∷ 58 ∷ 99 ∷ 0
            ∷ 8 ∷ 0 ∷ 20 ∷ twenty))

validate_credentials-ne-stuck_example : validate_credentials constant_tag server request ≢ stuck
validate_credentials-ne-stuck_example = validate_credentials-ne-stuck constant_tag server request

answered : length (response constant_tag server request 0x7F000001 5000) ≡ 64
unfolding response
answered = refl

response-Layout_example :
    Layout constant_tag server 0x7F000001 5000
      (1 ∷ 2 ∷ 3 ∷ 4 ∷ 5 ∷ 6 ∷ 7 ∷ 8 ∷ 9 ∷ 10 ∷ 11 ∷ 12 ∷ [])
      (response constant_tag server request 0x7F000001 5000)
response-Layout_example =
    response-Layout constant_tag server 0x7F000001 5000 request (omega arith) (λ msg. refl)
