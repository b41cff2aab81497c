-- ===== src/Crypto/Vectors.antt =====
-- Published test vectors, run on the definitions.
use e2ee_windows.Common.{◌≡◌, refl, [], ◌∷◌, text, done}
use e2ee_windows.Crypto.Sha.{sha256}
use e2ee_windows.Crypto.{hmac_sha256, hmac_digest, key_block}

-- RFC 4231, test case 2.
hmac_jefe :
    hmac_sha256 (text "Jefe") (text "what do ya want for nothing?")
    ≡ done (
        0x5b ∷ 0xdc ∷ 0xc1 ∷ 0x46 ∷ 0xbf ∷ 0x60 ∷ 0x75 ∷ 0x4e ∷ 0x6a ∷ 0x04 ∷ 0x24 ∷ 0x26 ∷ 0x08
        ∷ 0x95 ∷ 0x75 ∷ 0xc7 ∷ 0x5a ∷ 0x00 ∷ 0x3f ∷ 0x08 ∷ 0x9d ∷ 0x27 ∷ 0x39 ∷ 0x83 ∷ 0x9d ∷ 0xec
        ∷ 0x58 ∷ 0xb9 ∷ 0x64 ∷ 0xec ∷ 0x38 ∷ 0x43 ∷ [])
unfolding hmac_sha256 hmac_digest key_block sha256
hmac_jefe = refl
