-- ===== src/Crypto/Sizes.antt =====
-- crypto.cpp: the sizes of digests, and which inputs `HmacSha256` has room for.
use e2ee_windows.Common.{
  ◌≤◌, ◌<◌, ◌≡◌, ◌↔◌, refl, Bytes, IsByte, All, done, fault, arith, length, le→ltb_false, lt→ltb,
}
use e2ee_windows.Crypto.Sha.{Regs, digest, sha256}
use e2ee_windows.Crypto.{hmac_digest, hmac_sha256, inner_room}

length-digest : (r : Regs) → length (digest r) ≡ 32
unfolding digest
length-digest r = refl

digest-IsByte : (r : Regs) → All IsByte (digest r)
unfolding digest
digest-IsByte r = omega arith

pub length-sha256 : (bs : Bytes) → length (sha256 bs) ≡ 32
unfolding sha256
length-sha256 bs = refl

pub sha256-IsByte : (bs : Bytes) → All IsByte (sha256 bs)
unfolding sha256
sha256-IsByte bs = digest-IsByte _

pub length-hmac_digest : (key bs : Bytes) → length (hmac_digest key bs) ≡ 32
unfolding hmac_digest
length-hmac_digest key bs = length-sha256 _

pub hmac_digest-IsByte : (key bs : Bytes) → All IsByte (hmac_digest key bs)
unfolding hmac_digest
hmac_digest-IsByte key bs = sha256-IsByte _

pub hmac_fits :
    (key bs : Bytes) → length bs ≤ inner_room → hmac_sha256 key bs ≡ done (hmac_digest key bs)
unfolding hmac_sha256
hmac_fits key bs h = rw (le→ltb_false inner_room (length bs) h)

-- `HmacSha256` writes past `inner_buf` exactly when it is given more than 1024 bytes.
pub hmac_fault_iff : (key bs : Bytes) → (hmac_sha256 key bs ≡ fault) ↔ (inner_room < length bs)
unfolding hmac_sha256
hmac_fault_iff key bs = (λ e. ground arith, λ h. rw (lt→ltb inner_room (length bs) h))
