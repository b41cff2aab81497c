-- ===== src/Crypto.antt =====
-- server/src/crypto.cpp: SHA-256, HMAC and HKDF. Sizes are those of the buffers on the stack; a
-- `memcpy` past one of them is a `fault`. `Sha256` and its rounds are in the child `Sha`.
pub mod Sha
pub mod Sizes
pub mod Padding
pub mod Fips
pub mod Expand
mod Vectors
pub use Sha.{sha256}
use Prim.Native.Nat.{bit_xor}
use e2ee_windows.Common.{
  ℕ, zero, suc, ◌+◌, ◌-◌, ◌/◌, ◌%◌, ◌*◌, Bool, ◌||◌, Option, none, some, [], ◌∷◌, ◌++◌, Bytes, Run,
  done, fault, ◌>>=◌, ltb, ◌==◌, if◌then◌else◌, length, take, drop, map, replicate, is_empty,
}

abbrev pub block_size : ℕ
block_size = 64

abbrev pub digest_size : ℕ
digest_size = 32

-- What fits behind the padded key in `inner_buf`.
abbrev pub inner_room : ℕ
inner_room = 1024

unfoldable pub key_block : Bytes → Bytes
key_block key =
    let used = (if ltb block_size (length key) then sha256 key else key) in
    used ++ replicate (block_size - length used) 0

-- The two hashes, where the data fits the buffer.
unfoldable pub hmac_digest : Bytes → Bytes → Bytes
hmac_digest key bs = sha256 (
    map (λ b. bit_xor b 0x5c) (key_block key)
    ++ sha256 (map (λ b. bit_xor b 0x36) (key_block key) ++ bs))

unfoldable pub hmac_sha256 : Bytes → Bytes → Run Bytes
hmac_sha256 key bs = if ltb inner_room (length bs) then fault else done (hmac_digest key bs)

-- `buf` of `HkdfSha256`
abbrev pub expand_room : ℕ
expand_room = 1056

-- `to_copy` of the loop
unfoldable pub to_copy : ℕ → ℕ → ℕ
to_copy generated out_len =
    if ltb out_len (generated + digest_size) then out_len - generated else digest_size

-- The input of one round: the block before it, `info` and the number of the round.
unfoldable pub round_input : Bytes → Bytes → Bytes → ℕ → Bytes
round_input out t info i = (if is_empty out then [] else t) ++ (info ++ (i % 256) ∷ [])

-- `rounds` more rounds, the next one being number `i`; `t` is the last block, `out` the key so far.
unfoldable pub hkdf_rounds : ℕ → ℕ → Bytes → Bytes → ℕ → Bytes → Bytes → Run Bytes
hkdf_rounds zero i prk info out_len t out = done out
hkdf_rounds (suc rounds) i prk info out_len t out =
    let input = round_input out t info i in
    if ltb expand_room (length input) then fault else (do
      next ← hmac_sha256 prk input
      hkdf_rounds rounds (i + 1) prk info out_len next
          (out ++ take (to_copy (length out) out_len) next))

-- `none` stands for `false`: more than 255 blocks.
unfoldable pub hkdf_expand : Bytes → Bytes → ℕ → Run (Option Bytes)
hkdf_expand prk info out_len =
    let n_blocks = (out_len + digest_size - 1) / digest_size in
    if ltb 255 n_blocks
    then done none
    else (do out ← hkdf_rounds n_blocks 1 prk info out_len (replicate 32 0) []; done (some out))

-- A missing salt and a missing `info` are empty here.
unfoldable pub hkdf_sha256 : Bytes → Bytes → Bytes → ℕ → Run (Option Bytes)
hkdf_sha256 ikm salt info out_len = if out_len == 0 then done none else (do
  prk ← hmac_sha256 (if is_empty salt then replicate 32 0 else salt) ikm
  hkdf_expand prk info out_len)
