-- ===== src/Channel.antt =====
-- server/src/secure_channel.cpp: a sealed message is a nonce of 12 bytes, the cipher text and a tag of 32 bytes.
pub mod Stream
pub mod Keys
pub mod Sealing
pub mod Accepts
pub mod Reuse
use Prim.Native.Nat.{bit_xor}
use e2ee_windows.Common.{
  ℕ, zero, suc, ◌+◌, ◌-◌, ◌%◌, ◌^◌, ◌==◌, Bool, true, false, not, ◌&&◌, Option, none, some, [], ◌∷◌,
  ◌++◌, Bytes, text, same, Run, done, fault, ◌>>=◌, if◌then◌else◌, length, take, drop, replicate,
  ltb, min,
}
use e2ee_windows.Common.Word.{to_le, from_le}
use e2ee_windows.Crypto.{hmac_sha256, hkdf_sha256}
use e2ee_windows.Pake.{DerivedKeys}

pub record SecureChannel : Type 0 where
  pub enc_key : Bytes
  pub auth_key : Bytes
  pub ratchet_root : Bytes

-- `SecureChannel()`: arrays of zeros.
abbrev pub no_channel : SecureChannel
no_channel = record {
  enc_key = replicate 32 0;
  auth_key = replicate 32 0;
  ratchet_root = replicate 32 0;
}

-- `SecureChannel(keys)`
unfoldable pub make_channel : DerivedKeys → SecureChannel
make_channel keys = record {
  enc_key = keys.kcp_key;
  auth_key = keys.header_key;
  ratchet_root = keys.ratchet_root;
}

abbrev pub nonce_size : ℕ
nonce_size = 12

abbrev pub tag_size : ℕ
tag_size = 32

unfoldable pub build_nonce : ℕ → Bytes
build_nonce seq = to_le 8 seq ++ replicate 4 0

-- `fuel` bounds the rounds of the loop; `out` holds the `produced` bytes.
unfoldable pub keystream_loop : ℕ → Bytes → Bytes → ℕ → ℕ → Bytes → Run Bytes
keystream_loop zero key nonce need counter out = done out
keystream_loop (suc fuel) key nonce need counter out =
    let more = (do
      block ← hmac_sha256 key (nonce ++ to_le 4 counter)
      keystream_loop fuel key nonce need ((counter + 1) % 2 ^ 32)
          (out ++ take (min 32 (need - length out)) block)) in
    if ltb (length out) need then more else done out

-- Each round produces a byte at least, so `need` rounds are enough.
unfoldable pub keystream : Bytes → Bytes → ℕ → Run Bytes
keystream key nonce need = keystream_loop need key nonce need 0 []

-- `a[i] ^ ks[i]` for each i below the size of `a`.
unfoldable pub xor_bytes : Bytes → Bytes → Bytes
xor_bytes [] ks = []
xor_bytes (a ∷ as') [] = bit_xor a 0 ∷ xor_bytes as' []
xor_bytes (a ∷ as') (k ∷ ks) = bit_xor a k ∷ xor_bytes as' ks

abbrev all_zero : Bytes → Bool
all_zero [] = true
all_zero (b ∷ bs) = b == 0 && all_zero bs

unfoldable pub has_ratchet_root : SecureChannel → Bool
has_ratchet_root ch = not (all_zero ch.ratchet_root)

-- The keys stay as they are where `HkdfSha256` returns false; no caller looks at the result.
unfoldable pub message_keys : SecureChannel → Option Bytes → Bytes × Bytes
message_keys ch none = (ch.enc_key, ch.auth_key)
message_keys ch (some buf) = (take 32 buf, take 32 (drop 32 buf))

unfoldable pub derive_per_message_keys : SecureChannel → ℕ → Run (Bytes × Bytes)
derive_per_message_keys ch seq =
    if has_ratchet_root ch
    then (do
      buf ← hkdf_sha256 ch.ratchet_root [] (to_le 8 seq ++ replicate 4 0) 64
      done (message_keys ch buf))
    else done (ch.enc_key, ch.auth_key)

unfoldable pub seal : Bytes → Bytes → ℕ → Bytes → Run Bytes
seal enc auth seq plaintext = do
  let nonce = build_nonce seq
  ks ← keystream enc nonce (length plaintext)
  let body = nonce ++ xor_bytes plaintext ks
  tag ← hmac_sha256 auth body
  done (body ++ tag)

unfoldable pub encrypt : SecureChannel → ℕ → Bytes → Run Bytes
encrypt ch seq plaintext = do
  (enc, auth) ← derive_per_message_keys ch seq
  seal enc auth seq plaintext

-- The part of `Decrypt` behind the check of the sequence number.
unfoldable pub open_body : Bytes → Bytes → Bytes → Bytes → Bytes → Run (Option Bytes)
open_body enc auth nonce cipher tag = do
  calc ← hmac_sha256 auth (nonce ++ cipher)
  if same calc tag
      then (do ks ← keystream enc nonce (length cipher); done (some (xor_bytes cipher ks)))
      else done none

-- The part behind the derivation of the keys, for an input of at least 44 bytes.
unfoldable pub open_input : Bytes → Bytes → Bytes → ℕ → Run (Option Bytes)
open_input enc auth input expected_seq =
    let cipher_len = length input - nonce_size - tag_size in
    let nonce = take nonce_size input in
    if from_le (take 8 nonce) == expected_seq
    then open_body enc auth nonce (take cipher_len (drop nonce_size input))
        (drop (nonce_size + cipher_len) input)
    else done none

unfoldable pub decrypt : SecureChannel → Bytes → ℕ → Run (Option Bytes)
decrypt ch input expected_seq =
    if ltb (length input) (nonce_size + tag_size) then done none else (do
      (enc, auth) ← derive_per_message_keys ch expected_seq
      open_input enc auth input expected_seq)
