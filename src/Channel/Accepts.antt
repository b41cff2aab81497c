-- ===== src/Channel/Accepts.antt =====
-- secure_channel.cpp: what `Decrypt` accepts, and the messages that `Encrypt` has no room for.
use e2ee_windows.Common.{
  ℕ, ◌+◌, ◌-◌, ◌≤◌, ◌<◌, ◌≡◌, ◌↔◌, refl, ◌∙◌, Bytes, done, fault, ◌>>=◌, Bool, true, false, arith,
  none, some, ◌++◌, length, take, drop, length-take, length-drop, length-append, if◌then◌else◌,
  same, same→eq, take-take_le, take-add, >>=-eq-done,
}
use e2ee_windows.Common.Word.{from_le}
use e2ee_windows.Crypto.{hmac_sha256, hmac_digest}
use e2ee_windows.Crypto.Sizes.{hmac_fault_iff}
use e2ee_windows.Channel.{
  SecureChannel, build_nonce, keystream, xor_bytes, derive_per_message_keys, seal, encrypt,
  open_body, open_input, decrypt,
}
use e2ee_windows.Channel.Keys.{IsChannel, message_keys_total}
use e2ee_windows.Channel.Stream.{keystream-Stream, length-xor_bytes}
use e2ee_windows.Channel.Sealing.{length-build_nonce, seal_parts}

seal_fault :
    (enc auth plain : Bytes) (seq : ℕ) → 1012 < length plain → seal enc auth seq plain ≡ fault
unfolding seal
seal_fault enc auth plain seq h =
    let (ks, e, _, _) =
      keystream-Stream enc (build_nonce seq) (length plain) (length-build_nonce seq) in
    let over : 1024 < length (build_nonce seq ++ xor_bytes plain ks) = omega (
      arith,
      length-append (build_nonce seq) (xor_bytes plain ks),
      length-build_nonce seq,
      length-xor_bytes plain ks,
    ) in
    rw (e, (hmac_fault_iff auth (build_nonce seq ++ xor_bytes plain ks)).1 over) refl

-- `Encrypt` writes past a buffer on the stack exactly when the message has more than 1012 bytes.
pub encrypt_fault_iff :
    (ch : SecureChannel) (seq : ℕ) (plain : Bytes)
    → IsChannel ch
    → (encrypt ch seq plain ≡ fault) ↔ (1012 < length plain)
unfolding encrypt
encrypt_fault_iff ch seq plain v =
    let (enc, auth, e, _, _) = message_keys_total ch seq v in
    (
      λ f. ground (arith, e, seal_parts enc auth plain seq),
      λ h. rw e (seal_fault enc auth plain seq h),
    )

-- The bytes of an accepted input, under the keys of its sequence number.
pub record IsAuthentic (ch : SecureChannel) (input : Bytes) (seq : ℕ) (plain : Bytes) : Type 0 where
  pub enc : Bytes
  pub auth : Bytes
  pub keys : derive_per_message_keys ch seq ≡ done (enc, auth)
  pub numbered : from_le (take 8 input) ≡ seq
  pub sized : length input ≡ length plain + 44
  pub tagged : drop (12 + length plain) input ≡ hmac_digest auth (take (12 + length plain) input)

checked :
    (b : Bool) (enc nonce cipher plain : Bytes)
    → (if b
        then (do ks ← keystream enc nonce (length cipher); done (some (xor_bytes cipher ks)))
        else done none)
      ≡ done (some plain)
    → (b ≡ true) × (length cipher ≡ length plain)
checked false enc nonce cipher plain h = cc
checked true enc nonce cipher plain h =
    let (ks, e, r) = >>=-eq-done (keystream enc nonce (length cipher)) _ h in
    (refl, ground (arith, length-xor_bytes cipher ks))

hmac_value : (key bs tag : Bytes) → hmac_sha256 key bs ≡ done tag → hmac_digest key bs ≡ tag
unfolding hmac_sha256
hmac_value key bs tag h = ground arith

open_body_accepts :
    (enc auth nonce cipher tag plain : Bytes)
    → open_body enc auth nonce cipher tag ≡ done (some plain)
    → (length cipher ≡ length plain) × (hmac_digest auth (nonce ++ cipher) ≡ tag)
unfolding open_body
open_body_accepts enc auth nonce cipher tag plain h =
    let (calc, e, r) = >>=-eq-done (hmac_sha256 auth (nonce ++ cipher)) _ h in
    let (match', size) = checked (same calc tag) enc nonce cipher plain r in
    (size, hmac_value auth (nonce ++ cipher) calc e ∙ same→eq calc tag match')

pub open_input_accepts :
    (enc auth input plain : Bytes) (seq : ℕ)
    → 44 ≤ length input
    → open_input enc auth input seq ≡ done (some plain)
    → (from_le (take 8 input) ≡ seq)
      × (length input ≡ length plain + 44)
      × (drop (12 + length plain) input ≡ hmac_digest auth (take (12 + length plain) input))
unfolding open_input
open_input_accepts enc auth input plain seq long h =
    let cipher_len = length input - 12 - 32 in
    ground (
      arith,
      open_body_accepts enc auth (take 12 input) (take cipher_len (drop 12 input))
          (drop (12 + cipher_len) input) plain,
      take-take_le 8 12 input,
      take-add 12 cipher_len input,
      length-take cipher_len (drop 12 input),
      length-drop 12 input,
    )

-- An input that is accepted carries the expected number in its first eight bytes, has 44 bytes
-- more than the message, and ends in the tag of all that stands before under that number's key.
pub decrypt-IsAuthentic :
    (ch : SecureChannel) (seq : ℕ) (input plain : Bytes)
    → IsChannel ch
    → decrypt ch input seq ≡ done (some plain)
    → IsAuthentic ch input seq plain
unfolding decrypt
decrypt-IsAuthentic ch seq input plain v h =
    let (enc, auth, e, _, _) = message_keys_total ch seq v in
    let opened : (44 ≤ length input) × (open_input enc auth input seq ≡ done (some plain)) =
      ground (arith, e) in
    let (numbered, sized, tagged) = open_input_accepts enc auth input plain seq opened.0 opened.1 in
    record { enc = enc; auth = auth; keys = e; numbered = numbered; sized = sized; tagged = tagged }
