-- ===== src/Channel/Reuse.antt =====
-- secure_channel.cpp: the direction of a message is not part of what its key stream is made from.
use e2ee_windows.Common.{ℕ, ◌≤◌, ◌≡◌, sym, ap, ◌∙◌, ◌++◌, Bytes, done, length, arith}
use e2ee_windows.Crypto.{hmac_digest}
use e2ee_windows.Channel.{SecureChannel, build_nonce, keystream, xor_bytes, encrypt}
use e2ee_windows.Channel.Keys.{IsChannel, message_keys_total}
use e2ee_windows.Channel.Sealing.{seal_parts}

-- Two messages of the same length that are sealed in one channel under the same number, whichever
-- side sends them, are masked with the same key stream. The messages have at most 1012 bytes.
pub encrypt_same_stream :
    (ch : SecureChannel) (seq : ℕ) (one two x y : Bytes)
    → IsChannel ch
    → length one ≤ 1012
    → length one ≡ length two
    → encrypt ch seq one ≡ done x
    → encrypt ch seq two ≡ done y
    → (ks : Bytes) × (tag : Bytes) × (tag' : Bytes) × (x
        ≡ build_nonce seq ++ (xor_bytes one ks ++ tag))
      × (y ≡ build_nonce seq ++ (xor_bytes two ks ++ tag'))
unfolding encrypt
encrypt_same_stream ch seq one two x y v h same_length ex ey =
    let (enc, auth, e, _, _) = message_keys_total ch seq v in
    let (ks, ek, _, es) = seal_parts enc auth one seq h in
    let (ks', ek', _, es') = seal_parts enc auth two seq (omega (arith, same_length)) in
    let same_stream : done ks' ≡ done ks =
      sym ek'
      ∙ ap (λ (n : ℕ). keystream enc (build_nonce seq) n) {x = length two} {y = length one}
          (sym same_length)
      ∙ ek in
    let stream : ks' ≡ ks = cc in
    (
      ks,
      hmac_digest auth (build_nonce seq ++ xor_bytes one ks),
      hmac_digest auth (build_nonce seq ++ xor_bytes two ks'),
      ground (arith, ex, e, es),
      ground (arith, ey, e, es', stream),
    )
