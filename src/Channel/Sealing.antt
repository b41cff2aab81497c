-- ===== src/Channel/Sealing.antt =====
-- secure_channel.cpp: `Decrypt` undoes `Encrypt`, for the same sequence number only.
use e2ee_windows.Common.{
  ℕ, ◌+◌, ◌≤◌, ◌≡◌, ◌≢◌, refl, ap, ◌∙◌, Bytes, All, IsByte, done, arith, none, some, ◌++◌, length,
  take, length-append, take-append, drop-append, append_assoc, replicate, if◌then◌else◌, same_refl,
  ◌==◌, ==_refl, le→ltb_false,
}
use e2ee_windows.Common.Word.{IsU64, to_le, from_le, length-to_le, from_le-to_le}
use e2ee_windows.Crypto.{hmac_digest}
use e2ee_windows.Crypto.Sizes.{hmac_fits, length-hmac_digest}
use e2ee_windows.Channel.{
  SecureChannel, build_nonce, keystream, xor_bytes, derive_per_message_keys, seal, encrypt,
  open_body, open_input, decrypt,
}
use e2ee_windows.Channel.Keys.{IsChannel, message_keys_total}
use e2ee_windows.Channel.Stream.{keystream-Stream, length-xor_bytes, xor_bytes_twice}

pub length-build_nonce : (seq : ℕ) → length (build_nonce seq) ≡ 12
unfolding build_nonce
length-build_nonce seq =
    omega (arith, length-append (to_le 8 seq) (replicate 4 0), length-to_le 8 seq)

-- The sequence number that the first eight bytes of a nonce stand for.
nonce_seq : (seq : ℕ) → IsU64 seq → from_le (take 8 (build_nonce seq)) ≡ seq
unfolding build_nonce
nonce_seq seq h =
    ap from_le (take-append 8 (to_le 8 seq) (replicate 4 0) (length-to_le 8 seq))
    ∙ from_le-to_le 8 seq (omega arith)

-- A sealed message in its parts.
module _ (nonce cipher tag : Bytes) (hn : length nonce ≡ 12) (ht : length tag ≡ 32) where
  length_parts : length (nonce ++ (cipher ++ tag)) ≡ 44 + length cipher
  length_parts = omega (arith, length-append nonce (cipher ++ tag), length-append cipher tag)

  open_input_parts :
      (enc auth : Bytes) (seq : ℕ)
      → open_input enc auth (nonce ++ (cipher ++ tag)) seq
        ≡ (if from_le (take 8 nonce) == seq then open_body enc auth nonce cipher tag else done none)
  unfolding open_input
  open_input_parts enc auth seq = ground (
    arith,
    length_parts,
    take-append 12 nonce (cipher ++ tag) hn,
    drop-append 12 nonce (cipher ++ tag) hn,
    take-append (length cipher) cipher tag refl,
    append_assoc nonce cipher tag,
    drop-append (12 + length cipher) (nonce ++ cipher) tag,
    length-append nonce cipher,
  )

  decrypt_parts :
      (ch : SecureChannel) (enc auth : Bytes) (seq : ℕ)
      → derive_per_message_keys ch seq ≡ done (enc, auth)
      → decrypt ch (nonce ++ (cipher ++ tag)) seq
        ≡ (if from_le (take 8 nonce) == seq then open_body enc auth nonce cipher tag else done none)
  unfolding decrypt
  decrypt_parts ch enc auth seq e =
      rw (le→ltb_false (length (nonce ++ (cipher ++ tag))) 44 (omega (arith, length_parts)), e)
        (open_input_parts enc auth seq)

-- What `seal` writes, with the key stream that it uses.
module _ (enc auth plain : Bytes) (seq : ℕ) (fits : length plain ≤ 1012) where
  abbrev pub tag_of : Bytes → Bytes
  tag_of ks = hmac_digest auth (build_nonce seq ++ xor_bytes plain ks)

  pub seal_parts :
      (ks : Bytes) × (keystream enc (build_nonce seq) (length plain) ≡ done ks)
      × All IsByte ks
      × (seal enc auth seq plain ≡ done (build_nonce seq ++ (xor_bytes plain ks ++ tag_of ks)))
  unfolding seal
  seal_parts =
      let (ks, e, size, b) =
        keystream-Stream enc (build_nonce seq) (length plain) (length-build_nonce seq) in
      let room : length (build_nonce seq ++ xor_bytes plain ks) ≤ 1024 = omega (
        arith,
        length-append (build_nonce seq) (xor_bytes plain ks),
        length-build_nonce seq,
        length-xor_bytes plain ks,
      ) in
      (
        ks,
        e,
        b,
        rw (e, hmac_fits auth (build_nonce seq ++ xor_bytes plain ks) room)
            (ap done (append_assoc (build_nonce seq) (xor_bytes plain ks) (tag_of ks))),
      )

open_body_sealed :
    (enc auth nonce plain ks : Bytes)
    → keystream enc nonce (length plain) ≡ done ks
    → length nonce ≡ 12
    → length plain ≤ 1012
    → All IsByte plain
    → All IsByte ks
    → (let cipher = xor_bytes plain ks in
        open_body enc auth nonce cipher (hmac_digest auth (nonce ++ cipher)) ≡ done (some plain))
unfolding open_body
open_body_sealed enc auth nonce plain ks e hn hp bp bk =
    let cipher = xor_bytes plain ks in
    rw
      (
        hmac_fits auth (nonce ++ cipher)
            (omega (arith, length-append nonce cipher, length-xor_bytes plain ks)),
        same_refl (hmac_digest auth (nonce ++ cipher)),
        length-xor_bytes plain ks,
        e,
        xor_bytes_twice plain ks bp bk,
      )
      refl

-- On a channel with keys of 32 bytes, `Encrypt` turns a message of at most 1012 bytes into 44 more
-- bytes, and `Decrypt` with the same sequence number gives the message back.
pub decrypt-encrypt :
    (ch : SecureChannel) (seq : ℕ) (plain : Bytes)
    → IsChannel ch
    → IsU64 seq
    → length plain ≤ 1012
    → All IsByte plain
    → (sealed : Bytes) × (encrypt ch seq plain ≡ done sealed)
      × (length sealed ≡ length plain + 44)
      × (decrypt ch sealed seq ≡ done (some plain))
unfolding encrypt
decrypt-encrypt ch seq plain v hs hp bp =
    let (enc, auth, e, _, _) = message_keys_total ch seq v in
    let (ks, ek, bk, es) = seal_parts enc auth plain seq hp in
    let cipher = xor_bytes plain ks in
    let tag = hmac_digest auth (build_nonce seq ++ cipher) in
    let ht = length-hmac_digest auth (build_nonce seq ++ cipher) in
    (
      build_nonce seq ++ (cipher ++ tag),
      rw e es,
      omega (
        arith,
        length_parts (build_nonce seq) cipher tag (length-build_nonce seq) ht,
        length-xor_bytes plain ks,
      ),
      decrypt_parts (build_nonce seq) cipher tag (length-build_nonce seq) ht ch enc auth seq e
          ∙ rw (nonce_seq seq hs, ==_refl seq)
              (open_body_sealed enc auth (build_nonce seq) plain ks ek (length-build_nonce seq) hp
                bp bk),
    )

-- A sealed message is refused under any other sequence number: it cannot be replayed or reordered.
pub decrypt-encrypt_ne :
    (ch : SecureChannel) (seq other : ℕ) (plain sealed : Bytes)
    → IsChannel ch
    → IsU64 seq
    → length plain ≤ 1012
    → encrypt ch seq plain ≡ done sealed
    → seq ≢ other
    → decrypt ch sealed other ≡ done none
unfolding encrypt
decrypt-encrypt_ne ch seq other plain sealed v hs hp made ne =
    let (enc, auth, e, _, _) = message_keys_total ch seq v in
    let (enc', auth', e', _, _) = message_keys_total ch other v in
    let (ks, ek, bk, es) = seal_parts enc auth plain seq hp in
    let cipher = xor_bytes plain ks in
    let tag = hmac_digest auth (build_nonce seq ++ cipher) in
    let shape : sealed ≡ build_nonce seq ++ (cipher ++ tag) = ground (arith, made, e, es) in
    rw shape (
      decrypt_parts (build_nonce seq) cipher tag (length-build_nonce seq)
        (length-hmac_digest auth _) ch enc' auth' other e'
      ∙ rw (nonce_seq seq hs) (ground arith))
