-- ===== src/Runs/Secrets.antt =====
-- Runs of crypto.cpp, pake.cpp, secure_channel.cpp and secure_types.cpp.
use e2ee_windows.Secure.Values.{permutations}
use e2ee_windows.Secure.Handles.{IsSize, word_create, word_set, word_get, word_get-word_set}
use e2ee_windows.Common.{
  ◌++◌, ◌-◌, ◌==◌, leb, ◌||◌, if◌then◌else◌, ◌+◌, ◌/◌, ◌%◌, ◌<◌, ◌≡◌, ◌↔◌, refl, some, none, [],
  ◌∷◌, Bytes, length, take, true, false, arith, text, replicate, done, fault, ok,
}
use Prim.Native.Nat.{bit_xor}
use e2ee_windows.Storage.Wipe.{at}
use e2ee_windows.Secure.{Engine, key_byte, set, get}
use e2ee_windows.Secure.Positions.{at-get}
use e2ee_windows.Crypto.{hmac_sha256, hkdf_sha256, inner_room}
use e2ee_windows.Crypto.Sha.{sha256, digest, process_chunks, init_state, round_constants}
use e2ee_windows.Crypto.Sizes.{hmac_fault_iff}
use e2ee_windows.Crypto.Padding.{padded}
use e2ee_windows.Crypto.Fips.{
  primes, words_of, are_root_parts, one_chunk, one_digest, two_chunks, two_digest, sha256-fips,
}
use e2ee_windows.Crypto.Expand.{rfc_blocks, extract, hkdf_sha256-rfc}
use e2ee_windows.Pake.{DerivedKeys, derive_keys_from_credentials}
use e2ee_windows.Pake.Derive.{IsKeys, derive_keys_from_credentials-IsKeys}
use e2ee_windows.Channel.Reuse.{encrypt_same_stream}
use e2ee_windows.Channel.{build_nonce, xor_bytes, SecureChannel, encrypt, decrypt}
use e2ee_windows.Channel.Keys.{IsChannel}
use e2ee_windows.Channel.Sealing.{decrypt-encrypt}
use e2ee_windows.Channel.Accepts.{IsAuthentic, decrypt-IsAuthentic, encrypt_fault_iff}

abbrev word : Bytes
word = b'h' ∷ b'i' ∷ []

hmac_fault_iff_example : (hmac_sha256 word word ≡ fault) ↔ (inner_room < length word)
hmac_fault_iff_example = hmac_fault_iff word word

sha256-fips_example :
    (length (padded word) % 64 ≡ 0)
    × (sha256 word ≡ digest (process_chunks (length (padded word) / 64) (padded word) init_state))
    × (are_root_parts 2 primes (words_of init_state) ≡ true)
    × (length round_constants ≡ 64)
    × (are_root_parts 3 primes round_constants ≡ true)
    × (sha256 one_chunk ≡ one_digest)
    × (sha256 two_chunks ≡ two_digest)
sha256-fips_example = sha256-fips word

hkdf_sha256-rfc_example :
    hkdf_sha256 word [] word 40
    ≡ done (some (take 40 (rfc_blocks ((40 + 31) / 32) 1 (extract word []) word [])))
hkdf_sha256-rfc_example =
    hkdf_sha256-rfc word [] word 40 (omega arith) (omega arith) (omega arith) (omega arith)

derive_keys_from_credentials-IsKeys_example :
    (k : DerivedKeys) × (derive_keys_from_credentials (text "alice") (text "secret") ≡ done (ok k))
    × IsKeys k
derive_keys_from_credentials-IsKeys_example =
    derive_keys_from_credentials-IsKeys (text "alice") (text "secret") (omega arith) (omega arith)
      (omega arith)

-- A channel with three different keys.
abbrev channel : SecureChannel
channel = record {
  enc_key = replicate 32 1;
  auth_key = replicate 32 2;
  ratchet_root = replicate 32 3;
}

channel-IsChannel : IsChannel channel
channel-IsChannel = record {
  enc = (refl, omega arith);
  auth = (refl, omega arith);
  root = (refl, omega arith);
}

decrypt-encrypt_example :
    (sealed : Bytes) × (encrypt channel 5 word ≡ done sealed)
    × (length sealed ≡ 46)
    × (decrypt channel sealed 5 ≡ done (some word))
decrypt-encrypt_example =
    decrypt-encrypt channel 5 word channel-IsChannel (omega arith) (omega arith) (omega arith)

-- What the channel makes of the word.
made :
    (sealed : Bytes) × (encrypt channel 5 word ≡ done sealed)
    × (length sealed ≡ 46)
    × (decrypt channel sealed 5 ≡ done (some word))
made = decrypt-encrypt channel 5 word channel-IsChannel (omega arith) (omega arith) (omega arith)

decrypt-IsAuthentic_example : IsAuthentic channel made.0 5 word
decrypt-IsAuthentic_example = decrypt-IsAuthentic channel 5 made.0 word channel-IsChannel made.3

encrypt_fault_iff_example : (encrypt channel 5 word ≡ fault) ↔ (1012 < length word)
encrypt_fault_iff_example = encrypt_fault_iff channel 5 word channel-IsChannel

abbrev engine : Engine
engine = record { key = 0x04030201; order = 1 }

at-get_example : at (get (set word engine) engine).1 0 ≡ (
    if leb 2 1 || 1 % 2 == 0
    then b'h'
    else bit_xor (bit_xor b'h' (key_byte 0x04030201 0)) (key_byte 0x04030201 (2 - 1 - 0)))
at-get_example = at-get word engine engine 0 (omega arith) (omega arith) (omega arith)

-- Another message under the number of the first.
again :
    (sealed : Bytes) × (encrypt channel 5 (1 ∷ 2 ∷ []) ≡ done sealed)
    × (length sealed ≡ 46)
    × (decrypt channel sealed 5 ≡ done (some (1 ∷ 2 ∷ [])))
again =
    decrypt-encrypt channel 5 (1 ∷ 2 ∷ []) channel-IsChannel (omega arith) (omega arith)
      (omega arith)

encrypt_same_stream_example :
    (ks : Bytes) × (tag : Bytes) × (tag' : Bytes) × (made.0
      ≡ build_nonce 5 ++ (xor_bytes word ks ++ tag))
    × (again.0 ≡ build_nonce 5 ++ (xor_bytes (1 ∷ 2 ∷ []) ks ++ tag'))
encrypt_same_stream_example =
    encrypt_same_stream channel 5 word (1 ∷ 2 ∷ []) made.0 again.0 channel-IsChannel (omega arith)
      refl made.1 again.1

word_get-word_set_example :
    (word_get 4 (word_create 4 70000 2 true) 1 ≡ some (70000, word_create 4 70000 1 true))
    × (word_get 4 (word_set 4 (word_create 4 70000 2 true) 9 1) 0
        ≡ some (9, word_create 4 9 0 true))
    × (word_get 4 (word_set 4 (word_create 4 70000 2 false) 9 1) 0 ≡ some (0, none))
unfolding permutations
word_get-word_set_example =
    word_get-word_set 4 70000 9 2 1 0 IsSize.four (omega arith) (omega arith) (omega arith)
      (omega arith) (omega arith)
