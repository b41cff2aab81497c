-- ===== src/Storage/Cipher.antt =====
-- class OfflineStorage, `Encrypt` and `Decrypt`: the same loop of exclusive or, and a tag.
use e2ee_windows.Common.{
  ℕ, zero, suc, ◌+◌, ◌≤◌, ◌<◌, ◌≡◌, refl, sym, ap, ◌∙◌, Bytes, All, IsByte, done, fault, arith,
  Bool-cases, some, inl, inr, [], ◌∷◌, ◌++◌, length, take, drop, length-take, length-drop,
  length-append, append_assoc, append-nil, take-append-drop, All-take, All-drop, All-append,
  drop_long, cut_full, leb, leb→le, leb_false→le, ◌⊎◌, same_refl,
}
use e2ee_windows.Crypto.{hmac_digest}
use e2ee_windows.Crypto.Sha.{be64}
use e2ee_windows.Crypto.Sizes.{hmac_fits, hmac_digest-IsByte, hmac_fault_iff}
use e2ee_windows.Channel.{xor_bytes}
use e2ee_windows.Channel.Stream.{length-xor_bytes, xor_bytes_twice, xor_bytes-IsByte}
use e2ee_windows.Storage.{derive_block, crypt_loop, encrypt, decrypt}

module _ (key nonce : Bytes) where
  abbrev block : ℕ → Bytes
  block counter = hmac_digest key (nonce ++ be64 counter)

  -- What the loop appends in `n` rounds.
  pub crypt : ℕ → ℕ → Bytes → Bytes
  crypt zero counter rest = []
  crypt (suc n) counter rest =
      xor_bytes (take 32 rest) (block counter) ++ crypt n (counter + 1) (drop 32 rest)

  crypt_empty : (n counter : ℕ) → crypt n counter [] ≡ []
  unfolding crypt xor_bytes
  crypt_empty zero counter = refl
  crypt_empty (suc n) counter = crypt_empty n (counter + 1)

  length-crypt :
      (n counter : ℕ) (rest : Bytes) → length rest ≤ n → length (crypt n counter rest) ≡ length rest
  unfolding crypt
  length-crypt zero counter [] h = refl
  length-crypt zero counter (b ∷ rest) h = absurd (omega arith)
  length-crypt (suc n) counter rest h = omega (
    arith,
    length-append (xor_bytes (take 32 rest) (block counter)) (crypt n (counter + 1) (drop 32 rest)),
    length-xor_bytes (take 32 rest) (block counter),
    length-take 32 rest,
    length-drop 32 rest,
    length-crypt n (counter + 1) (drop 32 rest) (omega (arith, length-drop 32 rest)),
  )

  crypt-IsByte :
      (n counter : ℕ) (rest : Bytes) → All IsByte rest → All IsByte (crypt n counter rest)
  unfolding crypt
  crypt-IsByte zero counter rest b = tt
  crypt-IsByte (suc n) counter rest b =
      All-append IsByte _ _
        (xor_bytes-IsByte (take 32 rest) (block counter) (All-take IsByte 32 rest b)
          (hmac_digest-IsByte key _))
        (crypt-IsByte n (counter + 1) (drop 32 rest) (All-drop IsByte 32 rest b))

  parts :
      (n counter : ℕ) (rest : Bytes)
      → length rest ≤ suc n
      → (length (xor_bytes (take 32 rest) (block counter)) ≡ 32)
        ⊎ ((length (xor_bytes (take 32 rest) (block counter)) ≤ 32)
            × (crypt n (counter + 1) (drop 32 rest) ≡ []))
  parts n counter rest h = elim (Bool-cases (leb 32 (length rest))) [
    | inl long ↦ inl (
        omega (
          arith,
          leb→le 32 (length rest) long,
          length-xor_bytes (take 32 rest) (block counter),
          length-take 32 rest,
        ))
    | inr short ↦
        let le = leb_false→le 32 (length rest) short in
        inr (
          omega (arith, length-xor_bytes (take 32 rest) (block counter), length-take 32 rest),
          rw (drop_long 32 rest le) (crypt_empty n (counter + 1)),
        )
  ]

  -- The stream at a cut of 32 bytes, or at the end of the data.
  crypt_twice :
      (n counter : ℕ) (rest : Bytes)
      → length rest ≤ n
      → All IsByte rest
      → crypt n counter (crypt n counter rest) ≡ rest
  unfolding crypt
  crypt_twice zero counter [] h b = refl
  crypt_twice zero counter (x ∷ rest) h b = absurd (omega arith)
  crypt_twice (suc n) counter rest h b =
      let head = xor_bytes (take 32 rest) (block counter) in
      let tail = crypt n (counter + 1) (drop 32 rest) in
      let (first, second) = cut_full 32 head tail (parts n counter rest h) in
      rw
        (
          first,
          second,
          xor_bytes_twice (take 32 rest) (block counter) (All-take IsByte 32 rest b)
              (hmac_digest-IsByte key (nonce ++ be64 counter)),
          crypt_twice n (counter + 1) (drop 32 rest) (omega (arith, length-drop 32 rest))
              (All-drop IsByte 32 rest b),
        )
        (take-append-drop 32 rest)

  module _ (size : length nonce ≡ 16) where
    crypt_loop-crypt :
        (fuel counter : ℕ) (rest out : Bytes)
        → crypt_loop fuel key nonce counter rest out ≡ done (out ++ crypt fuel counter rest)
    unfolding crypt_loop crypt derive_block xor_bytes be64
    crypt_loop-crypt zero counter rest out = ap done (sym (append-nil out))
    crypt_loop-crypt (suc fuel) counter [] out =
        ap done (sym (ap (λ t. out ++ t) (crypt_empty fuel (counter + 1)) ∙ append-nil out))
    crypt_loop-crypt (suc fuel) counter (b ∷ rest) out =
        rw
          (hmac_fits key (nonce ++ be64 counter)
            (omega (arith, length-append nonce (be64 counter))))
          (crypt_loop-crypt fuel (counter + 1) (drop 32 (b ∷ rest))
              (out ++ xor_bytes (take 32 (b ∷ rest)) (block counter))
            ∙ ap done (append_assoc out _ _))

-- The cipher text.
abbrev pub body : Bytes → Bytes → Bytes → Bytes
body plain key nonce = crypt key nonce (length plain) 0 plain

module _ (plain key nonce : Bytes) (size : length nonce ≡ 16) where
  pub length-body : length (body plain key nonce) ≡ length plain
  length-body = length-crypt key nonce (length plain) 0 plain (omega arith)

  loop_body : crypt_loop (length plain) key nonce 0 plain [] ≡ done (body plain key nonce)
  loop_body = crypt_loop-crypt key nonce size (length plain) 0 plain []

  pub encrypt_lem :
      length plain ≤ 1008
      → encrypt plain key nonce
        ≡ done (body plain key nonce, hmac_digest key (nonce ++ body plain key nonce))
  unfolding encrypt
  encrypt_lem h =
      rw
        (
          loop_body,
          hmac_fits key (nonce ++ body plain key nonce)
              (omega (arith, length-append nonce (body plain key nonce), length-body)),
        )
        refl

  -- The tag is computed over the nonce and the cipher text in a buffer of 1024 bytes.
  pub encrypt_fault : 1008 < length plain → encrypt plain key nonce ≡ fault
  unfolding encrypt
  encrypt_fault h =
      rw
        (
          loop_body,
          (hmac_fault_iff key (nonce ++ body plain key nonce)).1
              (omega (arith, length-append nonce (body plain key nonce), length-body)),
        )
        refl

  pub decrypt_lem :
      length plain ≤ 1008
      → All IsByte plain
      → decrypt (body plain key nonce) key nonce (hmac_digest key (nonce ++ body plain key nonce))
        ≡ done (some plain)
  unfolding decrypt
  decrypt_lem h b =
      rw
        (
          hmac_fits key (nonce ++ body plain key nonce)
              (omega (arith, length-append nonce (body plain key nonce), length-body)),
          same_refl (hmac_digest key (nonce ++ body plain key nonce)),
          crypt_loop-crypt key nonce size (length (body plain key nonce)) 0 (body plain key nonce)
              [],
          length-body,
          crypt_twice key nonce (length plain) 0 plain (omega arith) b,
        )
        refl
