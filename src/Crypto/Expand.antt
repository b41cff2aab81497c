-- ===== src/Crypto/Expand.antt =====
-- crypto.cpp: `HkdfSha256` against the extract-and-expand scheme of RFC 5869.
use e2ee_windows.Common.{
  ℕ, zero, suc, ◌+◌, ◌-◌, ◌*◌, ◌/◌, ◌%◌, ◌≤◌, ◌<◌, ◌≡◌, ◌∙◌, refl, sym, min, ap, false, some, none,
  [], ◌∷◌, ◌++◌, Bytes, done, arith, length, take, is_empty, if◌then◌else◌, replicate,
  length-append, length-take, take-append_split, take_long, take_nil, is_empty_pos, IsByte, All,
  All-append, All-take, ◌⊎◌, append_assoc, append-nil, le→ltb_false,
}
use e2ee_windows.Crypto.Sizes.{length-hmac_digest, hmac_digest-IsByte, hmac_fits}
use e2ee_windows.Crypto.{
  hmac_digest, to_copy, round_input, hkdf_rounds, hkdf_expand, hkdf_sha256, expand_room,
}

-- T(i) | T(i + 1) | … : `n` blocks, where `prev` is T(i - 1), the empty string for i = 1.
unfoldable pub rfc_blocks : ℕ → ℕ → Bytes → Bytes → Bytes → Bytes
rfc_blocks zero i prk info prev = []
rfc_blocks (suc n) i prk info prev =
    let block = hmac_digest prk (prev ++ (info ++ (i % 256) ∷ [])) in
    block ++ rfc_blocks n (i + 1) prk info block

to_copy-take : (g len : ℕ) (t : Bytes) → length t ≡ 32 → take (to_copy g len) t ≡ take (len - g) t
unfolding to_copy
to_copy-take g len t e = ground (arith, take_long (len - g) t, take_long 32 t)

length_input :
    (out t info : Bytes) (i : ℕ)
    → length t ≡ 32
    → length (round_input out t info i) ≤ 33 + length info
unfolding round_input
length_input [] t info i e = omega (arith, length-append info ((i % 256) ∷ []))
length_input (x ∷ out) t info i e =
    omega (arith, length-append t (info ++ (i % 256) ∷ []), length-append info ((i % 256) ∷ []))

-- One round, where the input fits.
round_step :
    (n i len : ℕ) (prk info t out : Bytes)
    → length t ≡ 32
    → length info ≤ 991
    → hkdf_rounds (suc n) i prk info len t out ≡ (
        let next = hmac_digest prk (round_input out t info i) in
        hkdf_rounds n (i + 1) prk info len next (out ++ take (to_copy (length out) len) next))
unfolding hkdf_rounds
round_step n i len prk info t out e h = ground (
  arith,
  length_input out t info i e,
  hmac_fits prk (round_input out t info i),
  le→ltb_false expand_room (length (round_input out t info i)),
)

-- The key so far after one more round, which has 32 bytes in `next`.
module _ (len : ℕ) (out next : Bytes) (size : length next ≡ 32) (h : length out ≤ len) where
  length_longer :
      length (out ++ take (to_copy (length out) len) next) ≡ length out + min 32 (len - length out)
  length_longer =
      rw
        (
          length-append out (take (to_copy (length out) len) next),
          to_copy-take (length out) len next size,
        )
        (omega (arith, length-take (len - length out) next))

  longer-take :
      (rest : Bytes)
      → (out ++ take (to_copy (length out) len) next)
          ++ take (len - length (out ++ take (to_copy (length out) len) next)) rest
        ≡ out ++ take (len - length out) (next ++ rest)
  longer-take rest = ground (
    arith,
    length_longer,
    to_copy-take (length out) len next size,
    take-append_split (len - length out) next rest,
    append_assoc out (take (to_copy (length out) len) next)
        (take (len - length (out ++ take (to_copy (length out) len) next)) rest),
  )

  longer_pos : 0 < len → is_empty (out ++ take (to_copy (length out) len) next) ≡ false
  longer_pos pos = is_empty_pos _ (omega (arith, length_longer))

module _ (prk info : Bytes) (len : ℕ) (fits : length info ≤ 991) where
  rounds-rfc :
      (n i : ℕ) (t out : Bytes)
      → length t ≡ 32
      → 0 < len
      → length out ≤ len
      → hkdf_rounds n i prk info len t out
        ≡ done (
            out
            ++ take (len - length out) (rfc_blocks n i prk info (if is_empty out then [] else t)))
  unfolding rfc_blocks round_input
  rounds-rfc zero i t out e pos h =
      unfold hkdf_rounds in
      ap done (sym (ap (λ r. out ++ r) (take_nil (len - length out)) ∙ append-nil out))
  rounds-rfc (suc n) i t out e pos h =
      let next = hmac_digest prk (round_input out t info i) in
      let size = length-hmac_digest prk (round_input out t info i) in
      round_step n i len prk info t out e fits
      ∙ rounds-rfc n (i + 1) next (out ++ take (to_copy (length out) len) next) size pos
          (omega (arith, length_longer len out next size h))
      ∙ ap done (
          rw (longer_pos len out next size h pos)
            (longer-take len out next size h (rfc_blocks n (i + 1) prk info next) ∙ refl))

abbrev pub extract : Bytes → Bytes → Bytes
extract ikm salt = hmac_digest (if is_empty salt then replicate 32 0 else salt) ikm

-- For 1 to 8160 bytes of key, at most 1024 bytes of key material and at most 991 bytes of `info`,
-- `HkdfSha256` succeeds and returns the output of RFC 5869: the first bytes of T(1) | T(2) | …
-- under the pseudorandom key that is extracted with the salt, or with 32 zeros for no salt.
pub hkdf_sha256-rfc :
    (ikm salt info : Bytes) (len : ℕ)
    → 0 < len
    → len ≤ 255 * 32
    → length ikm ≤ 1024
    → length info ≤ 991
    → hkdf_sha256 ikm salt info len
      ≡ done (some (take len (rfc_blocks ((len + 31) / 32) 1 (extract ikm salt) info [])))
unfolding hkdf_sha256 hkdf_expand
hkdf_sha256-rfc ikm salt info len pos top k h = ground (
  arith,
  hmac_fits (if is_empty salt then replicate 32 0 else salt) ikm,
  rounds-rfc (extract ikm salt) info len h ((len + 32 - 1) / 32) 1 (replicate 32 0) [] refl pos,
)

-- No key and a key of more than 8160 bytes are refused.
pub hkdf_sha256_refuses :
    (ikm salt info : Bytes) (len : ℕ)
    → (len ≡ 0) ⊎ (255 * 32 < len)
    → length ikm ≤ 1024
    → hkdf_sha256 ikm salt info len ≡ done none
unfolding hkdf_sha256 hkdf_expand
hkdf_sha256_refuses ikm salt info len h k =
    ground (arith, hmac_fits (if is_empty salt then replicate 32 0 else salt) ikm)

pub length-rfc_blocks :
    (n i : ℕ) (prk info prev : Bytes) → length (rfc_blocks n i prk info prev) ≡ n * 32
unfolding rfc_blocks
length-rfc_blocks zero i prk info prev = refl
length-rfc_blocks (suc n) i prk info prev =
    let block = hmac_digest prk (prev ++ (info ++ (i % 256) ∷ [])) in
    omega (
      arith,
      length-append block (rfc_blocks n (i + 1) prk info block),
      length-hmac_digest prk (prev ++ (info ++ (i % 256) ∷ [])),
      length-rfc_blocks n (i + 1) prk info block,
    )

rfc_blocks-IsByte : (n i : ℕ) (prk info prev : Bytes) → All IsByte (rfc_blocks n i prk info prev)
unfolding rfc_blocks
rfc_blocks-IsByte zero i prk info prev = tt
rfc_blocks-IsByte (suc n) i prk info prev =
    let block = hmac_digest prk (prev ++ (info ++ (i % 256) ∷ [])) in
    All-append IsByte block _ (hmac_digest-IsByte prk _)
      (rfc_blocks-IsByte n (i + 1) prk info block)

-- The key that is returned has the length that was asked for, and consists of bytes.
pub hkdf_key :
    (ikm salt info : Bytes) (len : ℕ)
    → 0 < len
    → len ≤ 255 * 32
    → length ikm ≤ 1024
    → length info ≤ 991
    → (key : Bytes) × (hkdf_sha256 ikm salt info len ≡ done (some key))
      × (length key ≡ len)
      × All IsByte key
hkdf_key ikm salt info len pos top k h =
    let blocks = rfc_blocks ((len + 31) / 32) 1 (extract ikm salt) info [] in
    (
      take len blocks,
      hkdf_sha256-rfc ikm salt info len pos top k h,
      omega (
        arith,
        length-take len blocks,
        length-rfc_blocks ((len + 31) / 32) 1 (extract ikm salt) info [],
      ),
      All-take IsByte len blocks (rfc_blocks-IsByte ((len + 31) / 32) 1 (extract ikm salt) info []),
    )
