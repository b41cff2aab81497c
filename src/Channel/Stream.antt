-- ===== src/Channel/Stream.antt =====
-- secure_channel.cpp: the key stream, and the exclusive or with it.
use e2ee_windows.Common.{
  ℕ, zero, suc, ◌+◌, ◌-◌, ◌%◌, ◌^◌, ◌≤◌, ◌<◌, ◌≡◌, refl, Bytes, All, IsByte, Run, done, Bool-cases,
  inl, inr, arith, [], ◌∷◌, ◌++◌, length, take, ltb, length-take, length-append, All-take,
  All-append, min, lt→ltb, ltb→lt, ltb_false→le, ap,
}
use e2ee_windows.Common.Bits.{xor_twice, xor-lt}
use e2ee_windows.Common.Word.{to_le, length-to_le}
use e2ee_windows.Crypto.{hmac_digest}
use e2ee_windows.Crypto.Sizes.{hmac_fits, length-hmac_digest, hmac_digest-IsByte}
use e2ee_windows.Channel.{keystream_loop, keystream, xor_bytes}

-- A result of `need` bytes.
abbrev pub Stream : ℕ → Run Bytes → Type 0
Stream need r = (ks : Bytes) × (r ≡ done ks) × (length ks ≡ need) × All IsByte ks

module _ (key nonce : Bytes) (need : ℕ) (size : length nonce ≡ 12) where
  loop_step :
      (fuel counter : ℕ) (out : Bytes)
      → length out < need
      → keystream_loop (suc fuel) key nonce need counter out
        ≡ keystream_loop fuel key nonce need
            ((counter + 1) % 2 ^ 32)
            (out ++ take (min 32 (need - length out)) (hmac_digest key (nonce ++ to_le 4 counter)))
  unfolding keystream_loop
  loop_step fuel counter out h =
      rw
        (
          lt→ltb (length out) need h,
          hmac_fits key (nonce ++ to_le 4 counter)
              (omega (arith, length-append nonce (to_le 4 counter), length-to_le 4 counter)),
        )
        refl

  keystream_loop-Stream :
      (fuel counter : ℕ) (out : Bytes)
      → length out ≤ need
      → need ≤ length out + fuel
      → All IsByte out
      → Stream need (keystream_loop fuel key nonce need counter out)
  keystream_loop-Stream zero counter out h f b =
      unfold keystream_loop in (out, refl, omega arith, b)
  keystream_loop-Stream (suc fuel) counter out h f b = elim (Bool-cases (ltb (length out) need)) [
    | inl more ↦
        let block = hmac_digest key (nonce ++ to_le 4 counter) in
        let next = out ++ take (min 32 (need - length out)) block in
        let grown : length next ≡ length out + min 32 (need - length out) = omega (
          arith,
          length-append out (take (min 32 (need - length out)) block),
          length-take (min 32 (need - length out)) block,
          length-hmac_digest key (nonce ++ to_le 4 counter),
        ) in
        let pos = ltb→lt (length out) need more in
        rw (loop_step fuel counter out pos) (
          keystream_loop-Stream fuel ((counter + 1) % 2 ^ 32) next (omega arith) (omega arith)
            (All-append IsByte out _ b (All-take IsByte _ block (hmac_digest-IsByte key _))))
    | inr over ↦
        unfold keystream_loop in
        (out, rw over, omega (arith, ltb_false→le (length out) need over), b)
  ]

  -- The loop ends by its test, with exactly the bytes that were asked for.
  pub keystream-Stream : Stream need (keystream key nonce need)
  unfolding keystream
  keystream-Stream = keystream_loop-Stream need 0 [] (omega arith) (omega arith) tt

pub length-xor_bytes : (a ks : Bytes) → length (xor_bytes a ks) ≡ length a
unfolding xor_bytes
length-xor_bytes [] ks = refl
length-xor_bytes (x ∷ a) [] = ap suc (length-xor_bytes a [])
length-xor_bytes (x ∷ a) (k ∷ ks) = ap suc (length-xor_bytes a ks)

pub xor_bytes-IsByte : (a ks : Bytes) → All IsByte a → All IsByte ks → All IsByte (xor_bytes a ks)
unfolding xor_bytes
xor_bytes-IsByte [] ks ha hk = tt
xor_bytes-IsByte (x ∷ a) [] ha hk = (xor-lt x 0 ha.0 (omega arith), xor_bytes-IsByte a [] ha.1 tt)
xor_bytes-IsByte (x ∷ a) (k ∷ ks) ha hk = (xor-lt x k ha.0 hk.0, xor_bytes-IsByte a ks ha.1 hk.1)

pub xor_bytes_twice :
    (a ks : Bytes) → All IsByte a → All IsByte ks → xor_bytes (xor_bytes a ks) ks ≡ a
unfolding xor_bytes
xor_bytes_twice [] ks ha hk = refl
xor_bytes_twice (x ∷ a) [] ha hk =
    cc (xor_twice x 0 ha.0 (omega arith), xor_bytes_twice a [] ha.1 tt)
xor_bytes_twice (x ∷ a) (k ∷ ks) ha hk =
    cc (xor_twice x k ha.0 hk.0, xor_bytes_twice a ks ha.1 hk.1)
