-- ===== src/Crypto/Padding.antt =====
-- crypto.cpp: `Sha256` hashes the chunks of its input in place and pads only the rest. The padded
-- message of FIPS 180-4, hashed chunk by chunk with the compression of the code, gives the same digest.
use native.Mathlib.Nat.{zero-add, suc-add}
use e2ee_windows.Common.{
  ℕ, zero, suc, ◌+◌, ◌-◌, ◌*◌, ◌/◌, ◌%◌, ◌^◌, ◌≡◌, ◌∙◌, refl, sym, ap, [], ◌∷◌, ◌++◌, Bytes, arith,
  length, take, drop, replicate, length-append, length-take, length-drop, length-replicate,
  take-append_le, drop-append_le, append_assoc, take-append-drop,
}
use e2ee_windows.Crypto.Sha.{
  Regs, init_state, process_chunk, process_chunks, be64, pad_len, tail_buffer, digest, sha256,
}

-- The padded message: 0x80, the zeros that fill the last chunk up to eight bytes, and the length in bits.
unfoldable pub zeros : ℕ → ℕ
zeros len = (64 + 55 - len % 64) % 64

unfoldable pub padded : Bytes → Bytes
padded bs = bs ++ (0x80 ∷ (replicate (zeros (length bs)) 0 ++ be64 (length bs * 8 % 2 ^ 64)))

-- The padded message fills whole chunks.
pub length-padded : (bs : Bytes) → length (padded bs) % 64 ≡ 0
unfolding padded zeros be64
length-padded bs = omega (
  arith,
  length-append bs (0x80 ∷ (replicate (zeros (length bs)) 0 ++ be64 (length bs * 8 % 2 ^ 64))),
  length-append (replicate (zeros (length bs)) 0) (be64 (length bs * 8 % 2 ^ 64)),
  length-replicate {A = ℕ} (zeros (length bs)) 0,
)

pad_len-zeros : (len r : ℕ) → r ≡ len % 64 → pad_len (r + 1) ≡ zeros len
unfolding pad_len zeros
pad_len-zeros len r h = ground arith

process_chunks_step :
    (n : ℕ) (bs : Bytes) (st : Regs)
    → process_chunks (suc n) bs st ≡ process_chunks n (drop 64 bs) (process_chunk (take 64 bs) st)
unfolding process_chunks
process_chunks_step n bs st = refl

process_chunks-add :
    (m n : ℕ) (bs rest : Bytes) (st : Regs)
    → length bs ≡ m * 64
    → process_chunks (m + n) (bs ++ rest) st ≡ process_chunks n rest (process_chunks m bs st)
process_chunks-add zero n [] rest st e = unfold process_chunks in rw zero-add
process_chunks-add zero n (b ∷ bs) rest st e = absurd (omega arith)
process_chunks-add (suc m) n bs rest st e = rw suc-add (
    cc (
      process_chunks_step (m + n) (bs ++ rest) st,
      process_chunks_step m bs st,
      take-append_le 64 bs rest (omega arith),
      drop-append_le 64 bs rest (omega arith),
      process_chunks-add m n (drop 64 bs) rest (process_chunk (take 64 bs) st)
          (omega (arith, length-drop 64 bs)),
    ))

-- The chunks that `Sha256` finds whole, and what is left of the data.
abbrev whole : Bytes → Bytes
whole bs = take (length bs / 64 * 64) bs

abbrev left : Bytes → Bytes
left bs = drop (length bs / 64 * 64) bs

padded-split : (bs : Bytes) → padded bs ≡ whole bs ++ tail_buffer (length bs) (left bs)
unfolding padded tail_buffer
padded-split bs =
    rw
      (pad_len-zeros (length bs) (length (left bs))
        (omega (arith, length-drop (length bs / 64 * 64) bs)))
      (ap (λ t. t ++ (0x80 ∷ (replicate (zeros (length bs)) 0 ++ be64 (length bs * 8 % 2 ^ 64))))
          (sym (take-append-drop (length bs / 64 * 64) bs))
        ∙ append_assoc (whole bs) (left bs) _)

length-whole : (bs : Bytes) → length (whole bs) ≡ length bs / 64 * 64
length-whole bs = omega (arith, length-take (length bs / 64 * 64) bs)

process_whole :
    (bs : Bytes) (st : Regs)
    → process_chunks (length bs / 64) bs st ≡ process_chunks (length bs / 64) (whole bs) st
process_whole bs st =
    let q = length bs / 64 in
    ap (λ (n : ℕ). process_chunks n bs st) {x = q} {y = q + 0} (omega arith)
    ∙ ap (λ t. process_chunks (q + 0) t st) (sym (take-append-drop (q * 64) bs))
    ∙ process_chunks-add q 0 (whole bs) (left bs) st (length-whole bs)
    ∙ (unfold process_chunks in refl)

sha256_lem :
    (bs : Bytes)
    → sha256 bs ≡ (
        let buffer = tail_buffer (length bs) (left bs) in
        digest (
          process_chunks
            (length buffer / 64)
            buffer
            (process_chunks (length bs / 64) bs init_state)))
unfolding sha256
sha256_lem bs = refl

process_padded :
    (bs : Bytes) (st : Regs)
    → (let buffer = tail_buffer (length bs) (left bs) in
        process_chunks (length buffer / 64) buffer (process_chunks (length bs / 64) bs st)
        ≡ process_chunks (length (padded bs) / 64) (padded bs) st)
process_padded bs st =
    let buffer = tail_buffer (length bs) (left bs) in
    ap (process_chunks (length buffer / 64) buffer) (process_whole bs st)
    ∙ sym (
        process_chunks-add (length bs / 64) (length buffer / 64) (whole bs) buffer st
          (length-whole bs))
    ∙ ap (λ (n : ℕ). process_chunks n (whole bs ++ buffer) st)
        (omega
          (arith, ap length (padded-split bs), length-append (whole bs) buffer, length-whole bs))
    ∙ ap (λ t. process_chunks (length (padded bs) / 64) t st) (sym (padded-split bs))

-- The padded message of FIPS 180-4 fills whole chunks of 64 bytes, and `Sha256` returns what the compression of all of them, in order, makes of the initial state.
pub sha256-padded :
    (bs : Bytes)
    → (length (padded bs) % 64 ≡ 0)
      × (sha256 bs ≡ digest (process_chunks (length (padded bs) / 64) (padded bs) init_state))
sha256-padded bs = (length-padded bs, sha256_lem bs ∙ ap digest (process_padded bs init_state))
