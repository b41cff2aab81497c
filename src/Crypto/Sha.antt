-- ===== src/Crypto/Sha.antt =====
-- server/src/crypto.cpp: the compression function of SHA-256 on 32-bit words, and `Sha256`.
use Prim.Native.Nat.{bit_and, bit_or, bit_xor}
use e2ee_windows.Common.{
  ℕ, zero, suc, ◌+◌, ◌-◌, ◌*◌, ◌/◌, ◌%◌, ◌^◌, List, [], ◌∷◌, ◌++◌, Bytes, ltb, if◌then◌else◌,
  length, take, drop, get_or, replicate,
}

abbrev pub u32_mod : ℕ
u32_mod = 2 ^ 32

-- `state`, and the working variables a to h.
pub record Regs : Type 0 where
  pub a : ℕ
  pub b : ℕ
  pub c : ℕ
  pub d : ℕ
  pub e : ℕ
  pub f : ℕ
  pub g : ℕ
  pub h : ℕ

unfoldable pub init_state : Regs
init_state = record {
  a = 0x6a09e667;
  b = 0xbb67ae85;
  c = 0x3c6ef372;
  d = 0xa54ff53a;
  e = 0x510e527f;
  f = 0x9b05688c;
  g = 0x1f83d9ab;
  h = 0x5be0cd19;
}

unfoldable pub round_constants : List ℕ
round_constants =
    0x428a2f98 ∷ 0x71374491 ∷ 0xb5c0fbcf ∷ 0xe9b5dba5 ∷ 0x3956c25b ∷ 0x59f111f1 ∷ 0x923f82a4
    ∷ 0xab1c5ed5 ∷ 0xd807aa98 ∷ 0x12835b01 ∷ 0x243185be ∷ 0x550c7dc3 ∷ 0x72be5d74 ∷ 0x80deb1fe
    ∷ 0x9bdc06a7 ∷ 0xc19bf174 ∷ 0xe49b69c1 ∷ 0xefbe4786 ∷ 0x0fc19dc6 ∷ 0x240ca1cc ∷ 0x2de92c6f
    ∷ 0x4a7484aa ∷ 0x5cb0a9dc ∷ 0x76f988da ∷ 0x983e5152 ∷ 0xa831c66d ∷ 0xb00327c8 ∷ 0xbf597fc7
    ∷ 0xc6e00bf3 ∷ 0xd5a79147 ∷ 0x06ca6351 ∷ 0x14292967 ∷ 0x27b70a85 ∷ 0x2e1b2138 ∷ 0x4d2c6dfc
    ∷ 0x53380d13 ∷ 0x650a7354 ∷ 0x766a0abb ∷ 0x81c2c92e ∷ 0x92722c85 ∷ 0xa2bfe8a1 ∷ 0xa81a664b
    ∷ 0xc24b8b70 ∷ 0xc76c51a3 ∷ 0xd192e819 ∷ 0xd6990624 ∷ 0xf40e3585 ∷ 0x106aa070 ∷ 0x19a4c116
    ∷ 0x1e376c08 ∷ 0x2748774c ∷ 0x34b0bcb5 ∷ 0x391c0cb3 ∷ 0x4ed8aa4a ∷ 0x5b9cca4f ∷ 0x682e6ff3
    ∷ 0x748f82ee ∷ 0x78a5636f ∷ 0x84c87814 ∷ 0x8cc70208 ∷ 0x90befffa ∷ 0xa4506ceb ∷ 0xbef9a3f7
    ∷ 0xc67178f2 ∷ []

unfoldable pub rot_r : ℕ → ℕ → ℕ
rot_r x n = bit_or (x / 2 ^ n) (x * 2 ^ (32 - n) % u32_mod)

-- `~x` of a 32-bit word
abbrev pub not32 : ℕ → ℕ
not32 x = u32_mod - 1 - x

unfoldable pub ch : ℕ → ℕ → ℕ → ℕ
ch x y z = bit_xor (bit_and x y) (bit_and (not32 x) z)

unfoldable pub maj : ℕ → ℕ → ℕ → ℕ
maj x y z = bit_xor (bit_xor (bit_and x y) (bit_and x z)) (bit_and y z)

unfoldable pub sig0 : ℕ → ℕ
unfolding rot_r
sig0 x = bit_xor (bit_xor (rot_r x 2) (rot_r x 13)) (rot_r x 22)

unfoldable pub sig1 : ℕ → ℕ
unfolding rot_r
sig1 x = bit_xor (bit_xor (rot_r x 6) (rot_r x 11)) (rot_r x 25)

unfoldable pub theta0 : ℕ → ℕ
unfolding rot_r
theta0 x = bit_xor (bit_xor (rot_r x 7) (rot_r x 18)) (x / 2 ^ 3)

unfoldable pub theta1 : ℕ → ℕ
unfolding rot_r
theta1 x = bit_xor (bit_xor (rot_r x 17) (rot_r x 19)) (x / 2 ^ 10)

abbrev pub at : List ℕ → ℕ → ℕ
at xs i = get_or xs i 0

-- The first `n` big-endian words of a chunk.
unfoldable pub be_words : ℕ → Bytes → List ℕ
be_words zero bs = []
be_words (suc n) bs =
    (at bs 0 * 2 ^ 24 + at bs 1 * 2 ^ 16 + at bs 2 * 2 ^ 8 + at bs 3) ∷ be_words n (drop 4 bs)

-- The loop that fills w[16] to w[63]; `i` is the length of what is filled.
unfoldable pub schedule : ℕ → List ℕ → List ℕ
unfolding theta0 theta1
schedule zero w = w
schedule (suc n) w =
    let i = length w in
    let next =
      (theta1 (at w (i - 2)) + at w (i - 7) + theta0 (at w (i - 15)) + at w (i - 16)) % u32_mod in
    schedule n (w ++ next ∷ [])

unfoldable pub round : ℕ → ℕ → Regs → Regs
unfolding ch maj sig0 sig1
round k w r =
    let t1 = (r.h + sig1 r.e + ch r.e r.f r.g + k + w) % u32_mod in
    let t2 = (sig0 r.a + maj r.a r.b r.c) % u32_mod in
    record {
      a = (t1 + t2) % u32_mod;
      b = r.a;
      c = r.b;
      d = r.c;
      e = (r.d + t1) % u32_mod;
      f = r.e;
      g = r.f;
      h = r.g;
    }

unfoldable pub rounds : List ℕ → List ℕ → Regs → Regs
unfolding round
rounds [] w r = r
rounds (k ∷ ks) [] r = r
rounds (k ∷ ks) (w ∷ ws) r = rounds ks ws (round k w r)

-- The words of `x` and `y` added, each by itself.
unfoldable pub add_regs : Regs → Regs → Regs
add_regs x y = record {
  a = (x.a + y.a) % u32_mod;
  b = (x.b + y.b) % u32_mod;
  c = (x.c + y.c) % u32_mod;
  d = (x.d + y.d) % u32_mod;
  e = (x.e + y.e) % u32_mod;
  f = (x.f + y.f) % u32_mod;
  g = (x.g + y.g) % u32_mod;
  h = (x.h + y.h) % u32_mod;
}

unfoldable pub process_chunk : Bytes → Regs → Regs
unfolding be_words schedule rounds add_regs round_constants
process_chunk chunk state =
    add_regs state (rounds round_constants (schedule 48 (be_words 16 chunk)) state)

-- The loops of `Sha256` over `n` chunks of 64 bytes.
unfoldable pub process_chunks : ℕ → Bytes → Regs → Regs
process_chunks zero bs state = state
process_chunks (suc n) bs state = process_chunks n (drop 64 bs) (process_chunk (take 64 bs) state)

abbrev pub be32 : ℕ → Bytes
be32 v = (v / 2 ^ 24 % 256) ∷ (v / 2 ^ 16 % 256) ∷ (v / 2 ^ 8 % 256) ∷ (v % 256) ∷ []

unfoldable pub be64 : ℕ → Bytes
be64 v = (v / 2 ^ 56 % 256) ∷ (v / 2 ^ 48 % 256) ∷ (v / 2 ^ 40 % 256) ∷ (v / 2 ^ 32 % 256) ∷ be32 v

unfoldable pub digest : Regs → Bytes
digest r =
    be32 r.a
    ++ (be32 r.b ++ (be32 r.c ++ (be32 r.d ++ (be32 r.e ++ (be32 r.f ++ (be32 r.g ++ be32 r.h))))))

-- `pad_len`, for `total` bytes of the last chunk and its 0x80.
unfoldable pub pad_len : ℕ → ℕ
pad_len total = if ltb 56 total then 120 - total else 56 - total

-- The part of `buffer` that is hashed: the rest of the data, 0x80, zeros and the length in bits.
unfoldable pub tail_buffer : ℕ → Bytes → Bytes
tail_buffer len rem =
    rem ++ (0x80 ∷ (replicate (pad_len (length rem + 1)) 0 ++ be64 (len * 8 % 2 ^ 64)))

unfoldable pub sha256 : Bytes → Bytes
unfolding tail_buffer be64 pad_len init_state digest process_chunks process_chunk
sha256 bs =
    let full_chunks = length bs / 64 in
    let state = process_chunks full_chunks bs init_state in
    let buffer = tail_buffer (length bs) (drop (full_chunks * 64) bs) in
    digest (process_chunks (length buffer / 64) buffer state)
