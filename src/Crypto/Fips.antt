-- ===== src/Crypto/Fips.antt =====
-- crypto.cpp against FIPS 180-4: the padding, the constants and the digests of the standard.
use e2ee_windows.Common.{
  ℕ, zero, suc, ◌+◌, ◌*◌, ◌/◌, ◌%◌, ◌^◌, ◌≡◌, ◌==◌, refl, Bool, true, false, not, ◌&&◌, ◌||◌, List,
  [], ◌∷◌, Bytes, text, ltb, leb, length, if◌then◌else◌,
}
use e2ee_windows.Crypto.Sha.{Regs, init_state, round_constants, process_chunks, digest, sha256}
use e2ee_windows.Crypto.Padding.{padded, sha256-padded}

-- Whether none of 2 to `n + 1` divides `p`.
abbrev undivided : ℕ → ℕ → Bool
undivided zero p = true
undivided (suc n) p = let rest = undivided n p in not (p % (n + 2) == 0) && rest

-- The primes among `from` and the `n` numbers behind it.
abbrev primes_from : ℕ → ℕ → List ℕ
primes_from from zero = []
primes_from from (suc n) =
    let rest = primes_from (from + 1) n in if undivided (from / 2) from then from ∷ rest else rest

abbrev pub primes : List ℕ
primes = 2 ∷ 3 ∷ primes_from 4 308

-- `w` is the first 32 bits of the fractional part of the root of `p` of that degree, where the
-- integral part is below `n`: it is the only such number.
abbrev is_root_part : ℕ → ℕ → ℕ → ℕ → Bool
is_root_part zero degree p w = false
is_root_part (suc n) degree p w =
    let rest = is_root_part n degree p w in
    let x = n * 2 ^ 32 + w in
    let scaled = p * 2 ^ (32 * degree) in
    (leb (x ^ degree) scaled && ltb scaled ((x + 1) ^ degree)) || rest

-- The same of a list of words and of primes.
abbrev pub are_root_parts : ℕ → List ℕ → List ℕ → Bool
are_root_parts degree ps [] = true
are_root_parts degree [] (w ∷ ws) = false
are_root_parts degree (p ∷ ps) (w ∷ ws) =
    let rest = are_root_parts degree ps ws in ltb w (2 ^ 32) && is_root_part 8 degree p w && rest

abbrev pub words_of : Regs → List ℕ
words_of r = r.a ∷ r.b ∷ r.c ∷ r.d ∷ r.e ∷ r.f ∷ r.g ∷ r.h ∷ []

cube_roots : (length round_constants ≡ 64) × (are_root_parts 3 primes round_constants ≡ true)
unfolding round_constants
cube_roots = (refl, refl)

square_roots : are_root_parts 2 primes (words_of init_state) ≡ true
unfolding init_state
square_roots = refl

-- The digests of appendices B.1 and B.2 of FIPS 180-2: a message of one chunk, and one of two.
abbrev pub one_chunk : Bytes
one_chunk = text "abc"

abbrev pub one_digest : Bytes
one_digest =
    0xba ∷ 0x78 ∷ 0x16 ∷ 0xbf ∷ 0x8f ∷ 0x01 ∷ 0xcf ∷ 0xea ∷ 0x41 ∷ 0x41 ∷ 0x40 ∷ 0xde ∷ 0x5d ∷ 0xae
    ∷ 0x22 ∷ 0x23 ∷ 0xb0 ∷ 0x03 ∷ 0x61 ∷ 0xa3 ∷ 0x96 ∷ 0x17 ∷ 0x7a ∷ 0x9c ∷ 0xb4 ∷ 0x10 ∷ 0xff
    ∷ 0x61 ∷ 0xf2 ∷ 0x00 ∷ 0x15 ∷ 0xad ∷ []

abbrev pub two_chunks : Bytes
two_chunks = text "abcdbcdecdefdefgefghfghighijhijkijkljklmklmnlmnomnopnopq"

abbrev pub two_digest : Bytes
two_digest =
    0x24 ∷ 0x8d ∷ 0x6a ∷ 0x61 ∷ 0xd2 ∷ 0x06 ∷ 0x38 ∷ 0xb8 ∷ 0xe5 ∷ 0xc0 ∷ 0x26 ∷ 0x93 ∷ 0x0c ∷ 0x3e
    ∷ 0x60 ∷ 0x39 ∷ 0xa3 ∷ 0x3c ∷ 0xe4 ∷ 0x59 ∷ 0x64 ∷ 0xff ∷ 0x21 ∷ 0x67 ∷ 0xf6 ∷ 0xec ∷ 0xed
    ∷ 0xd4 ∷ 0x19 ∷ 0xdb ∷ 0x06 ∷ 0xc1 ∷ []

vectors : (sha256 one_chunk ≡ one_digest) × (sha256 two_chunks ≡ two_digest)
unfolding sha256
vectors = (refl, refl)

-- `Sha256` agrees with FIPS 180-4 as follows. The padded message fills whole chunks of 64 bytes,
-- and the result is what the code's compression of all of them, in order, makes of the initial
-- state. That state is the first 32 bits of the fractional parts of the square roots of the first
-- eight primes, and the constants of the 64 rounds are those of the cube roots of the first 64
-- primes. On the two messages of the appendix to the standard the digests are the published ones.
pub sha256-fips :
    (bs : Bytes)
    → (length (padded bs) % 64 ≡ 0)
      × (sha256 bs ≡ digest (process_chunks (length (padded bs) / 64) (padded bs) init_state))
      × (are_root_parts 2 primes (words_of init_state) ≡ true)
      × (length round_constants ≡ 64)
      × (are_root_parts 3 primes round_constants ≡ true)
      × (sha256 one_chunk ≡ one_digest)
      × (sha256 two_chunks ≡ two_digest)
sha256-fips bs =
    let (whole, folded) = sha256-padded bs in
    (whole, folded, square_roots, cube_roots.0, cube_roots.1, vectors.0, vectors.1)
