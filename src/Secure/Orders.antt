-- ===== src/Secure/Orders.antt =====
-- class ScrambledValue: the bytes come back in their places.
use e2ee_windows.Common.{ℕ, zero, suc, ◌<◌, ◌≡◌, refl, some, [], ◌∷◌, Bytes, length, arith}
use e2ee_windows.Common.Word.{to_le, from_le}
use e2ee_windows.Secure.Values.{permutations, gather, set_at, scatter, encrypt, decrypt, get}

-- The bytes of a value that has an order bank of its own: 1, 2, 4 or 8 of them.
pub data IsValue : ℕ → Bytes → Type 0 where
  one : (a : ℕ) → IsValue 1 (a ∷ [])
  two : (a b : ℕ) → IsValue 2 (a ∷ b ∷ [])
  four : (a b c d : ℕ) → IsValue 4 (a ∷ b ∷ c ∷ d ∷ [])
  eight : (a b c d e f g h : ℕ) → IsValue 8 (a ∷ b ∷ c ∷ d ∷ e ∷ f ∷ g ∷ h ∷ [])

decrypt-encrypt :
    (n : ℕ) (raw : Bytes) (index : ℕ)
    → IsValue n raw
    → index < length (permutations n)
    → decrypt n (encrypt n raw index) ≡ some raw
unfolding permutations encrypt decrypt gather scatter set_at to_le from_le
decrypt-encrypt n raw zero (one a) lt = refl
decrypt-encrypt n raw (suc i) (one a) lt = absurd (omega arith)
decrypt-encrypt n raw zero (two a b) lt = refl
decrypt-encrypt n raw (suc zero) (two a b) lt = refl
decrypt-encrypt n raw (suc (suc i)) (two a b) lt = absurd (omega arith)
decrypt-encrypt n raw zero (four a b c d) lt = refl
decrypt-encrypt n raw (suc zero) (four a b c d) lt = refl
decrypt-encrypt n raw (suc (suc zero)) (four a b c d) lt = refl
decrypt-encrypt n raw (suc (suc (suc i))) (four a b c d) lt = absurd (omega arith)
decrypt-encrypt n raw zero (eight a b c d e f g h) lt = refl
decrypt-encrypt n raw (suc zero) (eight a b c d e f g h) lt = refl
decrypt-encrypt n raw (suc (suc zero)) (eight a b c d e f g h) lt = refl
decrypt-encrypt n raw (suc (suc (suc i))) (eight a b c d e f g h) lt = absurd (omega arith)

-- A value of 1, 2, 4 or 8 bytes is got back as it was set, whichever orders the engine chooses, and
-- getting it leaves it there for the next time.
pub get-encrypt :
    (n : ℕ) (raw : Bytes) (index again later : ℕ)
    → IsValue n raw
    → index < length (permutations n)
    → again < length (permutations n)
    → (get n (encrypt n raw index) again ≡ some (encrypt n raw again, raw))
      × (get n (encrypt n raw again) later ≡ some (encrypt n raw later, raw))
unfolding get
get-encrypt n raw index again later v lt lt' = (
  rw (get, decrypt-encrypt n raw index v lt) refl,
  rw (get, decrypt-encrypt n raw again v lt') refl,
)
