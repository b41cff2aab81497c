-- ===== src/Secure/Values.antt =====
-- shard/secure_types.h, class ScrambledValue: the bytes of a value in one of a few orders. What the
-- random engine draws, the index of the order, is an argument.
use e2ee_windows.Common.{
  ℕ, zero, suc, ◌+◌, ◌==◌, Option, none, some, List, [], ◌∷◌, ◌++◌, Bytes, if◌then◌else◌, length,
  take, drop, get_or, replicate, ltb,
}
use e2ee_windows.Common.Word.{to_le, from_le}

-- `identity()` and `reversed()`
unfoldable pub ascending : ℕ → ℕ → List ℕ
ascending from zero = []
ascending from (suc n) = from ∷ ascending (from + 1) n

unfoldable pub descending : ℕ → List ℕ
descending zero = []
descending (suc n) = n ∷ descending n

-- `PermutationBank<N>::list()`
unfoldable pub permutations : ℕ → List (List ℕ)
permutations n =
    if n == 1
    then (0 ∷ []) ∷ []
    else if n == 2
    then (0 ∷ 1 ∷ []) ∷ (1 ∷ 0 ∷ []) ∷ []
    else if n == 4
    then (0 ∷ 1 ∷ 2 ∷ 3 ∷ []) ∷ (3 ∷ 2 ∷ 1 ∷ 0 ∷ []) ∷ (1 ∷ 3 ∷ 0 ∷ 2 ∷ []) ∷ []
    else if n == 8
    then (0 ∷ 7 ∷ 3 ∷ 4 ∷ 6 ∷ 2 ∷ 1 ∷ 5 ∷ [])
      ∷ (5 ∷ 0 ∷ 7 ∷ 2 ∷ 4 ∷ 1 ∷ 3 ∷ 6 ∷ [])
      ∷ (3 ∷ 6 ∷ 1 ∷ 7 ∷ 0 ∷ 5 ∷ 2 ∷ 4 ∷ [])
      ∷ []
    else ascending 0 n ∷ descending n ∷ []

-- `buffer_[i] = raw[selected[i]]`
unfoldable pub gather : Bytes → List ℕ → Bytes
gather raw [] = []
gather raw (s ∷ selected) = get_or raw s 0 ∷ gather raw selected

-- `raw[i] = v`
unfoldable pub set_at : ℕ → ℕ → Bytes → Bytes
set_at i v [] = []
set_at zero v (b ∷ bs) = v ∷ bs
set_at (suc i) v (b ∷ bs) = b ∷ set_at i v bs

-- `raw[selected[i]] = buffer_[i]`
unfoldable pub scatter : List ℕ → Bytes → Bytes → Bytes
scatter [] buffer raw = raw
scatter (s ∷ selected) [] raw = raw
scatter (s ∷ selected) (b ∷ buffer) raw = scatter selected buffer (set_at s b raw)

-- The buffer of a value of `n` bytes.
unfoldable pub encrypt : ℕ → Bytes → ℕ → Bytes
encrypt n raw index = gather raw (get_or (permutations n) index []) ++ to_le 4 index

-- `none` stands for the exception.
unfoldable pub decrypt : ℕ → Bytes → Option Bytes
decrypt n buffer =
    let index = from_le (take 4 (drop n buffer)) in
    if ltb index (length (permutations n))
    then some (scatter (get_or (permutations n) index []) (take n buffer) (replicate n 0))
    else none

-- The value, and the buffer in which `get` leaves it.
unfoldable pub get : ℕ → Bytes → ℕ → Option (Bytes × Bytes)
get n buffer index = elim (decrypt n buffer) [
  | none ↦ none
  | some raw ↦ some (encrypt n raw index, raw)
]
