-- ===== src/Common/Dict.antt =====
-- `std::unordered_map` with string keys, as an association list with one entry for each key. Where
-- the program iterates over a map, nothing that it returns depends on the order of the entries.
use mathlib.Core.Path.{◌≡◌, refl}
use mathlib.Core.Bool.{Bool}
use mathlib.Core.List.{List, [], ◌∷◌}
use mathlib.Core.Option.{Option, none, some}
use native.Mathlib.Omega.{arith}
use e2ee_windows.Common.Tests.{if◌then◌else◌}
use e2ee_windows.Common.Text.{Bytes, same, same_iff, same_refl}

abbrev pub Dict {ℓ} : Type ℓ → Type ℓ
Dict V = List (Bytes × V)

module _ {ℓ} {V : Type ℓ} where
  unfoldable pub find : Bytes → Dict V → Option V
  find k [] = none
  find k ((j, v) ∷ m) = if same j k then some v else find k m

  -- `m.erase(k)`
  unfoldable pub erase : Bytes → Dict V → Dict V
  erase k [] = []
  erase k ((j, v) ∷ m) = let rest = erase k m in if same j k then rest else (j, v) ∷ rest

  -- `m[k] = v`
  unfoldable pub put : Bytes → V → Dict V → Dict V
  unfolding erase
  put k v m = (k, v) ∷ erase k m

  -- The loop that erases the entries whose value fails a test.
  unfoldable pub keep : (V → Bool) → Dict V → Dict V
  keep p [] = []
  keep p ((j, v) ∷ m) = let rest = keep p m in if p v then (j, v) ∷ rest else rest

  -- `m[k]` creates the value where the key is missing.
  abbrev pub or_default : V → Option V → V
  or_default d none = d
  or_default d (some v) = v

  pub find-erase :
      (k j : Bytes) (m : Dict V) → find j (erase k m) ≡ (if same k j then none else find j m)
  unfolding find erase
  find-erase k j [] = ground arith
  find-erase k j ((i, v) ∷ m) =
      ground (arith, find-erase k j m, same_iff i k, same_iff i j, same_iff k j)

  pub find-put :
      (k j : Bytes) (v : V) (m : Dict V)
      → find j (put k v m) ≡ (if same k j then some v else find j m)
  unfolding find put
  find-put k j v m = ground (arith, find-erase k j m)

  -- One entry for each key.
  abbrev pub IsUnique : Dict V → Type ℓ
  IsUnique [] = Unit
  IsUnique ((j, v) ∷ m) = (find j m ≡ none) × IsUnique m

  pub erase-IsUnique : (k : Bytes) (m : Dict V) → IsUnique m → IsUnique (erase k m)
  unfolding erase
  erase-IsUnique k [] h = h
  erase-IsUnique k ((j, v) ∷ m) h = ground (arith, find-erase k j m, erase-IsUnique k m h.1)

  pub find-keep_missing :
      (p : V → Bool) (k : Bytes) (m : Dict V) → find k m ≡ none → find k (keep p m) ≡ none
  unfolding find keep
  find-keep_missing p k [] h = refl
  find-keep_missing p k ((j, v) ∷ m) h = ground (arith, find-keep_missing p k m)

  abbrev pub filter : (V → Bool) → Option V → Option V
  filter p none = none
  filter p (some v) = if p v then some v else none

  pub find-keep :
      (p : V → Bool) (k : Bytes) (m : Dict V) → IsUnique m → find k (keep p m) ≡ filter p (find k m)
  unfolding find keep
  find-keep p k [] h = refl
  find-keep p k ((j, v) ∷ m) h =
      ground (arith, same_iff j k, find-keep p k m h.1, find-keep_missing p k m)

  pub keep-IsUnique : (p : V → Bool) (m : Dict V) → IsUnique m → IsUnique (keep p m)
  unfolding keep
  keep-IsUnique p [] h = h
  keep-IsUnique p ((j, v) ∷ m) h = ground (arith, find-keep_missing p j m, keep-IsUnique p m h.1)

  pub put-IsUnique : (k : Bytes) (v : V) (m : Dict V) → IsUnique m → IsUnique (put k v m)
  unfolding put
  put-IsUnique k v m h = (rw (find-erase k k m, same_refl k), erase-IsUnique k m h)
