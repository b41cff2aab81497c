-- ===== src/Protocol/Fields.antt =====
-- protocol.cpp: the readers work at any offset as they work at the front of what follows it.
use native.Mathlib.Nat.{zero-add, suc-add}
use e2ee_windows.Common.{
  ℕ, ◌+◌, ◌≡◌, refl, Option, none, some, [], ◌∷◌, ◌++◌, arith, inl, inr, Option-cases, Bytes,
  length, drop, length-append,
}
use e2ee_windows.Protocol.{at, read_string, read_uint32, read_bytes}

pub at-append : (pre xs : Bytes) (i : ℕ) → at (pre ++ xs) (length pre + i) ≡ at xs i
at-append [] xs i = rw zero-add
at-append (x ∷ pre) xs i = rw suc-add (at-append pre xs i)

pub drop_prefix : (pre xs : Bytes) (i : ℕ) → drop (length pre + i) (pre ++ xs) ≡ drop i xs
drop_prefix [] xs i = rw zero-add
drop_prefix (x ∷ pre) xs i = rw suc-add (drop_prefix pre xs i)

-- A result at a later offset.
abbrev pub shift {ℓ} : {A : Type ℓ} → ℕ → Option (A × ℕ) → Option (A × ℕ)
shift n none = none
shift n (some (a, k)) = some (a, n + k)

module _ (pre xs : Bytes) where
  pub read_string-append :
      (i : ℕ) → read_string (pre ++ xs) (length pre + i) ≡ shift (length pre) (read_string xs i)
  unfolding read_string
  read_string-append i = ground (
    arith,
    length-append pre xs,
    at-append pre xs i,
    at-append pre xs (i + 1),
    drop_prefix pre xs (i + 2),
  )

  pub read_uint32-append :
      (i : ℕ) → read_uint32 (pre ++ xs) (length pre + i) ≡ shift (length pre) (read_uint32 xs i)
  unfolding read_uint32
  read_uint32-append i = ground (
    arith,
    length-append pre xs,
    at-append pre xs i,
    at-append pre xs (i + 1),
    at-append pre xs (i + 2),
    at-append pre xs (i + 3),
  )

  pub read_bytes-append :
      (i : ℕ) → read_bytes (pre ++ xs) (length pre + i) ≡ shift (length pre) (read_bytes xs i)
  unfolding read_bytes
  read_bytes-append i = elim (Option-cases (read_uint32 xs i)) [
    | inl e ↦ rw (read_bytes, read_uint32-append i, e) refl
    | inr ((len, k), e) ↦
        rw (read_bytes, read_uint32-append i, e)
          (ground (arith, length-append pre xs, drop_prefix pre xs k))
  ]
