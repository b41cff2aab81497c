-- ===== src/Auth/Password.antt =====
-- server/src/auth_provider.cpp: how the database backend compares a password with the stored string.
use e2ee_windows.Common.{
  ℕ, ◌≡◌, refl, ◌==◌, Bool, true, false, ◌||◌, none, some, [], ◌∷◌, ◌++◌, Bytes, All, same,
  same_refl, if◌then◌else◌,
}
use e2ee_windows.Crypto.Sha.{sha256}
use e2ee_windows.Session.{hex_string}
use e2ee_windows.Ini.{split_at}

unfoldable pub sha256_hex : Bytes → Bytes
sha256_hex bs = hex_string (sha256 bs)

unfoldable pub verify_password : Bytes → Bytes → Bool
verify_password input stored = if same stored input then true else elim (split_at b':' stored) [
  | some (salt, hash) ↦ same (sha256_hex (salt ++ input)) hash
  | none ↦ same stored (sha256_hex input)
]

-- A byte that is no colon.
abbrev pub IsPlain : ℕ → Type 0
IsPlain b = (b == b':') ≡ false

split_at-append :
    (salt hash : Bytes) → All IsPlain salt → split_at b':' (salt ++ b':' ∷ hash) ≡ some (salt, hash)
unfolding split_at
split_at-append [] hash h = refl
split_at-append (b ∷ salt) hash h = rw (split_at, h.0, split_at-append salt hash h.1) refl

if_or : (b c : Bool) → (if b then true else c) ≡ (b || c)
if_or true c = refl
if_or false c = refl

or_true : (b : Bool) → (if b then true else true) ≡ true
or_true true = refl
or_true false = refl

-- Against a stored salt and hash, an input is accepted if it hashes to the same with the salt, or if
-- it is the stored string itself: who reads the table can log in with what stands there.
pub verify_password_lem :
    (salt password input : Bytes)
    → All IsPlain salt
    → (let stored = salt ++ b':' ∷ sha256_hex (salt ++ password) in
        (verify_password password stored ≡ true)
        × (verify_password stored stored ≡ true)
        × (verify_password input stored ≡ (
            same stored input
            || same (sha256_hex (salt ++ input)) (sha256_hex (salt ++ password)))))
unfolding verify_password
verify_password_lem salt password input h =
    let e = split_at-append salt (sha256_hex (salt ++ password)) h in
    (
      rw (verify_password, e, same_refl (sha256_hex (salt ++ password))) (or_true _),
      rw (verify_password, same_refl (salt ++ b':' ∷ sha256_hex (salt ++ password))) refl,
      rw (verify_password, e)
          (if_or (same (salt ++ b':' ∷ sha256_hex (salt ++ password)) input)
            (same (sha256_hex (salt ++ input)) (sha256_hex (salt ++ password)))),
    )
