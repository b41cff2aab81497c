-- ===== src/Pake/Derive.antt =====
-- pake.cpp: derivation succeeds on every pair of credentials that the HMAC has room for.
use e2ee_windows.Common.{
  ℕ, ◌+◌, ◌≤◌, ◌<◌, ◌≡◌, Bytes, All, IsByte, text, done, ok, arith, length, take, drop, length-take,
  length-drop, All-take, All-drop, is_empty_pos, length-append, ◌++◌,
}
use e2ee_windows.Crypto.Expand.{hkdf_key}
use e2ee_windows.Pake.{
  DerivedKeys, pake_salt, pake_info, split_keys, derived, derive_keys_from_pake,
  derive_keys_from_credentials,
}

abbrev pub IsKey : Bytes → Type 0
IsKey k = (length k ≡ 32) × All IsByte k

pub record IsKeys (k : DerivedKeys) : Type 0 where
  pub root : IsKey k.root_key
  pub header : IsKey k.header_key
  pub kcp : IsKey k.kcp_key
  pub ratchet : IsKey k.ratchet_root

part-IsKey :
    (buf : Bytes) (off : ℕ)
    → off + 32 ≤ length buf
    → All IsByte buf
    → IsKey (take 32 (drop off buf))
part-IsKey buf off h b = (
  omega (arith, length-take 32 (drop off buf), length-drop off buf),
  All-take IsByte 32 (drop off buf) (All-drop IsByte off buf b),
)

split_keys-IsKeys : (buf : Bytes) → length buf ≡ 128 → All IsByte buf → IsKeys (split_keys buf)
unfolding split_keys
split_keys-IsKeys buf e b = record {
  root = part-IsKey buf 0 (omega arith) b;
  header = part-IsKey buf 32 (omega arith) b;
  kcp = part-IsKey buf 64 (omega arith) b;
  ratchet = part-IsKey buf 96 (omega arith) b;
}

pub derive_keys_from_pake-IsKeys :
    (shared : Bytes)
    → 0 < length shared
    → length shared ≤ 1024
    → (k : DerivedKeys) × (derive_keys_from_pake shared ≡ done (ok k)) × IsKeys k
unfolding derive_keys_from_pake derived
derive_keys_from_pake-IsKeys shared pos h =
    let (buf, e, size, b) =
      hkdf_key shared pake_salt pake_info 128 (omega arith) (omega arith) h (omega arith) in
    (split_keys buf, rw (is_empty_pos shared pos, e), split_keys-IsKeys buf size b)

-- Credentials that are not empty and have at most 1023 bytes together give four keys of 32 bytes.
pub derive_keys_from_credentials-IsKeys :
    (username password : Bytes)
    → 0 < length username
    → 0 < length password
    → length username + length password ≤ 1023
    → (k : DerivedKeys) × (derive_keys_from_credentials username password ≡ done (ok k)) × IsKeys k
unfolding derive_keys_from_credentials
derive_keys_from_credentials-IsKeys username password hu hp h =
    let size : length (username ++ (text ":" ++ password)) ≡ length username + 1 + length password =
      omega (arith, length-append username (text ":" ++ password)) in
    let (k, e, valid) =
      derive_keys_from_pake-IsKeys (username ++ (text ":" ++ password)) (omega arith)
        (omega arith) in
    (k, rw (is_empty_pos username hu, is_empty_pos password hp) e, valid)
