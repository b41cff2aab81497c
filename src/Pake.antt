-- ===== src/Pake.antt =====
-- server/src/pake.cpp: the keys of a session are derived from the user's name and password.
pub mod Derive
use e2ee_windows.Common.{
  ℕ, ◌+◌, Bool, ◌||◌, Option, none, some, [], ◌∷◌, ◌++◌, Bytes, text, Run, done, fault, ◌>>=◌,
  Result, ok, err, if◌then◌else◌, take, drop, is_empty,
}
use e2ee_windows.Crypto.{hkdf_sha256}

pub record DerivedKeys : Type 0 where
  pub root_key : Bytes
  pub header_key : Bytes
  pub kcp_key : Bytes
  pub ratchet_root : Bytes

abbrev pub pake_salt : Bytes
pake_salt =
    0x5a ∷ 0x12 ∷ 0x33 ∷ 0x97 ∷ 0xc1 ∷ 0x4f ∷ 0x28 ∷ 0x0b ∷ 0x91 ∷ 0x61 ∷ 0xaf ∷ 0x72 ∷ 0x4d ∷ 0xf3
    ∷ 0x86 ∷ 0x9b ∷ 0x3c ∷ 0x55 ∷ 0x6e ∷ 0x21 ∷ 0xda ∷ 0x01 ∷ 0x44 ∷ 0x8f ∷ 0xb7 ∷ 0x0a ∷ 0xce
    ∷ 0x19 ∷ 0x2e ∷ 0x73 ∷ 0x58 ∷ 0xd4 ∷ []

abbrev pub pake_info : Bytes
pake_info = text "mi_e2ee_pake_derive_v1"

abbrev pub ratchet_info : Bytes
ratchet_info = text "mi_e2ee_ratchet_msg_v1"

-- The four keys are consecutive parts of 32 bytes.
unfoldable pub split_keys : Bytes → DerivedKeys
split_keys buf = record {
  root_key = take 32 buf;
  header_key = take 32 (drop 32 buf);
  kcp_key = take 32 (drop 64 buf);
  ratchet_root = take 32 (drop 96 buf);
}

unfoldable pub derived : Option Bytes → Result DerivedKeys
derived none = err (text "hkdf derivation failed")
derived (some buf) = ok (split_keys buf)

unfoldable pub derive_keys_from_pake : Bytes → Run (Result DerivedKeys)
derive_keys_from_pake pake_shared =
    if is_empty pake_shared
    then done (err (text "pake shared secret is empty"))
    else (do buf ← hkdf_sha256 pake_shared pake_salt pake_info 128; done (derived buf))

unfoldable pub derive_keys_from_credentials : Bytes → Bytes → Run (Result DerivedKeys)
derive_keys_from_credentials username password =
    if is_empty username || is_empty password
    then done (err (text "credentials empty"))
    else derive_keys_from_pake (username ++ (text ":" ++ password))

-- `DeriveMessageKey`, which `SecureChannel::DeriveMessageKey` calls.
unfoldable pub derive_message_key : Bytes → ℕ → Run (Option Bytes)
derive_message_key ratchet_root counter = hkdf_sha256 ratchet_root [] ratchet_info 32
