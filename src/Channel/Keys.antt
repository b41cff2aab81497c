-- ===== src/Channel/Keys.antt =====
-- secure_channel.cpp: the keys of one message.
use e2ee_windows.Common.{
  ℕ, ◌≡◌, refl, Bytes, IsByte, done, Bool-cases, inl, inr, arith, [], ◌++◌, take, drop, length-take,
  length-drop, length-append, All-take, All-drop, replicate,
}
use e2ee_windows.Common.Word.{to_le, length-to_le}
use e2ee_windows.Crypto.Expand.{hkdf_key}
use e2ee_windows.Pake.{DerivedKeys}
use e2ee_windows.Pake.Derive.{IsKey, IsKeys}
use e2ee_windows.Channel.{
  SecureChannel, make_channel, message_keys, derive_per_message_keys, has_ratchet_root,
}

-- Three keys of 32 bytes, as the types of the members say.
pub record IsChannel (ch : SecureChannel) : Type 0 where
  pub enc : IsKey ch.enc_key
  pub auth : IsKey ch.auth_key
  pub root : IsKey ch.ratchet_root

pub make_channel-IsChannel : (keys : DerivedKeys) → IsKeys keys → IsChannel (make_channel keys)
unfolding make_channel
make_channel-IsChannel keys v = record { enc = v.kcp; auth = v.header; root = v.ratchet }

-- Every sequence number has its keys.
pub message_keys_total :
    (ch : SecureChannel) (seq : ℕ)
    → IsChannel ch
    → (enc : Bytes) × (auth : Bytes) × (derive_per_message_keys ch seq ≡ done (enc, auth))
      × IsKey enc
      × IsKey auth
unfolding derive_per_message_keys message_keys
message_keys_total ch seq v = elim (Bool-cases (has_ratchet_root ch)) [
  | inl yes' ↦
      let info = to_le 8 seq ++ replicate 4 0 in
      let (buf, e, size, b) =
        hkdf_key ch.ratchet_root [] info 64 (omega arith) (omega arith) (omega (arith, v.root.0))
          (omega (arith, length-append (to_le 8 seq) (replicate 4 0), length-to_le 8 seq)) in
      (
        take 32 buf,
        take 32 (drop 32 buf),
        rw (yes', e) refl,
        (omega (arith, length-take 32 buf), All-take IsByte 32 buf b),
        (
          omega (arith, length-take 32 (drop 32 buf), length-drop 32 buf),
          All-take IsByte 32 (drop 32 buf) (All-drop IsByte 32 buf b),
        ),
      )
  | inr no' ↦ (ch.enc_key, ch.auth_key, rw no' refl, v.enc, v.auth)
]
