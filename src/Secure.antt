-- ===== src/Secure.antt =====
-- shard/secure_types.h and shard/secure_types.cpp, class ScrambledString: a string that is kept
-- masked with a key of four bytes, and perhaps reversed. What the random engine draws is an argument.
pub mod Positions
pub mod Values
pub mod Orders
pub mod Handles
pub mod Strings
use Prim.Native.Nat.{bit_xor}
use e2ee_windows.Common.{
  ℕ, zero, suc, ◌+◌, ◌-◌, ◌*◌, ◌/◌, ◌%◌, ◌^◌, ◌==◌, [], ◌∷◌, ◌++◌, Bytes, if◌then◌else◌, length,
  take, drop, ltb,
}
use e2ee_windows.Common.Word.{to_le, from_le}

pub record ScrambledString : Type 0 where
  pub buffer : Bytes
  pub len : ℕ

-- Two draws of 32 bits: the key, and the one whose lowest bit chooses the order.
pub record Engine : Type 0 where
  pub key : ℕ
  pub order : ℕ

-- `keyBytes[i & 3]`
unfoldable pub key_byte : ℕ → ℕ → ℕ
key_byte key i = key / 256 ^ (i % 4) % 256

-- `b ^ keyBytes[i & 3]` for the bytes of a string, the first of which has index `i`.
unfoldable pub mask : ℕ → ℕ → Bytes → Bytes
mask key i [] = []
mask key i (b ∷ bs) = bit_xor b (key_byte key i) ∷ mask key (i + 1) bs

-- The byte at index `i` goes to `len - 1 - i`.
unfoldable pub reversed : Bytes → Bytes
reversed [] = []
reversed (b ∷ bs) = reversed bs ++ b ∷ []

-- `(permIndex == 0) ? i : (len_ - 1 - i)` as a rearrangement of the whole string.
unfoldable pub arranged : ℕ → Bytes → Bytes
arranged perm bs = if perm == 0 then bs else reversed bs

unfoldable pub encrypt : Bytes → Engine → ScrambledString
encrypt value e =
    let perm = (if ltb 1 (length value) then e.order % 2 else 0) in
    record {
      buffer = arranged perm (mask e.key 0 value) ++ (to_le 4 perm ++ to_le 4 e.key);
      len = length value;
    }

unfoldable pub decrypt : ScrambledString → Bytes
decrypt s =
    let perm = from_le (take 4 (drop s.len s.buffer)) in
    let key = from_le (take 4 (drop (s.len + 4) s.buffer)) in
    if ltb (length s.buffer) 8 then [] else arranged perm (mask key 0 (take s.len s.buffer))

-- `set`
unfoldable pub set : Bytes → Engine → ScrambledString
set value e = encrypt value e

-- The string is scrambled anew, with what is returned.
unfoldable pub get : ScrambledString → Engine → ScrambledString × Bytes
get s e = let plain = decrypt s in (encrypt plain e, plain)
