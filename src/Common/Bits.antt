-- ===== src/Common/Bits.antt =====
-- Exclusive or of two bytes: a byte again, and undone by the same mask. Both are read off a table
-- of all pairs of bytes.
use Prim.Native.Nat.{ℕ, zero, suc, ◌<◌, bit_xor}
use mathlib.Core.Path.{◌≡◌, refl}
use mathlib.Core.Bool.{Bool, true, ◌&&◌}
use native.Mathlib.Omega.{arith}
use e2ee_windows.Common.Tests.{◌==◌, ltb}

-- What is to hold of a byte and a mask.
abbrev masked : ℕ → ℕ → Bool
masked byte mask = let x = bit_xor byte mask in ltb x 256 && bit_xor x mask == byte

-- One row of the table: a byte with every mask below `masks`.
row : ℕ → ℕ → Bool
row byte zero = true
row byte (suc masks) = row byte masks && masked byte masks

table : ℕ → Bool
table zero = true
table (suc bytes) = table bytes && row bytes 256

whole_table : table 256 ≡ true
unfolding table row
whole_table = refl

row-masked : (byte mask masks : ℕ) → row byte masks ≡ true → mask < masks → masked byte mask ≡ true
unfolding row
row-masked byte mask zero all h = absurd (omega arith)
row-masked byte mask (suc masks) all h = ground (arith, row-masked byte mask masks)

table-row : (byte bytes : ℕ) → table bytes ≡ true → byte < bytes → row byte 256 ≡ true
unfolding table
table-row byte zero all h = absurd (omega arith)
table-row byte (suc bytes) all h = ground (arith, table-row byte bytes)

xor_facts : (a b : ℕ) → a < 256 → b < 256 → (bit_xor (bit_xor a b) b ≡ a) × (bit_xor a b < 256)
xor_facts a b ha hb = ground (arith, row-masked a b 256 (table-row a 256 whole_table ha) hb)

-- The same mask twice gives the byte back.
pub xor_twice : (a b : ℕ) → a < 256 → b < 256 → bit_xor (bit_xor a b) b ≡ a
xor_twice a b ha hb = (xor_facts a b ha hb).0

pub xor-lt : (a b : ℕ) → a < 256 → b < 256 → bit_xor a b < 256
xor-lt a b ha hb = (xor_facts a b ha hb).1
