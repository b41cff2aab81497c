-- ===== src/Common/Word.antt =====
-- Unsigned machine words: wrap-around, and the bytes of a word in little-endian order.
use Prim.Native.Nat.{ℕ, zero, suc, ◌+◌, ◌*◌, ◌/◌, ◌%◌, ◌^◌, ◌<◌}
use mathlib.Core.Path.{◌≡◌, refl}
use mathlib.Core.List.{[], ◌∷◌}
use native.Mathlib.Nat.{pow-suc}
use native.Mathlib.Omega.{arith}
use e2ee_windows.Common.Lists.{length, All}
use e2ee_windows.Common.Text.{Bytes, IsByte}

abbrev pub IsU16 : ℕ → Type 0
IsU16 v = v < 2 ^ 16

abbrev pub IsU32 : ℕ → Type 0
IsU32 v = v < 2 ^ 32

abbrev pub IsU64 : ℕ → Type 0
IsU64 v = v < 2 ^ 64

-- `static_cast<std::uint8_t>((v >> 8 * i) & 0xFF)` for i = 0 .. n - 1
unfoldable pub to_le : ℕ → ℕ → Bytes
to_le zero v = []
to_le (suc n) v = (v % 256) ∷ to_le n (v / 256)

-- The word whose bytes, lowest first, are given.
unfoldable pub from_le : Bytes → ℕ
from_le [] = 0
from_le (b ∷ bs) = b + 256 * from_le bs

pub length-to_le : (n v : ℕ) → length (to_le n v) ≡ n
unfolding to_le
length-to_le zero v = refl
length-to_le (suc n) v = omega (arith, length-to_le n (v / 256))

pub to_le-IsByte : (n v : ℕ) → All IsByte (to_le n v)
unfolding to_le
to_le-IsByte zero v = tt
to_le-IsByte (suc n) v = (omega arith, to_le-IsByte n (v / 256))

pub from_le-lt_add : (b w : ℕ) → b < 256 → ((b + 256 * w) % 256 ≡ b) × ((b + 256 * w) / 256 ≡ w)
from_le-lt_add b w h = omega arith

-- The bytes of the word that given bytes stand for.
pub to_le-from_le : (n : ℕ) (bs : Bytes) → length bs ≡ n → All IsByte bs → to_le n (from_le bs) ≡ bs
unfolding to_le from_le
to_le-from_le zero [] e h = refl
to_le-from_le zero (b ∷ bs) e h = absurd (omega arith)
to_le-from_le (suc n) [] e h = absurd (omega arith)
to_le-from_le (suc n) (b ∷ bs) e h =
    ground (arith, from_le-lt_add b (from_le bs) h.0, to_le-from_le n bs)

-- The word that the low bytes of `v` stand for.
pub from_le-to_le : (n v : ℕ) → v < 256 ^ n → from_le (to_le n v) ≡ v
unfolding from_le to_le
from_le-to_le zero v h = omega (arith)
from_le-to_le (suc n) v h = omega (arith, from_le-to_le n (v / 256) (omega (arith, pow-suc 256 n)))

-- n bytes make a word below 256 ^ n.
pub from_le-lt : (n : ℕ) (bs : Bytes) → length bs ≡ n → All IsByte bs → from_le bs < 256 ^ n
unfolding from_le
from_le-lt zero [] e h = omega arith
from_le-lt zero (b ∷ bs) e h = absurd (omega arith)
from_le-lt (suc n) [] e h = absurd (omega arith)
from_le-lt (suc n) (b ∷ bs) e h = omega (arith, pow-suc 256 n, from_le-lt n bs (omega arith) h.1)
