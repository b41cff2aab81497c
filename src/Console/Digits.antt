-- ===== src/Console/Digits.antt =====
-- main.cpp: what is printed is read back.
use e2ee_windows.Common.{
  ℕ, ◌*◌, ◌/◌, ◌%◌, ◌<◌, ◌≡◌, refl, false, [], ◌∷◌, Bytes, IsByte, All, arith, length,
}
use e2ee_windows.Ini.{is_space}
use e2ee_windows.Console.{
  hex_value, byte_value, clean, pairs, hex_to_bytes, hex_digit, bytes_to_hex,
}

byte_value-hex_digit : (b : ℕ) → b < 256 → byte_value (hex_digit (b / 16)) (hex_digit (b % 16)) ≡ b
unfolding byte_value hex_value hex_digit
byte_value-hex_digit b h = ground arith

is_space-hex_digit : (v : ℕ) → v < 16 → is_space (hex_digit v) ≡ false
unfolding is_space hex_digit
is_space-hex_digit v h = ground arith

clean-bytes_to_hex : (bs : Bytes) → All IsByte bs → clean (bytes_to_hex bs) ≡ bytes_to_hex bs
unfolding clean bytes_to_hex
clean-bytes_to_hex [] h = refl
clean-bytes_to_hex (b ∷ bs) h =
    rw
      (
        is_space-hex_digit (b / 16) (omega (arith, h.0)),
        is_space-hex_digit (b % 16) (omega arith),
        clean-bytes_to_hex bs h.1,
      )
      refl

length-bytes_to_hex : (bs : Bytes) → length (bytes_to_hex bs) ≡ 2 * length bs
unfolding bytes_to_hex
length-bytes_to_hex [] = refl
length-bytes_to_hex (b ∷ bs) = omega (arith, length-bytes_to_hex bs)

pairs-bytes_to_hex : (bs : Bytes) → All IsByte bs → pairs (bytes_to_hex bs) ≡ bs
unfolding pairs bytes_to_hex
pairs-bytes_to_hex [] h = refl
pairs-bytes_to_hex (b ∷ bs) h = rw (byte_value-hex_digit b h.0, pairs-bytes_to_hex bs h.1) refl

-- The bytes that the console prints in hexadecimal are the ones that it reads from the same text.
pub hex_to_bytes-bytes_to_hex : (bs : Bytes) → All IsByte bs → hex_to_bytes (bytes_to_hex bs) ≡ bs
unfolding hex_to_bytes
hex_to_bytes-bytes_to_hex bs h =
    let even : length (bytes_to_hex bs) % 2 ≡ 0 = omega (arith, length-bytes_to_hex bs) in
    rw (hex_to_bytes, clean-bytes_to_hex bs h, even) (pairs-bytes_to_hex bs h)
