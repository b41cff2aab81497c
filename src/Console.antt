-- ===== src/Console.antt =====
-- server/src/main.cpp: frames in hexadecimal on the console, as with --stdin.
pub mod Digits
use e2ee_windows.Common.{
  ℕ, zero, suc, ◌+◌, ◌-◌, ◌*◌, ◌/◌, ◌%◌, ◌==◌, Bool, ◌&&◌, Option, none, some, [], ◌∷◌, Bytes, text,
  is_empty, Run, done, ◌>>=◌, Result, ok, err, if◌then◌else◌, length, leb, ltb,
}
use e2ee_windows.Ini.{is_space}
use e2ee_windows.Frame.{encode_frame, decode_frame}
use e2ee_windows.Api.{ApiService}
use e2ee_windows.Router.{Env, Answer, handle}

-- What `strtoul` in base 16 takes a digit for.
unfoldable pub hex_value : ℕ → Option ℕ
hex_value c =
    if leb b'0' c && leb c b'9'
    then some (c - b'0')
    else if leb b'a' c && leb c b'f'
    then some (c - b'a' + 10)
    else if leb b'A' c && leb c b'F'
    then some (c - b'A' + 10)
    else none

-- What `strtoul` makes of digits behind `value`, where there are any.
abbrev or_value : ℕ → Option ℕ → ℕ
or_value value none = value
or_value value (some digit) = value * 16 + digit

-- `static_cast<std::uint8_t>(std::strtoul(...))` of two bytes that are no spaces: a sign may stand in
-- front of a digit, and what is no digit ends the number.
unfoldable pub byte_value : ℕ → ℕ → ℕ
byte_value c d =
    if c == b'-'
    then (256 - or_value 0 (hex_value d)) % 256
    else if c == b'+'
    then or_value 0 (hex_value d)
    else elim (hex_value c) [ none ↦ 0 | some v ↦ or_value v (hex_value d) ]

unfoldable pub clean : Bytes → Bytes
clean [] = []
clean (c ∷ cs) = let rest = clean cs in if is_space c then rest else c ∷ rest

-- The loop over the pairs; an odd number of digits gives nothing at all.
unfoldable pub pairs : Bytes → Bytes
pairs [] = []
pairs (c ∷ []) = []
pairs (c ∷ d ∷ cs) = byte_value c d ∷ pairs cs

unfoldable pub hex_to_bytes : Bytes → Bytes
hex_to_bytes hex = if length (clean hex) % 2 == 0 then pairs (clean hex) else []

-- `hex[v]`
unfoldable pub hex_digit : ℕ → ℕ
hex_digit v = if ltb v 10 then v + b'0' else v - 10 + b'a'

unfoldable pub bytes_to_hex : Bytes → Bytes
bytes_to_hex [] = []
bytes_to_hex (b ∷ bs) = hex_digit (b / 16) ∷ hex_digit (b % 16) ∷ bytes_to_hex bs

-- The reply to a request that is not answered in a session, or the error.
unfoldable pub replied : Answer → ApiService × Result Bytes
replied (api, none) = (api, err (text "handle frame failed"))
replied (api, some out) = (api, ok (bytes_to_hex (encode_frame out)))

-- What is printed for the text that is read; the server is one that `Init` has set up.
unfoldable pub answer_stdin : ApiService → Bytes → Env → Run (ApiService × Result Bytes)
answer_stdin api hex env =
    let bytes = hex_to_bytes hex in
    if is_empty bytes then done (api, err (text "no bytes read")) else elim (decode_frame bytes) [
      | none ↦ done (api, err (text "decode frame failed"))
      | some f ↦ (do a ← handle api f [] env; done (replied a))
    ]
