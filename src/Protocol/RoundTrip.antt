-- ===== src/Protocol/RoundTrip.antt =====
-- protocol.cpp: what a writer appends, the reader gives back, and a reader accepts nothing else.
use native.Mathlib.Nat.{add-zero}
use e2ee_windows.Common.{
  true, ◌^◌, ◌%◌, ℕ, ◌+◌, ◌≤◌, ◌<◌, ◌≡◌, refl, some, ◌++◌, arith, Bytes, length, take,
  length-append, take_all, take-append, drop-append, append_assoc,
}
use e2ee_windows.Common.Word.{IsU32, to_le, length-to_le}
use e2ee_windows.Protocol.{
  write_string, read_string, write_uint32, read_uint32, write_bytes, read_bytes,
}
use e2ee_windows.Protocol.Fields.{read_string-append, read_uint32-append}

read_string_front :
    (s rest : Bytes)
    → length s ≤ 0xffff
    → read_string (to_le 2 (length s) ++ (s ++ rest)) 0 ≡ some (s, 2 + length s)
unfolding read_string to_le
read_string_front s rest h =
    ground (arith, length-append s rest, take-append (length s) s rest refl)

-- A string of at most 0xFFFF bytes is read back from where it was written, whatever stands before and behind it.
pub read_string-write_string :
    (out s rest : Bytes)
    → length s ≤ 0xffff
    → (read_string ((write_string s out).0 ++ rest) (length out)
        ≡ some (s, length out + (2 + length s)))
      × ((write_string s out).1 ≡ true)
unfolding write_string
read_string-write_string out s rest h = ground (
  arith,
  append_assoc out (to_le 2 (length s) ++ take (length s) s) rest,
  append_assoc (to_le 2 (length s)) (take (length s) s) rest,
  take_all s,
  read_string-append out (to_le 2 (length s) ++ (s ++ rest)) 0,
  add-zero (length out),
  read_string_front s rest h,
)

read_uint32_front :
    (v : ℕ) (rest : Bytes) → IsU32 v → read_uint32 (to_le 4 v ++ rest) 0 ≡ some (v, 4)
unfolding read_uint32 to_le
read_uint32_front v rest h = ground arith

-- A 32-bit word is read back from where it was written.
pub read_uint32-write_uint32 :
    (out rest : Bytes) (v : ℕ)
    → IsU32 v
    → read_uint32 (write_uint32 v out ++ rest) (length out) ≡ some (v, length out + 4)
unfolding write_uint32
read_uint32-write_uint32 out rest v h = ground (
  arith,
  append_assoc out (to_le 4 v) rest,
  read_uint32-append out (to_le 4 v ++ rest) 0,
  add-zero (length out),
  read_uint32_front v rest h,
)

-- A blob of fewer than 2 ^ 32 bytes is read back from where it was written.
pub read_bytes-write_bytes :
    (out buf rest : Bytes)
    → length buf < 2 ^ 32
    → read_bytes (write_bytes buf out ++ rest) (length out)
      ≡ some (buf, length out + (4 + length buf))
unfolding read_bytes write_bytes write_uint32
read_bytes-write_bytes out buf rest h = ground (
  arith,
  append_assoc (out ++ to_le 4 (length buf % 2 ^ 32)) buf rest,
  read_uint32-write_uint32 out (buf ++ rest) (length buf) h,
  length-append (out ++ to_le 4 (length buf % 2 ^ 32)) (buf ++ rest),
  length-append buf rest,
  length-append out (to_le 4 (length buf % 2 ^ 32)),
  length-to_le 4 (length buf % 2 ^ 32),
  drop-append (length out + 4) (out ++ to_le 4 (length buf % 2 ^ 32)) (buf ++ rest),
  take-append (length buf) buf rest refl,
)
