-- ===== src/Protocol.antt =====
-- server/src/protocol.cpp and server/include/protocol.h: the fields of a payload. A writer returns
-- the longer buffer, a reader the value and the new offset, or nothing where the source returns
-- false.
pub mod Fields
pub mod RoundTrip
pub mod Exact
use e2ee_windows.Common.{
  ℕ, ◌+◌, ◌-◌, ◌/◌, ◌%◌, ◌^◌, ◌*◌, Bool, true, false, Option, none, some, ◌++◌, Bytes, ltb, leb,
  if◌then◌else◌, length, take, drop, get_or,
}
use e2ee_windows.Common.Word.{to_le}

-- `data[offset]`; each use stands behind a check of the bounds.
abbrev pub at : Bytes → ℕ → ℕ
at bs i = get_or bs i 0

-- `data.begin() + offset .. + len`
abbrev pub slice : Bytes → ℕ → ℕ → Bytes
slice bs offset len = take len (drop offset bs)

-- A string of more than 0xFFFF bytes is cut off, and the result is then `false`.
unfoldable pub write_string : Bytes → Bytes → Bytes × Bool
write_string s out =
    let len = (if ltb 0xffff (length s) then 0xffff else length s) in
    (out ++ (to_le 2 len ++ take len s), leb (length s) 0xffff)

unfoldable pub read_string : Bytes → ℕ → Option (Bytes × ℕ)
read_string bs offset =
    if ltb (length bs) (offset + 2)
    then none
    else let len = at bs offset + at bs (offset + 1) * 256 in
      if ltb (length bs) (offset + 2 + len)
      then none
      else some (slice bs (offset + 2) len, offset + 2 + len)

unfoldable pub write_uint32 : ℕ → Bytes → Bytes
write_uint32 v out = out ++ to_le 4 v

unfoldable pub read_uint32 : Bytes → ℕ → Option (ℕ × ℕ)
read_uint32 bs offset =
    if ltb (length bs) (offset + 4)
    then none
    else some (
      at bs offset
          + at bs (offset + 1) * 2 ^ 8
          + at bs (offset + 2) * 2 ^ 16
          + at bs (offset + 3) * 2 ^ 24,
      offset + 4,
    )

unfoldable pub write_bytes : Bytes → Bytes → Bytes
write_bytes buf out = write_uint32 (length buf % 2 ^ 32) out ++ buf

unfoldable pub read_bytes : Bytes → ℕ → Option (Bytes × ℕ)
read_bytes bs offset = elim (read_uint32 bs offset) [
  | none ↦ none
  | some (len, next) ↦
      if ltb (length bs) (next + len) then none else some (slice bs next len, next + len)
]
