-- ===== src/Frame.antt =====
-- server/src/frame.cpp and server/include/frame.h: the outer frame. `RawHeader` is copied as it
-- lies in memory; on the program's targets that is twelve bytes with no padding, little-endian.
pub mod RoundTrip
use e2ee_windows.Common.{
  ℕ, ◌+◌, ◌%◌, ◌^◌, Bool, ◌&&◌, Option, none, some, ◌++◌, Bytes, ltb, ◌==◌, if◌then◌else◌, length,
  take, drop,
}
use e2ee_windows.Common.Word.{to_le, from_le}

-- `other` is any value of the underlying type that the enumeration does not name.
pub data FrameType : Type 0 where
  login logout message group_event heartbeat : FrameType
  offline_push offline_pull friend_list friend_add friend_remark_set : FrameType
  other : ℕ → FrameType

-- `static_cast<std::uint16_t>(type)`
unfoldable pub type_code : FrameType → ℕ
type_code login = 1
type_code logout = 2
type_code message = 3
type_code group_event = 4
type_code heartbeat = 5
type_code offline_push = 6
type_code offline_pull = 7
type_code friend_list = 8
type_code friend_add = 9
type_code friend_remark_set = 10
type_code (other n) = n

-- `static_cast<FrameType>(code)`
unfoldable pub frame_type : ℕ → FrameType
frame_type n =
    if n == 1
    then login
    else if n == 2
    then logout
    else if n == 3
    then message
    else if n == 4
    then group_event
    else if n == 5
    then heartbeat
    else if n == 6
    then offline_push
    else if n == 7
    then offline_pull
    else if n == 8
    then friend_list
    else if n == 9
    then friend_add
    else if n == 10
    then friend_remark_set
    else other n

pub record Frame : Type 0 where
  pub type : FrameType
  pub payload : Bytes

abbrev pub magic : ℕ
magic = 0x4D495746

abbrev pub version : ℕ
version = 1

abbrev pub header_size : ℕ
header_size = 12

-- The bytes of a `RawHeader`.
unfoldable pub raw_header : ℕ → ℕ → Bytes
raw_header type len = to_le 4 magic ++ (to_le 2 version ++ (to_le 2 type ++ to_le 4 len))

unfoldable pub encode_frame : Frame → Bytes
encode_frame f = raw_header (type_code f.type) (length f.payload % 2 ^ 32) ++ f.payload

-- The field of `size` bytes that starts at `offset` of the header.
abbrev pub field : Bytes → ℕ → ℕ → ℕ
field bs offset size = from_le (take size (drop offset bs))

unfoldable pub decode_frame : Bytes → Option Frame
decode_frame bs =
    if ltb (length bs) header_size
    then none
    else if field bs 0 4 == magic && field bs 4 2 == version
    then (let payload_len = field bs 8 4 in
        if ltb (length bs) (header_size + payload_len)
        then none
        else some (record {
          type = frame_type (field bs 6 2);
          payload = take payload_len (drop header_size bs);
        }))
    else none
