-- ===== src/Runs/Wire.antt =====
-- Runs of the readers and writers of protocol.cpp and frame.cpp.
use e2ee_windows.Common.{◌^◌, ◌<◌, ◌≡◌, refl, some, [], ◌∷◌, ◌++◌, Bytes, length, drop, arith}
use e2ee_windows.Common.Word.{from_le}
use e2ee_windows.Protocol.{read_string, read_uint32, read_bytes}
use e2ee_windows.Frame.{Frame, FrameType, encode_frame, decode_frame, type_code, frame_type}
use e2ee_windows.Frame.RoundTrip.{IsProper, decode_frame_exact}

abbrev word : Bytes
word = b'h' ∷ b'i' ∷ []

abbrev string_bytes : Bytes
string_bytes = 9 ∷ 2 ∷ 0 ∷ b'h' ∷ b'i' ∷ 7 ∷ []

string_read : read_string string_bytes 1 ≡ some (word, 5)
unfolding read_string
string_read = refl

abbrev word_bytes : Bytes
word_bytes = 9 ∷ 1 ∷ 2 ∷ 0 ∷ 0 ∷ []

word_read : read_uint32 word_bytes 1 ≡ some (513, 5)
unfolding read_uint32
word_read = refl

abbrev blob_bytes : Bytes
blob_bytes = 9 ∷ 2 ∷ 0 ∷ 0 ∷ 0 ∷ b'h' ∷ b'i' ∷ []

blob_read : read_bytes blob_bytes 1 ≡ some (word, 7)
unfolding read_bytes read_uint32
blob_read = refl

abbrev message_frame : Frame
message_frame = record { type = FrameType.message; payload = word }

message_IsProper : IsProper FrameType.message
unfolding type_code frame_type
message_IsProper = (refl, omega arith)

abbrev frame_bytes : Bytes
frame_bytes = 0x46 ∷ 0x57 ∷ 0x49 ∷ 0x4D ∷ 1 ∷ 0 ∷ 3 ∷ 0 ∷ 2 ∷ 0 ∷ 0 ∷ 0 ∷ b'h' ∷ b'i' ∷ 7 ∷ []

frame_read : decode_frame frame_bytes ≡ some message_frame
unfolding decode_frame frame_type from_le
frame_read = refl

decode_frame_exact_example :
    (frame_bytes ≡ encode_frame message_frame ++ drop 14 frame_bytes)
    × IsProper FrameType.message
    × (length word < 2 ^ 32)
decode_frame_exact_example = decode_frame_exact frame_bytes message_frame (omega arith) frame_read
