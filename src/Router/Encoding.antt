-- ===== src/Router/Encoding.antt =====
-- frame_router.cpp: the payload of a reply.
use e2ee_windows.Common.{
  ◌%◌, ◌^◌, Option, none, some, List, [], ◌∷◌, ◌++◌, Bytes, Result, ok, err, length,
}
use e2ee_windows.Protocol.{write_string, write_uint32, write_bytes}
use e2ee_windows.Group.{GroupKey, reason_code}
use e2ee_windows.Api.{GroupEvent}
use e2ee_windows.Api.Friends.{Entry}

-- `out` behind `WriteString(s, out)`.
abbrev pub append_string : Bytes → Bytes → Bytes
append_string s out = (write_string s out).0

unfoldable pub encode_login_resp : Result Bytes → Bytes
encode_login_resp (ok token) = append_string token (1 ∷ [])
encode_login_resp (err e) = append_string e (0 ∷ [])

-- `EncodeLogoutResp`, `EncodeOfflinePushResp`, `EncodeFriendAddResp` and `EncodeFriendRemarkResp`.
unfoldable pub encode_plain_resp : Result {0} Unit → Bytes
encode_plain_resp (ok u) = 1 ∷ []
encode_plain_resp (err e) = append_string e (0 ∷ [])

unfoldable pub encode_group_event_resp : Result GroupEvent → Bytes
encode_group_event_resp (ok e) = write_uint32 e.version (1 ∷ []) ++ (reason_code e.reason) ∷ []
encode_group_event_resp (err e) = append_string e (0 ∷ [])

unfoldable pub encode_group_message_resp : Result (Option GroupKey) → Bytes
encode_group_message_resp (ok none) = 1 ∷ 0 ∷ []
encode_group_message_resp (ok (some k)) =
    write_uint32 k.version (1 ∷ 1 ∷ []) ++ (reason_code k.reason) ∷ []
encode_group_message_resp (err e) = append_string e (0 ∷ 0 ∷ [])

unfoldable pub write_all : List Bytes → Bytes → Bytes
write_all [] out = out
write_all (m ∷ ms) out = write_all ms (write_bytes m out)

unfoldable pub encode_offline_pull_resp : Result (List Bytes) → Bytes
encode_offline_pull_resp (ok ms) = write_all ms (write_uint32 (length ms % 2 ^ 32) (1 ∷ []))
encode_offline_pull_resp (err e) = append_string e (0 ∷ [])

unfoldable pub write_entries : List Entry → Bytes → Bytes
write_entries [] out = out
write_entries (e ∷ es) out =
    write_entries es (append_string e.remark (append_string e.username out))

unfoldable pub encode_friend_list_resp : Result (List Entry) → Bytes
encode_friend_list_resp (ok es) = write_entries es (write_uint32 (length es % 2 ^ 32) (1 ∷ []))
encode_friend_list_resp (err e) = append_string e (0 ∷ [])
