-- ===== src/Client/Calls.antt =====
-- client_core.cpp: the operations of a client that is logged in.
use e2ee_windows.Common.{
  ℕ, zero, suc, ◌==◌, Bool, false, not, Option, none, some, List, [], ◌∷◌, Bytes, Run, done, ◌>>=◌,
  if◌then◌else◌, ltb, length,
}
use e2ee_windows.Protocol.{
  write_string, read_string, write_uint32, read_uint32, write_bytes, read_bytes,
}
use e2ee_windows.Frame.{FrameType}
use e2ee_windows.Router.{Env}
use e2ee_windows.Client.{ClientCore, process_encrypted, ensure_channel}

-- `!resp_plain.empty() && resp_plain[0] != 0`
unfoldable pub nonzero_reply : Option Bytes → Bool
nonzero_reply none = false
nonzero_reply (some []) = false
nonzero_reply (some (b ∷ bs)) = not (b == 0)

-- `!resp_plain.empty() && resp_plain[0] == 1`
unfoldable pub one_reply : Option Bytes → Bool
one_reply none = false
one_reply (some []) = false
one_reply (some (b ∷ bs)) = b == 1

-- The loop of `PullOffline` for `count` messages: it ends at the first that cannot be read.
unfoldable pub read_messages : ℕ → Bytes → ℕ → List Bytes
read_messages zero bs off = []
read_messages (suc count) bs off = elim (read_bytes bs off) [
  | none ↦ []
  | some (msg, next) ↦ msg ∷ read_messages count bs next
]

-- `FriendEntry`
pub record FriendEntry : Type 0 where
  pub username : Bytes
  pub remark : Bytes

-- The remark behind a name; at the end of the payload there is none.
unfoldable pub read_remark : Bytes → ℕ → Option (Bytes × ℕ)
read_remark bs off = if ltb off (length bs) then read_string bs off else some ([], off)

unfoldable pub read_entry : Bytes → ℕ → Option (FriendEntry × ℕ)
read_entry bs off = elim (read_string bs off) [
  | none ↦ none
  | some (name, next) ↦ elim (read_remark bs next) [
    | none ↦ none
    | some (remark, last) ↦ some (record { username = name; remark = remark }, last)
  ]
]

-- The loop of `ListFriends`.
unfoldable pub read_friends : ℕ → Bytes → ℕ → List FriendEntry
read_friends zero bs off = []
read_friends (suc count) bs off = elim (read_entry bs off) [
  | none ↦ []
  | some (e, next) ↦ e ∷ read_friends count bs next
]

-- A reply whose first byte is not zero, then a count, then what `read` makes of the rest.
unfoldable pub counted : {A : Type 0} → (ℕ → Bytes → ℕ → List A) → Option Bytes → List A
counted read none = []
counted read (some []) = []
counted read (some (b ∷ bs)) =
    if b == 0
    then []
    else elim (read_uint32 (b ∷ bs) 1) [ none ↦ [] | some (count, next) ↦ read count (b ∷ bs) next ]

module _ {W : Type 0} (tcp : W → Bytes → ℕ → Bytes → W × Option Bytes) where
  -- A request, and the answer that is made of the reply.
  unfoldable pub ask :
      {A : Type 0}
      → (Option Bytes → A)
      → ClientCore
      → W
      → Env
      → FrameType
      → Bytes
      → Run (ClientCore × W × A)
  ask read c w env type plain = do
    (c', w', r) ← process_encrypted tcp c w env type plain
    done (c', w', read r)

  unfoldable pub join_group : ClientCore → W → Env → Bytes → Run (ClientCore × W × Bool)
  join_group c w env group_id =
      ask nonzero_reply c w env FrameType.group_event (write_string group_id (0 ∷ [])).0

  unfoldable pub send_group_message : ClientCore → W → Env → Bytes → ℕ → Run (ClientCore × W × Bool)
  send_group_message c w env group_id threshold =
      ask nonzero_reply c w env FrameType.message
        (write_uint32 threshold (write_string group_id []).0)

  unfoldable pub send_offline : ClientCore → W → Env → Bytes → Bytes → Run (ClientCore × W × Bool)
  send_offline c w env recipient payload =
      ask one_reply c w env FrameType.offline_push
        (write_bytes payload (write_string recipient []).0)

  unfoldable pub pull_offline : ClientCore → W → Env → Run (ClientCore × W × List Bytes)
  pull_offline c w env =
      let asked = ask (counted read_messages) c w env FrameType.offline_pull [] in
      if ensure_channel c then asked else done (c, w, [])

  unfoldable pub list_friends : ClientCore → W → Env → Run (ClientCore × W × List FriendEntry)
  list_friends c w env =
      let asked = ask (counted read_friends) c w env FrameType.friend_list [] in
      if ensure_channel c then asked else done (c, w, [])

  unfoldable pub add_friend : ClientCore → W → Env → Bytes → Bytes → Run (ClientCore × W × Bool)
  add_friend c w env friend remark =
      let asked =
        ask one_reply c w env FrameType.friend_add
          (write_string remark (write_string friend []).0).0 in
      if ensure_channel c then asked else done (c, w, false)

  unfoldable pub set_friend_remark :
      ClientCore → W → Env → Bytes → Bytes → Run (ClientCore × W × Bool)
  set_friend_remark c w env friend remark =
      let asked =
        ask one_reply c w env FrameType.friend_remark_set
          (write_string remark (write_string friend []).0).0 in
      if ensure_channel c then asked else done (c, w, false)
