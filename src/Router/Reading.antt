-- ===== src/Router/Reading.antt =====
-- frame_router.cpp: the fields of a request. `none` stands for a field that cannot be read.
use e2ee_windows.Common.{ℕ, Option, none, some, [], ◌∷◌, Bytes, if◌then◌else◌, length, ltb}
use e2ee_windows.Common.Options.{◌>>=◌}
use e2ee_windows.Protocol.{read_string, read_uint32, read_bytes}

-- Two strings, one behind the other.
unfoldable pub read_two : Bytes → Option (Bytes × Bytes)
read_two bs = do (one, next) ← read_string bs 0; (two, last) ← read_string bs next; some (one, two)

-- The remark of `FriendAdd` may be missing, and is empty then.
unfoldable pub read_friend : Bytes → Option (Bytes × Bytes)
read_friend bs = do
  (name, next) ← read_string bs 0
  if ltb next (length bs)
      then (do (remark, last) ← read_string bs next; some (name, remark))
      else some (name, [])

-- The threshold of `Message` may be missing; the one of the service is used then.
unfoldable pub read_message : ℕ → Bytes → Option (Bytes × ℕ)
read_message default_threshold bs = do
  (group_id, next) ← read_string bs 0
  some (
    group_id,
    elim (read_uint32 bs next) [ none ↦ default_threshold | some (threshold, last) ↦ threshold ],
  )

unfoldable pub read_push : Bytes → Option (Bytes × Bytes)
read_push bs = do
  (recipient, next) ← read_string bs 0
  (payload, last) ← read_bytes bs next
  some (recipient, payload)

-- The action byte, then the group.
unfoldable pub read_event : Bytes → Option (ℕ × Bytes)
read_event [] = none
read_event (action ∷ bs) = do
  (group_id, last) ← read_string (action ∷ bs) 1
  some (action, group_id)
