-- ===== src/Group.antt =====
-- server/src/group_manager.cpp: the key of a group and its version. The 32 random bytes of a key
-- are an argument.
pub mod Rotation
use e2ee_windows.Common.{
  ℕ, ◌+◌, ◌%◌, ◌^◌, Bool, ◌&&◌, Option, none, some, Bytes, replicate, leb, ltb, if◌then◌else◌, [],
}
use e2ee_windows.Common.Dict.{Dict, find, put, or_default}

pub data RotationReason : Type 0 where
  join leave kick periodic message_threshold : RotationReason

-- `static_cast<std::uint8_t>(reason)`
unfoldable pub reason_code : RotationReason → ℕ
reason_code join = 0
reason_code leave = 1
reason_code kick = 2
reason_code periodic = 3
reason_code message_threshold = 4

pub record GroupKey : Type 0 where
  pub version : ℕ
  pub sender_key : Bytes
  pub reason : RotationReason

pub record GroupState : Type 0 where
  pub group_id : Bytes
  pub key : GroupKey
  pub message_count : ℕ

-- `GroupState()`
abbrev pub empty_state : GroupState
empty_state = record {
  group_id = [];
  key = record { version = 0; sender_key = replicate 32 0; reason = periodic };
  message_count = 0;
}

abbrev pub GroupManager : Type 0
GroupManager = Dict GroupState

abbrev pub make_key : ℕ → RotationReason → Bytes → GroupKey
make_key next_version reason random = record {
  version = next_version;
  sender_key = random;
  reason = reason;
}

-- `key.version + 1` on `std::uint32_t`
abbrev pub next_version : GroupState → ℕ
next_version s = (s.key.version + 1) % 2 ^ 32

unfoldable pub rotate : GroupManager → Bytes → RotationReason → Bytes → GroupManager × GroupKey
rotate gm group_id reason random =
    let state = or_default empty_state (find group_id gm) in
    let key = make_key (next_version state) reason random in
    (put group_id (record { group_id = group_id; key = key; message_count = 0 }) gm, key)

-- `it->second.key`
abbrev pub state_key : Option GroupState → Option GroupKey
state_key none = none
state_key (some s) = some s.key

unfoldable pub get_key : GroupManager → Bytes → Option GroupKey
get_key gm group_id = state_key (find group_id gm)

-- One message of a group that is there: the new state, and the new key where one is made.
unfoldable pub count_message : GroupState → ℕ → Bytes → GroupState × Option GroupKey
count_message s threshold random =
    let count = (s.message_count + 1) % 2 ^ 64 in
    let key = make_key (next_version s) message_threshold random in
    if ltb 0 threshold && leb threshold count
    then (record s { key = key; message_count = 0 }, some key)
    else (record s { message_count = count }, none)

unfoldable pub on_message : GroupManager → Bytes → ℕ → Bytes → GroupManager × Option GroupKey
on_message gm group_id threshold random = elim (find group_id gm) [
  | none ↦ (
    put group_id (record { group_id = group_id; key = make_key 1 join random; message_count = 1 })
        gm,
    none,
  )
  | some s ↦ let (s', rotated) = count_message s threshold random in (put group_id s' gm, rotated)
]
