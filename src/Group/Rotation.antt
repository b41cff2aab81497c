-- ===== src/Group/Rotation.antt =====
-- group_manager.cpp: how versions and message counts move.
use e2ee_windows.Common.{
  ℕ, ◌+◌, ◌*◌, ◌%◌, ◌^◌, ◌<◌, ◌≡◌, refl, ◌∙◌, Bytes, some, arith, List, [], ◌∷◌, length, ◌⊎◌, inl,
  inr, if◌then◌else◌, same, same_refl,
}
use e2ee_windows.Common.Dict.{find, find-put, or_default}
use e2ee_windows.Group.{
  GroupManager, GroupState, RotationReason, empty_state, make_key, rotate, count_message,
  on_message,
}

-- A sequence of messages to a group that is there; each brings the random bytes for a key.
unfoldable pub count_messages : GroupState → ℕ → List Bytes → GroupState
count_messages s threshold [] = s
count_messages s threshold (r ∷ rs) = count_messages (count_message s threshold r).0 threshold rs

count_message_lem :
    (s : GroupState) (threshold : ℕ) (r : Bytes)
    → threshold < 2 ^ 64
    → s.message_count < threshold
    → ((s.message_count + 1 ≡ threshold)
        × ((count_message s threshold r).0.message_count ≡ 0)
        × ((count_message s threshold r).0.key.version ≡ (s.key.version + 1) % 2 ^ 32))
      ⊎ ((s.message_count + 1 < threshold)
          × ((count_message s threshold r).0.message_count ≡ s.message_count + 1)
          × ((count_message s threshold r).0.key.version ≡ s.key.version))
unfolding count_message
count_message_lem s threshold r h lt = ground arith

-- The rounds of messages that a state counts out.
count_messages_rounds :
    (s : GroupState) (threshold : ℕ) (rs : List Bytes)
    → threshold < 2 ^ 64
    → s.message_count < threshold
    → s.key.version < 2 ^ 32
    → (q : ℕ) × (s.message_count + length rs
        ≡ q * threshold + (count_messages s threshold rs).message_count)
      × ((count_messages s threshold rs).message_count < threshold)
      × ((count_messages s threshold rs).key.version ≡ (s.key.version + q) % 2 ^ 32)
unfolding count_messages
count_messages_rounds s threshold [] h lt vs = (0, omega arith, lt, omega arith)
count_messages_rounds s threshold (r ∷ rs) h lt vs = elim (count_message_lem s threshold r h lt) [
  | inl (full, count, version) ↦
      let s' = (count_message s threshold r).0 in
      let (q, total, low, made) =
        count_messages_rounds s' threshold rs h (omega arith) (omega arith) in
      (q + 1, omega arith, low, omega arith)
  | inr (room, count, version) ↦
      let s' = (count_message s threshold r).0 in
      let (q, total, low, made) =
        count_messages_rounds s' threshold rs h (omega arith) (omega arith) in
      (q, omega arith, low, omega arith)
]

-- The same messages, sent to the manager.
unfoldable pub on_messages : GroupManager → Bytes → ℕ → List Bytes → GroupManager
on_messages gm group_id threshold [] = gm
on_messages gm group_id threshold (r ∷ rs) =
    on_messages (on_message gm group_id threshold r).0 group_id threshold rs

on_message-find :
    (gm : GroupManager) (group_id other : Bytes) (threshold : ℕ) (r : Bytes) (s : GroupState)
    → find group_id gm ≡ some s
    → find other (on_message gm group_id threshold r).0
      ≡ (if same group_id other then some (count_message s threshold r).0 else find other gm)
unfolding on_message
on_message-find gm group_id other threshold r s e =
    rw (on_message, e) (find-put group_id other (count_message s threshold r).0 gm)

on_messages-find :
    (gm : GroupManager) (group_id : Bytes) (threshold : ℕ) (rs : List Bytes) (s : GroupState)
    → find group_id gm ≡ some s
    → find group_id (on_messages gm group_id threshold rs) ≡ some (count_messages s threshold rs)
unfolding on_messages count_messages
on_messages-find gm group_id threshold [] s e = e
on_messages-find gm group_id threshold (r ∷ rs) s e =
    on_messages-find (on_message gm group_id threshold r).0 group_id threshold rs
      (count_message s threshold r).0
      (on_message-find gm group_id group_id threshold r s e ∙ rw (same_refl group_id))

-- The messages of a group that is there, under one threshold below 2 ^ 64 that its counter has not
-- reached, are counted out in full rounds: `q` rounds are complete, each has made one new version
-- (modulo 2 ^ 32), and the counter holds the messages of the round that has begun.
pub on_messages_rounds :
    (gm : GroupManager) (group_id : Bytes) (s : GroupState) (threshold : ℕ) (rs : List Bytes)
    → find group_id gm ≡ some s
    → threshold < 2 ^ 64
    → s.message_count < threshold
    → s.key.version < 2 ^ 32
    → (q : ℕ) × (t : GroupState) × (find group_id (on_messages gm group_id threshold rs) ≡ some t)
      × (s.message_count + length rs ≡ q * threshold + t.message_count)
      × (t.message_count < threshold)
      × (t.key.version ≡ (s.key.version + q) % 2 ^ 32)
on_messages_rounds gm group_id s threshold rs e h lt vs =
    let (q, total, low, made) = count_messages_rounds s threshold rs h lt vs in
    (
      q,
      count_messages s threshold rs,
      on_messages-find gm group_id threshold rs s e,
      total,
      low,
      made,
    )

-- A rotation returns the key that the group has from then on, one version (modulo 2 ^ 32) above
-- the last one, or version 1 for a new group, restarts the count, and leaves other groups alone.
pub rotate-find :
    (gm : GroupManager) (group_id other : Bytes) (reason : RotationReason) (random : Bytes)
    → (let old = or_default empty_state (find group_id gm) in
        let key = make_key ((old.key.version + 1) % 2 ^ 32) reason random in
        ((rotate gm group_id reason random).1 ≡ key)
        × (find other (rotate gm group_id reason random).0 ≡ (
            if same group_id other
            then some (record { group_id = group_id; key = key; message_count = 0 })
            else find other gm)))
unfolding rotate
rotate-find gm group_id other reason random = (refl, find-put group_id other _ gm)
