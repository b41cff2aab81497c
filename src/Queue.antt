-- ===== src/Queue.antt =====
-- server/src/offline_storage.cpp, class OfflineQueue: messages that wait for their recipient. A
-- reading of the steady clock is an argument, in the clock's ticks, as are the lifetimes.
pub mod Delivery
use e2ee_windows.Common.{
  ℕ, ◌-◌, ◌==◌, Bool, Option, none, some, List, [], ◌∷◌, ◌++◌, Bytes, if◌then◌else◌, ltb, is_empty,
}
use e2ee_windows.Common.Dict.{Dict, find, put, erase, or_default}

pub record OfflineMessage : Type 0 where
  pub recipient : Bytes
  pub payload : Bytes
  pub created_at : ℕ
  pub ttl : ℕ

pub record OfflineQueue : Type 0 where
  pub default_ttl : ℕ
  pub messages : Dict (List OfflineMessage)

-- A lifetime of zero stands for the default.
unfoldable pub enqueue : OfflineQueue → Bytes → Bytes → ℕ → ℕ → OfflineQueue
enqueue q recipient payload ttl now =
    let msg : OfflineMessage = record {
      recipient = recipient;
      payload = payload;
      created_at = now;
      ttl = if ttl == 0 then q.default_ttl else ttl;
    } in
    record q {
      messages = put recipient (or_default [] (find recipient q.messages) ++ msg ∷ []) q.messages;
    }

-- `now - msg.created_at > msg.ttl`
unfoldable pub is_stale : ℕ → OfflineMessage → Bool
is_stale now m = ltb m.ttl (now - m.created_at)

-- The loop of `Drain`: each message is erased, and those that are not stale are returned.
unfoldable pub drain_loop : ℕ → List OfflineMessage → List Bytes
drain_loop now [] = []
drain_loop now (m ∷ ms) =
    let rest = drain_loop now ms in if is_stale now m then rest else m.payload ∷ rest

unfoldable pub drain : OfflineQueue → Bytes → ℕ → OfflineQueue × List Bytes
drain q recipient now = elim (find recipient q.messages) [
  | none ↦ (q, [])
  | some ms ↦ (record q { messages = erase recipient q.messages }, drain_loop now ms)
]

-- `std::remove_if` with the test above.
unfoldable pub fresh : ℕ → List OfflineMessage → List OfflineMessage
fresh now [] = []
fresh now (m ∷ ms) = let rest = fresh now ms in if is_stale now m then rest else m ∷ rest

-- The loop of `CleanupExpired`: a recipient with no message left loses the entry.
unfoldable pub sweep : ℕ → Dict (List OfflineMessage) → Dict (List OfflineMessage)
sweep now [] = []
sweep now ((r, ms) ∷ rest) =
    let swept = sweep now rest in
    if is_empty (fresh now ms) then swept else (r, fresh now ms) ∷ swept

unfoldable pub cleanup_expired : OfflineQueue → ℕ → OfflineQueue
cleanup_expired q now = record q { messages = sweep now q.messages }
