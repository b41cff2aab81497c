-- ===== src/Queue/Delivery.antt =====
-- class OfflineQueue: what a recipient gets.
use e2ee_windows.Common.{
  ℕ, ◌-◌, ◌≤◌, ◌==◌, ◌≡◌, refl, true, none, List, [], ◌∷◌, ◌++◌, Bytes, if◌then◌else◌, ltb,
  is_empty, arith, same, same_iff,
}
use e2ee_windows.Common.Dict.{Dict, find, or_default, find-put, find-erase, IsUnique}
use e2ee_windows.Queue.{
  OfflineMessage, OfflineQueue, enqueue, is_stale, drain_loop, drain, fresh, sweep, cleanup_expired,
}

-- The payloads that wait for a recipient at a time, oldest first.
unfoldable pub pending : OfflineQueue → Bytes → ℕ → List Bytes
pending q recipient now = drain_loop now (or_default [] (find recipient q.messages))

nothing : (now : ℕ) → drain_loop now [] ≡ []
unfolding drain_loop
nothing now = refl

-- `Drain` returns what is pending, takes all of it away, and leaves other recipients alone.
pub drain-pending :
    (q : OfflineQueue) (recipient other : Bytes) (now later : ℕ)
    → ((drain q recipient now).1 ≡ pending q recipient now)
      × (pending (drain q recipient now).0 other later
          ≡ (if same recipient other then [] else pending q other later))
unfolding drain pending
drain-pending q recipient other now later = ground (
  arith,
  nothing now,
  nothing later,
  find-erase recipient other q.messages,
  same_iff recipient other,
)

drain_loop-append :
    (now : ℕ) (ms ns : List OfflineMessage)
    → drain_loop now (ms ++ ns) ≡ drain_loop now ms ++ drain_loop now ns
unfolding drain_loop
drain_loop-append now [] ns = refl
drain_loop-append now (m ∷ ms) ns = ground (arith, drain_loop-append now ms ns)

drain_loop_one :
    (now : ℕ) (m : OfflineMessage)
    → drain_loop now (m ∷ []) ≡ (if ltb m.ttl (now - m.created_at) then [] else m.payload ∷ [])
unfolding drain_loop is_stale
drain_loop_one now m = refl

-- A message comes behind those that its recipient has already, for as long as it lives.
pub pending-enqueue :
    (q : OfflineQueue) (recipient other payload : Bytes) (ttl now later : ℕ)
    → pending (enqueue q recipient payload ttl now) other later ≡ (
        if same recipient other
        then pending q recipient later
          ++ (if ltb (if ttl == 0 then q.default_ttl else ttl) (later - now)
              then []
              else payload ∷ [])
        else pending q other later)
unfolding enqueue pending
pending-enqueue q recipient other payload ttl now later =
    let life = (if ttl == 0 then q.default_ttl else ttl) in
    let msg : OfflineMessage = record {
      recipient = recipient;
      payload = payload;
      created_at = now;
      ttl = life;
    } in
    let old = or_default [] (find recipient q.messages) in
    ground (
      arith,
      find-put recipient other (old ++ msg ∷ []) q.messages,
      drain_loop-append later old (msg ∷ []),
      drain_loop_one later msg,
    )

fresh_empty :
    (now later : ℕ) (ms : List OfflineMessage)
    → now ≤ later
    → is_empty (fresh now ms) ≡ true
    → drain_loop later ms ≡ []
unfolding fresh drain_loop is_stale
fresh_empty now later [] h e = refl
fresh_empty now later (m ∷ ms) h e = ground (arith, fresh_empty now later ms h)

drain_loop-fresh :
    (now later : ℕ) (ms : List OfflineMessage)
    → now ≤ later
    → drain_loop later (fresh now ms) ≡ drain_loop later ms
unfolding fresh drain_loop is_stale
drain_loop-fresh now later [] h = refl
drain_loop-fresh now later (m ∷ ms) h = ground (arith, drain_loop-fresh now later ms h)

find-sweep_missing :
    (now : ℕ) (r : Bytes) (d : Dict (List OfflineMessage))
    → find r d ≡ none
    → find r (sweep now d) ≡ none
unfolding find sweep
find-sweep_missing now r [] h = refl
find-sweep_missing now r ((k, ms) ∷ d) h = ground (arith, find-sweep_missing now r d)

drain_loop-sweep :
    (now later : ℕ) (r : Bytes) (d : Dict (List OfflineMessage))
    → IsUnique d
    → now ≤ later
    → drain_loop later (or_default [] (find r (sweep now d)))
      ≡ drain_loop later (or_default [] (find r d))
unfolding find sweep
drain_loop-sweep now later r [] u h = refl
drain_loop-sweep now later r ((k, ms) ∷ d) u h = ground (
  arith,
  same_iff k r,
  fresh_empty now later ms h,
  drain_loop-fresh now later ms h,
  find-sweep_missing now k d,
  drain_loop-sweep now later r d u.1 h,
  nothing later,
)

-- A cleanup takes away only what no recipient would get any more.
pub pending-cleanup_expired :
    (q : OfflineQueue) (recipient : Bytes) (now later : ℕ)
    → IsUnique q.messages
    → now ≤ later
    → pending (cleanup_expired q now) recipient later ≡ pending q recipient later
unfolding cleanup_expired pending
pending-cleanup_expired q recipient now later u h =
    drain_loop-sweep now later recipient q.messages u h
