-- ===== src/App/Cleaning.antt =====
-- server_app.cpp: what `RunOnce` drops was out of reach already.
use e2ee_windows.Common.{ℕ, ◌-◌, ◌*◌, ◌≤◌, ◌≡◌, refl, none, some, Bytes, Bool-cases, inl, inr, ltb}
use e2ee_windows.Common.Dict.{IsUnique}
use e2ee_windows.Session
use e2ee_windows.Session.{SessionManager}
use e2ee_windows.Session.View.{live, live-cleanup}
use e2ee_windows.Queue
use e2ee_windows.Queue.{OfflineQueue}
use e2ee_windows.Queue.Delivery.{pending, pending-cleanup_expired}
use e2ee_windows.Group.{GroupManager}
use e2ee_windows.App.{ServerApp, Ticks, cleaned, run_once}

-- The tables hold one entry for each token and for each recipient.
pub record HasTables (app : ServerApp) (sm : SessionManager) (gm : GroupManager) (q : OfflineQueue)
    : Type 0 where
  pub sessions : app.api.sessions ≡ some sm
  pub groups : app.api.groups ≡ some gm
  pub queue : app.api.queue ≡ some q
  pub one_session : IsUnique sm.sessions
  pub one_queue : IsUnique q.messages

-- `RunOnce` of a server that is set up succeeds, and nobody can tell it by a session or a message:
-- afterwards every token opens the session, and every user has the messages, that they would have
-- without it. The groups and friendships stay.
pub run_once_lem :
    (second : ℕ) (app : ServerApp) (t : Ticks) (sm : SessionManager) (gm : GroupManager)
    (q : OfflineQueue) (token user : Bytes) (later : ℕ)
    → HasTables app sm gm q
    → t.sessions ≤ later
    → t.queue ≤ later
    → (let r = run_once second app t in
        (r.1 ≡ none)
        × (sm' : SessionManager) × (q' : OfflineQueue) × (r.0.api.sessions ≡ some sm')
        × (r.0.api.queue ≡ some q')
        × (live sm' token later ≡ live sm token later)
        × (pending q' user later ≡ pending q user later)
        × (r.0.api.groups ≡ app.api.groups)
        × (r.0.api.directory ≡ app.api.directory)
        × (r.0.api.friends ≡ app.api.friends))
unfolding run_once cleaned
run_once_lem second app t sm gm q token user later v le le' =
    elim (Bool-cases (ltb (5 * 60 * second) (t.now - app.last_cleanup))) [
      | inl due ↦
          rw (v.sessions, v.groups, due)
            (
              refl,
              Session.cleanup sm t.sessions,
              Queue.cleanup_expired q t.queue,
              refl,
              rw v.queue refl,
              live-cleanup sm token t.sessions later v.one_session le,
              pending-cleanup_expired q user t.queue later v.one_queue le',
              refl,
              refl,
              refl,
            )
      | inr early ↦
          rw (v.sessions, v.groups, early)
            (refl, sm, q, refl, v.queue, refl, refl, refl, refl, refl)
    ]
