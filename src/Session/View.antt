-- ===== src/Session/View.antt =====
-- session_manager.cpp: which sessions a client can reach, and when.
use e2ee_windows.Common.{
  ℕ, ◌-◌, ◌≤◌, ◌≡◌, Bytes, not, Option, none, arith, same, same_iff, ltb, if◌then◌else◌,
}
use e2ee_windows.Common.Dict.{find, find-erase, find-keep, filter, IsUnique}
use e2ee_windows.Session.{
  Session, SessionManager, is_expired, checked, get_session, logout, cleanup,
}

-- The session that a token opens at a time, if there is one.
unfoldable pub live : SessionManager → Bytes → ℕ → Option Session
live sm token now = filter (λ s. not (is_expired sm.ttl now s)) (find token sm.sessions)

-- `GetSession` returns the live session, and what it drops is out of reach from then on: any token
-- opens the same session afterwards, at that time or later.
pub get_session-live :
    (sm : SessionManager) (token other : Bytes) (now later : ℕ)
    → now ≤ later
    → ((get_session sm token now).1 ≡ live sm token now)
      × (live (get_session sm token now).0 other later ≡ live sm other later)
unfolding get_session checked live is_expired
get_session-live sm token other now later h =
    (ground arith, ground (arith, find-erase token other sm.sessions, same_iff token other))

-- Nobody is logged in under a token that was logged out, and no other token is affected.
pub live-logout :
    (sm : SessionManager) (token other : Bytes) (now : ℕ)
    → live (logout sm token) other now ≡ (if same token other then none else live sm other now)
unfolding logout live
live-logout sm token other now = ground (arith, find-erase token other sm.sessions)

-- In a table with one entry for each token, `Cleanup` drops only sessions that were out of reach
-- already, for lookups at that time or later.
pub live-cleanup :
    (sm : SessionManager) (token : Bytes) (now later : ℕ)
    → IsUnique sm.sessions
    → now ≤ later
    → live (cleanup sm now) token later ≡ live sm token later
unfolding cleanup live is_expired
live-cleanup sm token now later u h =
    ground (arith, find-keep (λ s. not (ltb sm.ttl (now - s.created_at))) token sm.sessions u)
