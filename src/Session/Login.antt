-- ===== src/Session/Login.antt =====
-- session_manager.cpp: what a login gives, and the invariant of the table of sessions.
use e2ee_windows.Common.{
  ℕ, ◌-◌, ◌≤◌, ◌≡◌, Bytes, not, none, some, arith, same, same_iff, ltb, if◌then◌else◌, done, ok,
}
use e2ee_windows.Common.Dict.{
  find, put, find-erase, find-put, find-keep, IsUnique, erase-IsUnique, keep-IsUnique, put-IsUnique,
}
use e2ee_windows.Pake.{derive_keys_from_credentials}
use e2ee_windows.Session.{
  Session, SessionManager, hex_string, is_expired, open_session, validate, login, checked,
  get_session, logout, cleanup,
}
use e2ee_windows.Session.View.{live}

-- A successful login, by its parts.
pub record IsLogin (sm : SessionManager) (username password : Bytes) (now : ℕ) (random : Bytes)
    (sm' : SessionManager) (s : Session) : Type 0 where
  pub accepted : validate sm.auth username password ≡ none
  pub keys : derive_keys_from_credentials username password ≡ done (ok s.keys)
  pub token : s.token ≡ hex_string random
  pub username' : s.username ≡ username
  pub created : s.created_at ≡ now
  pub stored : sm' ≡ record sm { sessions = put s.token s sm.sessions }

pub login-IsLogin :
    (sm : SessionManager) (username password : Bytes) (now : ℕ) (random : Bytes)
    (sm' : SessionManager) (s : Session)
    → login sm username password now random ≡ done (sm', ok s)
    → IsLogin sm username password now random sm' s
unfolding login open_session
login-IsLogin sm username password now random sm' s h = ground arith

-- The table has one entry for each token, stored under the token that the entry holds.
pub record IsTable (sm : SessionManager) : Type 0 where
  pub unique : IsUnique sm.sessions
  pub named : (token : Bytes) (s : Session) → find token sm.sessions ≡ some s → s.token ≡ token

-- After a successful login the new token opens the new session until more than the lifetime has
-- passed, and every other token opens what it opened before.
pub login-live :
    (sm : SessionManager) (username password : Bytes) (now : ℕ) (random : Bytes)
    (sm' : SessionManager) (s : Session)
    → login sm username password now random ≡ done (sm', ok s)
    → (other : Bytes) (later : ℕ) → now ≤ later
    → live sm' other later ≡ (
        if same s.token other
        then (if ltb sm.ttl (later - now) then none else some s)
        else live sm other later)
unfolding live is_expired
login-live sm username password now random sm' s h other later le =
    let l = login-IsLogin sm username password now random sm' s h in
    ground (arith, l.stored, l.created, find-put s.token other s sm.sessions)

pub login-IsTable :
    (sm : SessionManager) (username password : Bytes) (now : ℕ) (random : Bytes)
    (sm' : SessionManager) (s : Session)
    → login sm username password now random ≡ done (sm', ok s)
    → IsTable sm
    → IsTable sm'
login-IsTable sm username password now random sm' s h v =
    let l = login-IsLogin sm username password now random sm' s h in
    record {
      unique = ground (arith, l.stored, put-IsUnique s.token s sm.sessions v.unique);
      named = λ token t e. ground (
        arith,
        l.stored,
        find-put s.token token s sm.sessions,
        same_iff s.token token,
        v.named token t,
      );
    }

pub get_session-IsTable :
    (sm : SessionManager) (token : Bytes) (now : ℕ)
    → IsTable sm
    → IsTable (get_session sm token now).0
unfolding get_session checked
get_session-IsTable sm token now v = record {
  unique = ground (arith, erase-IsUnique token sm.sessions v.unique);
  named = λ t s e. ground (arith, find-erase token t sm.sessions, v.named t s);
}

pub logout-IsTable : (sm : SessionManager) (token : Bytes) → IsTable sm → IsTable (logout sm token)
unfolding logout
logout-IsTable sm token v = record {
  unique = erase-IsUnique token sm.sessions v.unique;
  named = λ t s e. ground (arith, find-erase token t sm.sessions, v.named t s);
}

pub cleanup-IsTable : (sm : SessionManager) (now : ℕ) → IsTable sm → IsTable (cleanup sm now)
unfolding cleanup
cleanup-IsTable sm now v = record {
  unique = keep-IsUnique (λ s. not (is_expired sm.ttl now s)) sm.sessions v.unique;
  named = λ t s e.
      ground
        (arith, find-keep (λ s. not (is_expired sm.ttl now s)) t sm.sessions v.unique, v.named t s);
}
