-- ===== src/Session/Reach.antt =====
-- session_manager.cpp: every history of calls, from a manager that has just been made.
use e2ee_windows.Common.{ℕ, ◌≤◌, ◌≡◌, Bytes, some, [], arith, done, Result, ok, err}
use e2ee_windows.Common.Dict.{find}
use e2ee_windows.Auth.{AuthProvider}
use e2ee_windows.Session.{
  Session, SessionManager, login, open_session, get_session, logout, cleanup,
}
use e2ee_windows.Session.View.{live, live-cleanup}
use e2ee_windows.Session.Login.{
  IsTable, login-IsTable, get_session-IsTable, logout-IsTable, cleanup-IsTable,
}

-- `SessionManager(auth, ttl)`
unfoldable pub make_manager : AuthProvider → ℕ → SessionManager
make_manager auth ttl = record { auth = some auth; ttl = ttl; sessions = [] }

pub data Step : SessionManager → SessionManager → Type 0 where
  logs_in :
      (sm sm' : SessionManager) (username password : Bytes) (now : ℕ) (random : Bytes)
      (r : Result Session)
      → login sm username password now random ≡ done (sm', r)
      → Step sm sm'
  looks_up : (sm : SessionManager) (token : Bytes) (now : ℕ) → Step sm (get_session sm token now).0
  logs_out : (sm : SessionManager) (token : Bytes) → Step sm (logout sm token)
  cleans : (sm : SessionManager) (now : ℕ) → Step sm (cleanup sm now)

pub data Reach (sm : SessionManager) : SessionManager → Type 0 where
  here : Reach sm sm
  next : {t u : SessionManager} → Reach sm t → Step t u → Reach sm u

-- A login that is refused changes nothing.
pub login_refused :
    (sm sm' : SessionManager) (username password : Bytes) (now : ℕ) (random e : Bytes)
    → login sm username password now random ≡ done (sm', err e)
    → sm' ≡ sm
unfolding login open_session
login_refused sm sm' username password now random e h = ground arith

login-IsTable_any :
    (sm sm' : SessionManager) (username password : Bytes) (now : ℕ) (random : Bytes)
    (r : Result Session)
    → login sm username password now random ≡ done (sm', r)
    → IsTable sm
    → IsTable sm'
login-IsTable_any sm sm' username password now random (ok s) h v =
    login-IsTable sm username password now random sm' s h v
login-IsTable_any sm sm' username password now random (err e) h v =
    rw (login_refused sm sm' username password now random e h) v

Step-IsTable : {t u : SessionManager} → Step t u → IsTable t → IsTable u
Step-IsTable (logs_in sm sm' username password now random r h) v =
    login-IsTable_any sm sm' username password now random r h v
Step-IsTable (looks_up sm token now) v = get_session-IsTable sm token now v
Step-IsTable (logs_out sm token) v = logout-IsTable sm token v
Step-IsTable (cleans sm now) v = cleanup-IsTable sm now v

Reach-IsTable : {t u : SessionManager} → Reach t u → IsTable t → IsTable u
Reach-IsTable here v = v
Reach-IsTable (next r s) v = Step-IsTable s (Reach-IsTable r v)

make_manager-IsTable : (auth : AuthProvider) (ttl : ℕ) → IsTable (make_manager auth ttl)
unfolding make_manager find
make_manager-IsTable auth ttl = record { unique = tt; named = λ token s e. cc }

-- After any history of calls on a new manager the table has one entry for each token, stored under
-- its own token, and a cleanup changes nothing that a lookup at that time or later can see.
pub Reach-cleanup :
    (auth : AuthProvider) (ttl : ℕ) (sm : SessionManager) (token : Bytes) (now later : ℕ)
    → Reach (make_manager auth ttl) sm
    → now ≤ later
    → IsTable sm × (live (cleanup sm now) token later ≡ live sm token later)
Reach-cleanup auth ttl sm token now later r h =
    let v = Reach-IsTable r (make_manager-IsTable auth ttl) in
    (v, live-cleanup sm token now later v.unique h)
