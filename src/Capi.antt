-- ===== src/Capi.antt =====
-- server/src/c_api.cpp and server/src/listener.cpp: the server as a library. The handle is the
-- connection handler of the listener, which holds the server; null pointers and a failing
-- `malloc` are left out.
use e2ee_windows.Common.{
  Option, none, some, Bytes, Run, done, ◌>>=◌, Result, ok, err, ℕ, is_empty, if◌then◌else◌,
}
use e2ee_windows.Session
use e2ee_windows.Session.{SessionManager}
use e2ee_windows.Router.{Env}
use e2ee_windows.Connection.{ConnectionHandler, Outcome, on_data}

-- `mi_server_process`: `none` stands for 0, and `some []` for 1 with no buffer.
unfoldable pub process : ConnectionHandler → Bytes → Env → Run Outcome
process h bytes env = if is_empty bytes then done (h, none) else on_data h bytes env

-- The token, or `none` for 0.
abbrev pub token_of : Result Session.Session → Option Bytes
token_of (ok s) = some s.token
token_of (err e) = none

-- `mi_server_login`
unfoldable pub login : ConnectionHandler → Bytes → Bytes → ℕ → Bytes → Run Outcome
login h username password now random = elim h.api.sessions [
  | none ↦ done (h, none)
  | some sm ↦ (do
    (sm', r) ← Session.login sm username password now random
    done (record h { api = record h.api { sessions = some sm' } }, token_of r))
]

-- `mi_server_logout`: the channel of the token stays as it is. The answer is the returned number.
unfoldable pub logout : ConnectionHandler → Bytes → ConnectionHandler × ℕ
logout h token = elim h.api.sessions [
  | none ↦ (h, 0)
  | some sm ↦ (record h { api = record h.api { sessions = some (Session.logout sm token) } }, 1)
]
