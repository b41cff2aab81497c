-- ===== src/Session.antt =====
-- server/src/session_manager.cpp. A reading of the steady clock is an argument, in the clock's
-- ticks, as is `ttl`; the 32 random bytes of a token are an argument.
pub mod View
pub mod Login
pub mod Reach
use e2ee_windows.Common.{
  ℕ, ◌+◌, ◌-◌, ◌/◌, ◌%◌, Bool, not, Option, none, some, [], ◌∷◌, Bytes, text, Run, done, fault,
  ◌>>=◌, Result, ok, err, if◌then◌else◌, ltb,
}
use e2ee_windows.Common.Dict.{Dict, find, put, erase, keep}
use e2ee_windows.Pake.{DerivedKeys, derive_keys_from_credentials}
use e2ee_windows.Auth.{AuthProvider}

pub record Session : Type 0 where
  pub token : Bytes
  pub username : Bytes
  pub keys : DerivedKeys
  pub created_at : ℕ

pub record SessionManager : Type 0 where
  pub auth : Option AuthProvider
  pub ttl : ℕ
  pub sessions : Dict Session

-- `hex[v]`
abbrev pub hex_digit : ℕ → ℕ
hex_digit v = if ltb v 10 then v + b'0' else v - 10 + b'a'

-- `GenerateToken` on the bytes that the generator draws.
unfoldable pub hex_string : Bytes → Bytes
hex_string [] = []
hex_string (v ∷ vs) = hex_digit (v / 16) ∷ hex_digit (v % 16) ∷ hex_string vs

-- `now - created_at > ttl_`
unfoldable pub is_expired : ℕ → ℕ → Session → Bool
is_expired ttl now s = ltb ttl (now - s.created_at)

unfoldable pub open_session :
    SessionManager → Bytes → ℕ → Bytes → Result DerivedKeys → SessionManager × Result Session
open_session sm username now random (err e) = (sm, err e)
open_session sm username now random (ok keys) =
    let session : Session = record {
      token = hex_string random;
      username = username;
      keys = keys;
      created_at = now;
    } in
    (record sm { sessions = put session.token session sm.sessions }, ok session)

unfoldable pub validate : Option AuthProvider → Bytes → Bytes → Option Bytes
validate none username password = some (text "auth provider missing")
validate (some a) username password = a.validate username password

unfoldable pub login :
    SessionManager → Bytes → Bytes → ℕ → Bytes → Run (SessionManager × Result Session)
login sm username password now random = elim (validate sm.auth username password) [
  | some e ↦ done (sm, err e)
  | none ↦ (do
    keys ← derive_keys_from_credentials username password
    done (open_session sm username now random keys))
]

unfoldable pub user_exists : SessionManager → Bytes → Option Bytes
user_exists sm username = elim sm.auth [
  | none ↦ some (text "auth provider missing")
  | some a ↦ a.user_exists username
]

unfoldable pub checked :
    SessionManager → Bytes → ℕ → Option Session → SessionManager × Option Session
checked sm token now none = (sm, none)
checked sm token now (some s) =
    if is_expired sm.ttl now s
    then (record sm { sessions = erase token sm.sessions }, none)
    else (sm, some s)

unfoldable pub get_session : SessionManager → Bytes → ℕ → SessionManager × Option Session
get_session sm token now = checked sm token now (find token sm.sessions)

-- `s->keys`
abbrev pub session_keys : Option Session → Option DerivedKeys
session_keys none = none
session_keys (some s) = some s.keys

unfoldable pub get_keys : SessionManager → Bytes → ℕ → SessionManager × Option DerivedKeys
get_keys sm token now = let (sm', s) = get_session sm token now in (sm', session_keys s)

unfoldable pub logout : SessionManager → Bytes → SessionManager
logout sm token = record sm { sessions = erase token sm.sessions }

unfoldable pub cleanup : SessionManager → ℕ → SessionManager
cleanup sm now = record sm { sessions = keep (λ s. not (is_expired sm.ttl now s)) sm.sessions }
