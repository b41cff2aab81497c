-- ===== src/Api/Calls.antt =====
-- api_service.cpp: `Login`, and the files that are stored until they are read.
use e2ee_windows.Common.{ℕ, Bool, none, some, [], Bytes, text, Run, done, ◌>>=◌, Result, ok, err}
use e2ee_windows.Common.Dict.{or_default}
use e2ee_windows.Session
use e2ee_windows.Session.{Session, SessionManager}
use e2ee_windows.Storage.{OfflineStorage, StoredFileMeta, Draw, PutOk, put_file, fetch, meta}
use e2ee_windows.Api.{ApiService, with_session}

-- The token of the new session, or the error.
unfoldable pub login_answer : Result Session → Result Bytes
login_answer (ok s) = ok s.token
login_answer (err e) = err e

unfoldable pub login : ApiService → Bytes → Bytes → ℕ → Bytes → Run (ApiService × Result Bytes)
login api username password now random = elim api.sessions [
  | none ↦ done (api, err (text "session manager unavailable"))
  | some sm ↦ (do
    (sm', r) ← Session.login sm username password now random
    done (record api { sessions = some sm' }, login_answer r))
]

-- The checks before a file is stored or loaded: the storage, and the session of the token.
unfoldable pub with_storage :
    ApiService → Bytes → ℕ → ApiService × Result (OfflineStorage × Session)
with_storage api token now =
    with_session (text "storage unavailable") token now api api.storage api.sessions
      (λ api' st s. (api', ok (st, s)))

unfoldable pub store_checked :
    ApiService
    → Result (OfflineStorage × Session)
    → Bytes
    → Draw
    → ℕ
    → Run (ApiService × Result PutOk)
store_checked api (err e) bytes draw later = done (api, err e)
store_checked api (ok (st, s)) bytes draw later = do
  (st', r) ← put_file st s.username bytes draw later
  done (record api { storage = some st' }, r)

unfoldable pub store_ephemeral_file :
    ApiService → Bytes → Bytes → Draw → ℕ → ℕ → Run (ApiService × Result PutOk)
store_ephemeral_file api token bytes draw now later =
    let (api', r) = with_storage api token now in store_checked api' r bytes draw later

pub record FileDownload : Type 0 where
  pub meta : StoredFileMeta
  pub plaintext : Bytes

-- `StoredFileMeta()`
abbrev pub no_meta : StoredFileMeta
no_meta = record { id = []; owner = []; size = 0; created_at = 0 }

-- The metadata is looked up once the file has been fetched.
unfoldable pub download : OfflineStorage → Bytes → Result Bytes → Result FileDownload
download st file_id (err e) = err e
download st file_id (ok bytes) =
    ok (record { meta = or_default no_meta (meta st file_id); plaintext = bytes })

unfoldable pub load_checked :
    ApiService
    → Result (OfflineStorage × Session)
    → Bytes
    → Bytes
    → Bool
    → Run (ApiService × Result FileDownload)
load_checked api (err e) file_id key wipe_after_read = done (api, err e)
load_checked api (ok (st, s)) file_id key wipe_after_read = do
  (st', r) ← fetch st file_id key wipe_after_read
  done (record api { storage = some st' }, download st' file_id r)

unfoldable pub load_ephemeral_file :
    ApiService → Bytes → Bytes → Bytes → Bool → ℕ → Run (ApiService × Result FileDownload)
load_ephemeral_file api token file_id key wipe_after_read now =
    let (api', r) = with_storage api token now in load_checked api' r file_id key wipe_after_read
