-- ===== src/Api/Friends/History.antt =====
-- Friendship is mutual after every history of calls on a service.
use e2ee_windows.Common.{
  done, >>=-eq-done, ℕ, ◌≡◌, refl, ◌∙◌, Bool, Option, [], Bytes, Result, ok, err, arith,
}
use e2ee_windows.Common.Dict.{find}
use e2ee_windows.Session.{Session, SessionManager}
use e2ee_windows.Directory.{contains}
use e2ee_windows.Group.{GroupManager, RotationReason}
use e2ee_windows.Directory.{GroupDirectory, contains}
use e2ee_windows.Storage.{OfflineStorage, Draw, PutOk, put_file, fetch}
use e2ee_windows.Queue.{OfflineQueue}
use e2ee_windows.Api.{
  ApiService, make_api, with_session, change_members, group_event, join_group, leave_group,
  kick_group, on_group_message, enqueue_offline, pull_offline, logout,
}
use e2ee_windows.Api.Calls.{
  FileDownload, login, with_storage, store_checked, load_checked, store_ephemeral_file,
  load_ephemeral_file,
}
use e2ee_windows.Api.Friends.{add_friend, set_friend_remark, list_friends}
use e2ee_windows.Api.Friends.Mutual.{
  IsMutual, is_friend, add_checked-IsMutual, remark_checked-friends, with_session-IsMutual,
}

-- One call on the service.
pub data Call : ApiService → ApiService → Type 0 where
  logs_in :
      (api api' : ApiService) (username password : Bytes) (now : ℕ) (random : Bytes)
      (r : Result Bytes)
      → login api username password now random ≡ done (api', r)
      → Call api api'
  logs_out : (api : ApiService) (token : Bytes) → Call api (logout api token).0
  joins :
      (api : ApiService) (token g : Bytes) (now later : ℕ) (random : Bytes)
      → Call api (join_group api token g now later random).0
  leaves :
      (api : ApiService) (token g : Bytes) (now later : ℕ) (random : Bytes)
      → Call api (leave_group api token g now later random).0
  kicks :
      (api : ApiService) (token g : Bytes) (now later : ℕ) (random : Bytes)
      → Call api (kick_group api token g now later random).0
  messages :
      (api : ApiService) (token g : Bytes) (threshold now : ℕ) (random : Bytes)
      → Call api (on_group_message api token g threshold now random).0
  pushes :
      (api : ApiService) (token recipient payload : Bytes) (now later : ℕ)
      → Call api (enqueue_offline api token recipient payload now later).0
  pulls :
      (api : ApiService) (token : Bytes) (now later : ℕ)
      → Call api (pull_offline api token now later).0
  lists : (api : ApiService) (token : Bytes) (now : ℕ) → Call api (list_friends api token now).0
  adds :
      (api : ApiService) (token friend remark : Bytes) (now : ℕ)
      → Call api (add_friend api token friend remark now).0
  remarks :
      (api : ApiService) (token friend remark : Bytes) (now : ℕ)
      → Call api (set_friend_remark api token friend remark now).0
  stores :
      (api api' : ApiService) (token bytes : Bytes) (draw : Draw) (now later : ℕ) (r : Result PutOk)
      → store_ephemeral_file api token bytes draw now later ≡ done (api', r)
      → Call api api'
  loads :
      (api api' : ApiService) (token file_id key : Bytes) (wipe : Bool) (now : ℕ)
      (r : Result FileDownload)
      → load_ephemeral_file api token file_id key wipe now ≡ done (api', r)
      → Call api api'

pub data Calls (api : ApiService) : ApiService → Type 0 where
  start : Calls api api
  more : {t u : ApiService} → Calls api t → Call t u → Calls api u

login-friends :
    (api api' : ApiService) (username password : Bytes) (now : ℕ) (random : Bytes)
    (r : Result Bytes)
    → login api username password now random ≡ done (api', r)
    → api'.friends ≡ api.friends
unfolding login
login-friends api api' username password now random r h = ground arith

logout-friends : (api : ApiService) (token : Bytes) → (logout api token).0.friends ≡ api.friends
unfolding logout
logout-friends api token = ground arith

change_members-friends :
    (change : GroupDirectory → Bytes → Bytes → GroupDirectory) (token g : Bytes) (now : ℕ)
    (api : ApiService) (d : Option GroupDirectory) (sm : Option SessionManager)
    → (change_members change token g now api d sm).friends ≡ api.friends
unfolding change_members
change_members-friends change token g now api d sm = ground arith

group_event-IsMutual :
    (reason : RotationReason) (change : GroupDirectory → Bytes → Bytes → GroupDirectory)
    (api : ApiService) (token g : Bytes) (now later : ℕ) (random : Bytes)
    → IsMutual api.friends
    → IsMutual (group_event reason change api token g now later random).0.friends
unfolding group_event
group_event-IsMutual reason change api token g now later random v =
    with_session-IsMutual _ token now api api.groups api.sessions _
      (λ api' gm s e. rw (change_members-friends, e) v) v

with_storage-friends :
    (api : ApiService) (token : Bytes) (now : ℕ)
    → (with_storage api token now).0.friends ≡ api.friends
unfolding with_storage with_session
with_storage-friends api token now = ground arith

store_checked-friends :
    (api api' : ApiService) (c : Result (OfflineStorage × Session)) (bytes : Bytes) (draw : Draw)
    (later : ℕ) (r : Result PutOk)
    → store_checked api c bytes draw later ≡ done (api', r)
    → api'.friends ≡ api.friends
unfolding store_checked
store_checked-friends api api' (err e) bytes draw later r h = ground arith
store_checked-friends api api' (ok (st, s)) bytes draw later r h =
    let (x, e, q) = >>=-eq-done (put_file st s.username bytes draw later) _ h in ground arith

load_checked-friends :
    (api api' : ApiService) (c : Result (OfflineStorage × Session)) (file_id key : Bytes)
    (wipe : Bool) (r : Result FileDownload)
    → load_checked api c file_id key wipe ≡ done (api', r)
    → api'.friends ≡ api.friends
unfolding load_checked
load_checked-friends api api' (err e) file_id key wipe r h = ground arith
load_checked-friends api api' (ok (st, s)) file_id key wipe r h =
    let (x, e, q) = >>=-eq-done (fetch st file_id key wipe) _ h in ground arith

-- A call that leaves the friendships as they are.
same_friends :
    (api api' : ApiService)
    → api'.friends ≡ api.friends
    → IsMutual api.friends
    → IsMutual api'.friends
same_friends api api' e v = rw e v

Call-IsMutual : {t u : ApiService} → Call t u → IsMutual t.friends → IsMutual u.friends
unfolding join_group leave_group kick_group on_group_message enqueue_offline pull_offline
    list_friends add_friend set_friend_remark store_ephemeral_file load_ephemeral_file
Call-IsMutual (logs_in api api' username password now random r h) v =
    same_friends api api' (login-friends api api' username password now random r h) v
Call-IsMutual (logs_out api token) v =
    same_friends api (logout api token).0 (logout-friends api token) v
Call-IsMutual (joins api token g now later random) v =
    group_event-IsMutual _ _ api token g now later random v
Call-IsMutual (leaves api token g now later random) v =
    group_event-IsMutual _ _ api token g now later random v
Call-IsMutual (kicks api token g now later random) v =
    group_event-IsMutual _ _ api token g now later random v
Call-IsMutual (messages api token g threshold now random) v =
    with_session-IsMutual _ token now api api.groups api.sessions _
      (λ api' gm s e. ground (arith, v)) v
Call-IsMutual (pushes api token recipient payload now later) v =
    with_session-IsMutual _ token now api api.queue api.sessions _ (λ api' q s e. rw e v) v
Call-IsMutual (pulls api token now later) v =
    with_session-IsMutual _ token now api api.queue api.sessions _ (λ api' q s e. rw e v) v
Call-IsMutual (lists api token now) v =
    with_session-IsMutual _ token now api api.sessions api.sessions _ (λ api' sm s e. rw e v) v
Call-IsMutual (adds api token friend remark now) v =
    with_session-IsMutual _ token now api api.sessions api.sessions _
      (λ api' sm s e. add_checked-IsMutual api' sm s friend remark (rw e v)) v
Call-IsMutual (remarks api token friend remark now) v =
    with_session-IsMutual _ token now api api.sessions api.sessions _
      (λ api' sm s e. rw (remark_checked-friends, e) v) v
Call-IsMutual (stores api api' token bytes draw now later r h) v =
    let c = with_storage api token now in
    same_friends api api'
      (store_checked-friends c.0 api' c.1 bytes draw later r h ∙ with_storage-friends api token now)
      v
Call-IsMutual (loads api api' token file_id key wipe now r h) v =
    let c = with_storage api token now in
    same_friends api api'
      (load_checked-friends c.0 api' c.1 file_id key wipe r h ∙ with_storage-friends api token now)
      v

Calls-IsMutual_from : {t u : ApiService} → Calls t u → IsMutual t.friends → IsMutual u.friends
Calls-IsMutual_from start v = v
Calls-IsMutual_from (more cs c) v = Call-IsMutual c (Calls-IsMutual_from cs v)

nobody : IsMutual []
unfolding is_friend find contains
nobody = record { both = λ a b. refl; distinct = λ a. refl }

-- After any history of calls on a new service, both sides know of every friendship, and nobody is
-- among their own friends.
pub Calls-IsMutual :
    (sm : Option SessionManager) (gm : Option GroupManager) (d : Option GroupDirectory)
    (st : Option OfflineStorage) (q : Option OfflineQueue) (threshold : ℕ) (api : ApiService)
    → Calls (make_api sm gm d st q threshold) api
    → IsMutual api.friends
unfolding make_api
Calls-IsMutual sm gm d st q threshold api cs = Calls-IsMutual_from cs nobody
