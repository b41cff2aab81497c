-- ===== src/Api.antt =====
-- server/src/api_service.cpp and server/include/api_service.h: the operations that the server offers.
-- Friendships kept in memory are in Api/Friends, those kept in a database (built with
-- MI_E2EE_ENABLE_MYSQL) in Api/Tables. A component that is not there is `none`. Each reading of the clock within a call is an argument of its own, in their order, as
-- are the random bytes that a call draws.
pub mod Groups
pub mod Access
pub mod Calls
pub mod Friends
pub mod Messages
pub mod Tables
use e2ee_windows.Common.{
  ℕ, ◌==◌, Bool, true, false, Option, none, some, List, [], ◌∷◌, Bytes, text, same, Run, done,
  fault, ◌>>=◌, Result, ok, err, if◌then◌else◌, length, ltb, is_empty,
}
use e2ee_windows.Common.Dict.{Dict, find, put, or_default}
use e2ee_windows.Session
use e2ee_windows.Session.{Session, SessionManager, get_session}
use e2ee_windows.Group.{GroupManager, GroupKey, RotationReason, rotate, on_message, get_key}
use e2ee_windows.Directory.{
  GroupDirectory, insert, add_group, add_member, remove_member, has_member, members,
}
use e2ee_windows.Queue.{OfflineQueue, enqueue, drain}
use e2ee_windows.Storage.{OfflineStorage}

pub record ApiService : Type 0 where
  pub sessions : Option SessionManager
  pub groups : Option GroupManager
  pub directory : Option GroupDirectory
  pub storage : Option OfflineStorage
  pub queue : Option OfflineQueue
  pub group_threshold : ℕ
  pub friends : Dict (List Bytes)
  pub friend_remarks : Dict (Dict Bytes)

-- The constructor: a threshold of zero stands for 10000.
unfoldable pub make_api :
    Option SessionManager
    → Option GroupManager
    → Option GroupDirectory
    → Option OfflineStorage
    → Option OfflineQueue
    → ℕ
    → ApiService
make_api sessions groups directory storage queue group_threshold = record {
  sessions = sessions;
  groups = groups;
  directory = directory;
  storage = storage;
  queue = queue;
  group_threshold = if group_threshold == 0 then 10000 else group_threshold;
  friends = [];
  friend_remarks = [];
}

-- The first steps of an operation that needs another component, `part`: both it and the manager are
-- there, and `GetSession` finds a session at `now`; `act` is the rest. The manager is put back as
-- the lookup leaves it.
unfoldable pub with_session :
    {A R : Type 0}
    → Bytes
    → Bytes
    → ℕ
    → ApiService
    → Option A
    → Option SessionManager
    → (ApiService → A → Session → ApiService × Result R)
    → ApiService × Result R
with_session missing token now api none sm act = (api, err missing)
with_session missing token now api (some a) none act = (api, err missing)
with_session missing token now api (some a) (some sm) act =
    let (sm', found) = get_session sm token now in
    let api' : ApiService = record api { sessions = some sm' } in
    elim found [ none ↦ (api', err (text "unauthorized")) | some s ↦ act api' a s ]

pub record GroupEvent : Type 0 where
  pub version : ℕ
  pub reason : RotationReason

-- `if (auto s = sessions_->GetSession(token))` and what follows it, for a directory that is there.
unfoldable pub change_members :
    (GroupDirectory → Bytes → Bytes → GroupDirectory)
    → Bytes
    → Bytes
    → ℕ
    → ApiService
    → Option GroupDirectory
    → Option SessionManager
    → ApiService
change_members change token group_id now api none sm = api
change_members change token group_id now api (some d) none = api
change_members change token group_id now api (some d) (some sm) =
    let (sm', found) = get_session sm token now in
    let api' : ApiService = record api { sessions = some sm' } in
    elim found [
      | none ↦ api'
      | some s ↦ record api' { directory = some (change d group_id s.username) }
    ]

-- `JoinGroup`, `LeaveGroup` and `KickGroup`, by the reason and the change of the directory. The
-- session is looked up at `now`, and again at `later` where there is a directory.
unfoldable pub group_event :
    RotationReason
    → (GroupDirectory → Bytes → Bytes → GroupDirectory)
    → ApiService
    → Bytes
    → Bytes
    → ℕ
    → ℕ
    → Bytes
    → ApiService × Result GroupEvent
group_event reason change api token group_id now later random =
    with_session (text "group manager unavailable") token now api api.groups api.sessions
      (λ api' gm s.
        let (gm', key) = rotate gm group_id reason random in
        let api'' : ApiService = record api' { groups = some gm' } in
        (
          change_members change token group_id later api'' api''.directory api''.sessions,
          ok (record { version = key.version; reason = key.reason }),
        ))

-- `AddGroup`, then `AddMember`, of the user of the session.
abbrev pub enter : GroupDirectory → Bytes → Bytes → GroupDirectory
enter d group_id user = (add_member (add_group d group_id user).0 group_id user).0

abbrev pub quit : GroupDirectory → Bytes → Bytes → GroupDirectory
quit d group_id user = (remove_member d group_id user).0

unfoldable pub join_group :
    ApiService → Bytes → Bytes → ℕ → ℕ → Bytes → ApiService × Result GroupEvent
join_group = group_event RotationReason.join enter

unfoldable pub leave_group :
    ApiService → Bytes → Bytes → ℕ → ℕ → Bytes → ApiService × Result GroupEvent
leave_group = group_event RotationReason.leave quit

unfoldable pub kick_group :
    ApiService → Bytes → Bytes → ℕ → ℕ → Bytes → ApiService × Result GroupEvent
kick_group = group_event RotationReason.kick quit

-- Whether the directory lets a user write to a group; without a directory everybody may.
unfoldable pub admitted : Option GroupDirectory → Bytes → Bytes → Bool
admitted none group_id user = true
admitted (some d) group_id user = has_member d group_id user

-- A threshold of zero stands for the one of the service.
unfoldable pub on_group_message :
    ApiService → Bytes → Bytes → ℕ → ℕ → Bytes → ApiService × Result (Option GroupKey)
on_group_message api token group_id threshold now random =
    with_session (text "group manager unavailable") token now api api.groups api.sessions
      (λ api' gm s.
        let use_threshold = (if threshold == 0 then api.group_threshold else threshold) in
        let (gm', rotated) = on_message gm group_id use_threshold random in
        if admitted api'.directory group_id s.username
        then (record api' { groups = some gm' }, ok rotated)
        else (api', err (text "not in group")))

unfoldable pub current_group_key : ApiService → Bytes → Option GroupKey
current_group_key api group_id = elim api.groups [ none ↦ none | some gm ↦ get_key gm group_id ]

unfoldable pub group_members : ApiService → Bytes → List Bytes
group_members api group_id = elim api.directory [ none ↦ [] | some d ↦ members d group_id ]

unfoldable pub logout : ApiService → Bytes → ApiService × Result {0} Unit
logout api token = elim api.sessions [
  | none ↦ (api, err (text "session manager unavailable"))
  | some sm ↦ (record api { sessions = some (Session.logout sm token) }, ok tt)
]

-- `Enqueue` with the default lifetime, at `later`.
unfoldable pub enqueue_offline :
    ApiService → Bytes → Bytes → Bytes → ℕ → ℕ → ApiService × Result {0} Unit
enqueue_offline api token recipient payload now later =
    with_session (text "queue unavailable") token now api api.queue api.sessions
      (λ api' q s. (record api' { queue = some (enqueue q recipient payload 0 later) }, ok tt))

unfoldable pub pull_offline : ApiService → Bytes → ℕ → ℕ → ApiService × Result (List Bytes)
pull_offline api token now later =
    with_session (text "queue unavailable") token now api api.queue api.sessions (λ api' q s.
      let (q', messages) = drain q s.username later in
      (record api' { queue = some q' }, ok messages))
