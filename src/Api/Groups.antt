-- ===== src/Api/Groups.antt =====
-- api_service.cpp: who may change and use a group, and what that does.
use e2ee_windows.Common.{
  ℕ, ◌≤◌, ◌≡◌, refl, ap, ◌∙◌, none, some, Bytes, text, Result, ok, err, arith,
}
use e2ee_windows.Session.{Session, SessionManager, get_session, is_expired}
use e2ee_windows.Session.View.{live, get_session-live}
use e2ee_windows.Group.{GroupManager, RotationReason, rotate}
use e2ee_windows.Directory.{GroupDirectory}
use e2ee_windows.Api.{
  ApiService, GroupEvent, with_session, change_members, group_event, join_group, leave_group,
  kick_group, on_group_message,
}

-- What an operation answers to a token that opens no session.
with_session_refuses :
    {A R : Type 0} (missing token : Bytes) (now : ℕ) (api : ApiService) (a : A)
    (sm : SessionManager) (act : ApiService → A → Session → ApiService × Result R)
    → live sm token now ≡ none
    → with_session missing token now api (some a) (some sm) act
      ≡ (record api { sessions = some (get_session sm token now).0 }, err (text "unauthorized"))
unfolding with_session
with_session_refuses missing token now api a sm act h =
    rw (with_session, (get_session-live sm token token now now (omega arith)).0, h) refl

pub with_session_passes :
    {A R : Type 0} (missing token : Bytes) (now : ℕ) (api : ApiService) (a : A)
    (sm : SessionManager) (s : Session) (act : ApiService → A → Session → ApiService × Result R)
    → live sm token now ≡ some s
    → with_session missing token now api (some a) (some sm) act
      ≡ act (record api { sessions = some (get_session sm token now).0 }) a s
unfolding with_session
with_session_passes missing token now api a sm s act h =
    rw (with_session, (get_session-live sm token token now now (omega arith)).0, h) refl

-- A service that has a manager of sessions, one of groups, and a directory.
abbrev pub full : ApiService → SessionManager → GroupManager → GroupDirectory → ApiService
full api sm gm d = record api { sessions = some sm; groups = some gm; directory = some d }

-- The manager behind a lookup.
abbrev pub seen : SessionManager → Bytes → ℕ → SessionManager
seen sm token now = (get_session sm token now).0

-- A token that opens no session is refused by every operation on groups, and changes nothing but
-- that an expired session is dropped.
pub groups_unauthorized :
    (api : ApiService) (sm : SessionManager) (gm : GroupManager) (d : GroupDirectory)
    (token group_id : Bytes) (now later threshold : ℕ) (random : Bytes)
    → live sm token now ≡ none
    → (let start = full api sm gm d in
        let refused = full api (seen sm token now) gm d in
        (join_group start token group_id now later random ≡ (refused, err (text "unauthorized")))
        × (leave_group start token group_id now later random ≡ (refused, err (text "unauthorized")))
        × (kick_group start token group_id now later random ≡ (refused, err (text "unauthorized")))
        × (on_group_message start token group_id threshold now random
            ≡ (refused, err (text "unauthorized"))))
unfolding join_group leave_group kick_group group_event on_group_message
groups_unauthorized api sm gm d token group_id now later threshold random h =
    let start = full api sm gm d in
    let missing = text "group manager unavailable" in
    (
      with_session_refuses missing token now start gm sm _ h,
      with_session_refuses missing token now start gm sm _ h,
      with_session_refuses missing token now start gm sm _ h,
      with_session_refuses missing token now start gm sm _ h,
    )

pub live_earlier :
    (sm : SessionManager) (token : Bytes) (s : Session) (now later : ℕ)
    → now ≤ later
    → live sm token later ≡ some s
    → live sm token now ≡ some s
unfolding live is_expired
live_earlier sm token s now later h e = ground arith

change_members_runs :
    (change : GroupDirectory → Bytes → Bytes → GroupDirectory) (token group_id : Bytes) (now : ℕ)
    (api : ApiService) (d : GroupDirectory) (sm : SessionManager) (s : Session)
    → live sm token now ≡ some s
    → change_members change token group_id now api (some d) (some sm) ≡ record api {
      sessions = some (seen sm token now);
      directory = some (change d group_id s.username);
    }
unfolding change_members
change_members_runs change token group_id now api d sm s h =
    rw (change_members, (get_session-live sm token token now now (omega arith)).0, h) refl

-- A call on a group by a token whose session lives through it.
pub group_event_lem :
    (reason : RotationReason) (change : GroupDirectory → Bytes → Bytes → GroupDirectory)
    (api : ApiService) (sm : SessionManager) (gm : GroupManager) (d : GroupDirectory) (s : Session)
    (token group_id : Bytes) (now later : ℕ) (random : Bytes)
    → now ≤ later
    → live sm token later ≡ some s
    → (let (gm', key) = rotate gm group_id reason random in
        group_event reason change (full api sm gm d) token group_id now later random ≡ (
          full api (seen (seen sm token now) token later) gm' (change d group_id s.username),
          ok (record { version = key.version; reason = key.reason }),
        ))
unfolding group_event
group_event_lem reason change api sm gm d s token group_id now later random le h =
    let (gm', key) = rotate gm group_id reason random in
    let event : GroupEvent = record { version = key.version; reason = key.reason } in
    with_session_passes (text "group manager unavailable") token now (full api sm gm d) gm sm s _
      (live_earlier sm token s now later le h)
    ∙ ap (λ (a : ApiService). (a, ok event))
        (change_members_runs change token group_id later (full api (seen sm token now) gm' d) d
          (seen sm token now) s ((get_session-live sm token token now later le).1 ∙ h))
