-- ===== src/Api/Access.antt =====
-- api_service.cpp: what entering and leaving a group means for the messages to it.
use e2ee_windows.Common.{
  ℕ, ◌≤◌, ◌==◌, ◌≡◌, refl, ap, ◌∙◌, true, false, ◌&&◌, ◌||◌, not, Option, some, Bytes, text, same,
  same_refl, ok, err, if◌then◌else◌, arith,
}
use e2ee_windows.Session.{Session, SessionManager}
use e2ee_windows.Session.View.{live, get_session-live}
use e2ee_windows.Group.{GroupManager, GroupKey, RotationReason, rotate, on_message}
use e2ee_windows.Directory.{GroupDirectory, add_group, add_member, has_member}
use e2ee_windows.Directory.Members.{has_member-add_member, has_member-remove_member}
use e2ee_windows.Api.{
  ApiService, enter, quit, join_group, leave_group, kick_group, admitted, on_group_message,
}
use e2ee_windows.Api.Groups.{full, seen, group_event_lem, live_earlier, with_session_passes}

has_member-enter :
    (d : GroupDirectory) (g h u v : Bytes)
    → has_member (enter d g u) h v ≡ ((same g h && same u v) || has_member d h v)
unfolding add_group add_member
has_member-enter d g h u v =
    ground
      (arith, has_member-add_member (add_member d g u).0 g h u v, has_member-add_member d g h u v)

module _ (api : ApiService) (sm : SessionManager) (gm : GroupManager) (d : GroupDirectory)
    (s : Session) (token group_id : Bytes) where
  -- A call of the user of a session that lives through it, with a new key of the group: `JoinGroup`
  -- makes exactly that user a member of exactly that group, and answers the new version.
  pub join_group_enters :
      (now later : ℕ) (random : Bytes)
      → now ≤ later
      → live sm token later ≡ some s
      → (gm' : GroupManager) × (d' : GroupDirectory) × (join_group
            (full api sm gm d)
            token
            group_id
            now
            later
            random
          ≡ (
            full api (seen (seen sm token now) token later) gm' d',
            ok (record {
              version = (rotate gm group_id RotationReason.join random).1.version;
              reason = RotationReason.join;
            }),
          ))
        × (gm' ≡ (rotate gm group_id RotationReason.join random).0)
        × ((g v : Bytes)
            → has_member d' g v ≡ ((same group_id g && same s.username v) || has_member d g v))
  unfolding join_group rotate
  join_group_enters now later random le h = (
    _,
    enter d group_id s.username,
    group_event_lem RotationReason.join enter api sm gm d s token group_id now later random le h,
    refl,
    λ g v. has_member-enter d group_id g s.username v,
  )

  -- `KickGroup` takes the user who calls it out of the group, and nobody else: for a session that
  -- lives through the call it leaves the same members as `LeaveGroup`.
  pub kick_group-leave_group :
      (now later : ℕ) (random : Bytes)
      → now ≤ later
      → live sm token later ≡ some s
      → (d' : GroupDirectory) × ((kick_group
            (full api sm gm d)
            token
            group_id
            now
            later
            random).0.directory
          ≡ some d')
        × ((leave_group (full api sm gm d) token group_id now later random).0.directory ≡ some d')
        × ((g v : Bytes)
            → has_member d' g v ≡ (not (same group_id g && same s.username v) && has_member d g v))
  unfolding kick_group leave_group
  kick_group-leave_group now later random le h = (
    quit d group_id s.username,
    ap (λ r. r.0.directory)
        (group_event_lem RotationReason.kick quit api sm gm d s token group_id now later random le
          h),
    ap (λ r. r.0.directory)
        (group_event_lem RotationReason.leave quit api sm gm d s token group_id now later random le
          h),
    λ g v. (has_member-remove_member d group_id g s.username v).1,
  )

  -- With a session, `OnGroupMessage` counts a message exactly for the members of the group. A user
  -- who is not a member is told so, and no group changes.
  pub on_group_message_lem :
      (threshold now : ℕ) (random : Bytes)
      → live sm token now ≡ some s
      → on_group_message (full api sm gm d) token group_id threshold now random ≡ (
          if has_member d group_id s.username
          then (let (gm', rotated) =
                on_message gm group_id
                  (if threshold == 0 then api.group_threshold else threshold)
                  random in
              (full api (seen sm token now) gm' d, ok rotated))
          else (full api (seen sm token now) gm d, err (text "not in group")))
  unfolding on_group_message admitted
  on_group_message_lem threshold now random h =
      with_session_passes (text "group manager unavailable") token now (full api sm gm d) gm sm s _
        h

-- Once a user has joined a group, messages to it are accepted from the user while the session
-- lives; once the user has left it, they are refused.
pub join_leave_message :
    (api : ApiService) (sm : SessionManager) (gm : GroupManager) (d : GroupDirectory) (s : Session)
    (token group_id : Bytes) (now later last threshold : ℕ) (random random' : Bytes)
    → now ≤ later
    → later ≤ last
    → live sm token last ≡ some s
    → ((r : Option GroupKey) × ((on_group_message
            (join_group (full api sm gm d) token group_id now later random).0
            token
            group_id
            threshold
            last
            random').1
          ≡ ok r))
      × ((on_group_message
            (leave_group (full api sm gm d) token group_id now later random).0
            token
            group_id
            threshold
            last
            random').1
          ≡ err (text "not in group"))
unfolding join_group leave_group
join_leave_message api sm gm d s token group_id now later last threshold random random' le le' h =
    let h' = live_earlier sm token s later last le' h in
    let sm' = seen (seen sm token now) token later in
    let gm₁ = (rotate gm group_id RotationReason.join random).0 in
    let gm₂ = (rotate gm group_id RotationReason.leave random).0 in
    let d₁ = enter d group_id s.username in
    let d₂ = quit d group_id s.username in
    let still : live sm' token last ≡ some s =
      (get_session-live (seen sm token now) token token later last le').1
      ∙ (get_session-live sm token token now last (omega arith)).1
      ∙ h in
    let in' : has_member d₁ group_id s.username ≡ true = ground (
      arith,
      has_member-enter d group_id group_id s.username s.username,
      same_refl group_id,
      same_refl s.username,
    ) in
    let out' : has_member d₂ group_id s.username ≡ false = ground (
      arith,
      has_member-remove_member d group_id group_id s.username s.username,
      same_refl group_id,
      same_refl s.username,
    ) in
    let use_threshold = (if threshold == 0 then api.group_threshold else threshold) in
    (
      (
        (on_message gm₁ group_id use_threshold random').1,
        rw
            (group_event_lem RotationReason.join enter api sm gm d s token group_id now later random
              le h')
            (ap (λ r. r.1)
                (on_group_message_lem api sm' gm₁ d₁ s token group_id threshold last random' still)
              ∙ rw in' refl),
      ),
      rw
          (group_event_lem RotationReason.leave quit api sm gm d s token group_id now later random
            le h')
          (ap (λ r. r.1)
              (on_group_message_lem api sm' gm₂ d₂ s token group_id threshold last random' still)
            ∙ rw out' refl),
    )
