-- ===== src/Runs/Services.antt =====
-- Runs of api_service.cpp, frame_router.cpp and connection_handler.cpp.
use e2ee_windows.Common.{
  ℕ, ◌-◌, ◌≤◌, ◌≡◌, refl, true, not, ◌&&◌, Option, some, none, List, [], ◌∷◌, ◌++◌, Bytes, arith,
  text, done, ok, err, ltb, if◌then◌else◌,
}
use e2ee_windows.Common.Text.{same}
use e2ee_windows.Common.Dict.{find, or_default}
use e2ee_windows.Pake.{DerivedKeys}
use e2ee_windows.Session.{Session, SessionManager, is_expired}
use e2ee_windows.Session.View.{live}
use e2ee_windows.Group.{GroupKey}
use e2ee_windows.Directory.{GroupDirectory, has_member}
use e2ee_windows.Queue.{OfflineQueue}
use e2ee_windows.Queue.Delivery.{pending}
use e2ee_windows.Frame.{Frame, FrameType}
use e2ee_windows.Api.{
  ApiService, make_api, join_group, leave_group, kick_group, on_group_message, enqueue_offline,
  pull_offline,
}
use e2ee_windows.Api.Groups.{full, seen, groups_unauthorized}
use e2ee_windows.Api.Access.{kick_group-leave_group, join_leave_message}
use e2ee_windows.Api.Messages.{mailing, push-pull}
use e2ee_windows.Api.Friends.{Entry, list_friends, add_friend}
use e2ee_windows.Api.Friends.Mutual.{is_friend, IsMutual}
use e2ee_windows.Api.Friends.History.{Call, Calls, Calls-IsMutual}
use e2ee_windows.Api.Friends.Listing.{listed, in_order, list_friends_lem}
use e2ee_windows.Router.{Env, with_token, handle, handle_type}
use e2ee_windows.Router.Requests.{IsAnswer, handle-IsAnswer}

abbrev no_keys : DerivedKeys
no_keys = record { root_key = []; header_key = []; kcp_key = []; ratchet_root = [] }

abbrev a_session : Session
a_session = record { token = text "ta"; username = text "ann"; keys = no_keys; created_at = 3 }

abbrev b_session : Session
b_session = record { token = text "tb"; username = text "ben"; keys = no_keys; created_at = 4 }

abbrev manager : SessionManager
manager = record {
  auth = none;
  ttl = 10;
  sessions = (text "ta", a_session) ∷ (text "tb", b_session) ∷ [];
}

abbrev directory : GroupDirectory
directory = (text "red", text "ben" ∷ []) ∷ []

abbrev service : ApiService
service = make_api (some manager) (some []) (some directory) none none 0

a_live : (now : ℕ) → now ≤ 13 → live manager (text "ta") now ≡ some a_session
unfolding live find is_expired same
a_live now h = ground arith

b_live : (now : ℕ) → now ≤ 13 → live manager (text "tb") now ≡ some b_session
unfolding live find is_expired same
b_live now h = ground arith

a_gone : live manager (text "ta") 20 ≡ none
unfolding live find is_expired same
a_gone = refl

groups_unauthorized_example :
    (let start = full service manager [] directory in
      let refused = full service (seen manager (text "ta") 20) [] directory in
      (join_group start (text "ta") (text "red") 20 21 [] ≡ (refused, err (text "unauthorized")))
      × (leave_group start (text "ta") (text "red") 20 21 [] ≡ (refused, err (text "unauthorized")))
      × (kick_group start (text "ta") (text "red") 20 21 [] ≡ (refused, err (text "unauthorized")))
      × (on_group_message start (text "ta") (text "red") 5 20 []
          ≡ (refused, err (text "unauthorized"))))
groups_unauthorized_example =
    groups_unauthorized service manager [] directory (text "ta") (text "red") 20 21 5 [] a_gone

kick_group-leave_group_example :
    (d' : GroupDirectory) × ((kick_group
        (full service manager [] directory)
        (text "tb")
        (text "red")
        5
        6
        []).0.directory
      ≡ some d')
    × ((leave_group (full service manager [] directory) (text "tb") (text "red") 5 6 []).0.directory
        ≡ some d')
    × ((g v : Bytes)
        → has_member d' g v
          ≡ (not (same (text "red") g && same (text "ben") v) && has_member directory g v))
kick_group-leave_group_example =
    kick_group-leave_group service manager [] directory b_session (text "tb") (text "red") 5 6 []
      (omega arith) (b_live 6 (omega arith))

join_leave_message_example :
    ((r : Option GroupKey) × ((on_group_message
          (join_group (full service manager [] directory) (text "ta") (text "red") 5 6 []).0
          (text "ta")
          (text "red")
          2
          7
          []).1
        ≡ ok r))
    × ((on_group_message
          (leave_group (full service manager [] directory) (text "ta") (text "red") 5 6 []).0
          (text "ta")
          (text "red")
          2
          7
          []).1
        ≡ err (text "not in group"))
join_leave_message_example =
    join_leave_message service manager [] directory a_session (text "ta") (text "red") 5 6 7 2 [] []
      (omega arith) (omega arith) (a_live 7 (omega arith))

abbrev queue : OfflineQueue
queue = record { default_ttl = 5; messages = [] }

push-pull_example :
    (let pushed =
        (enqueue_offline (mailing service manager queue) (text "ta") (text "ben") (8 ∷ []) 5 6).0 in
      let pulled = pull_offline pushed (text "tb") 7 8 in
      (pulled.1
        ≡ ok (pending queue (text "ben") 8 ++ (if ltb 5 (8 - 6) then [] else (8 ∷ []) ∷ [])))
      × ((pull_offline pulled.0 (text "tb") 9 10).1 ≡ ok []))
push-pull_example =
    push-pull service manager queue a_session b_session (text "ta") (text "tb") (8 ∷ []) 5 6 7 8 9
      10 (omega arith) (omega arith) (a_live 5 (omega arith)) (b_live 7 (omega arith))
      (b_live 9 (omega arith))

-- Everybody is known.
abbrev friendly : SessionManager
friendly = record manager {
  auth = some (record { validate = λ u p. none; user_exists = λ u. none });
}

abbrev befriended : ApiService
befriended =
    (add_friend (make_api (some friendly) none none none none 0) (text "ta") (text "ben") [] 5).0

Calls-IsMutual_example : IsMutual befriended.friends
Calls-IsMutual_example = Calls-IsMutual (some friendly) none none none none 0 befriended (
    Calls.more Calls.start
      (Call.adds (make_api (some friendly) none none none none 0) (text "ta") (text "ben") [] 5))

abbrev social : ApiService
social = record service {
  friends = (text "ann", text "zoe" ∷ text "ben" ∷ []) ∷ [];
  friend_remarks = (text "ann", (text "zoe", text "z") ∷ []) ∷ [];
}

list_friends_lem_example :
    (es : List Entry) × ((list_friends (record social { sessions = some manager }) (text "ta") 5).1
      ≡ ok es)
    × (in_order es ≡ true)
    × ((name remark : Bytes)
        → listed name remark es ≡ (
            is_friend social.friends (text "ann") name
            && same
                (or_default []
                  (find name (or_default [] (find (text "ann") social.friend_remarks))))
                remark))
list_friends_lem_example =
    list_friends_lem social manager a_session (text "ta") 5 (a_live 5 (omega arith))

abbrev env : Env
env = record { now = 5; later = 6; random = [] }

abbrev nameless : Frame
nameless = record { type = FrameType.friend_list; payload = [] }

unanswered : handle service nameless [] env ≡ done (service, none)
unfolding handle handle_type with_token
unanswered = refl

handle-IsAnswer_example : IsAnswer service FrameType.friend_list (service, none)
handle-IsAnswer_example = handle-IsAnswer service nameless [] env (service, none) unanswered
