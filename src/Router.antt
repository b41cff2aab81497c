-- ===== src/Router.antt =====
-- server/src/frame_router.cpp: a request frame is read, handed to the service, and answered.
pub mod Encoding
pub mod Reading
pub mod Requests
use e2ee_windows.Common.{
  ℕ, ◌==◌, Bool, Option, none, some, List, [], ◌∷◌, Bytes, text, Run, done, fault, ◌>>=◌, Result,
  ok, err, if◌then◌else◌, is_empty,
}
use e2ee_windows.Frame.{Frame, FrameType}
use e2ee_windows.Api
use e2ee_windows.Api.{
  ApiService, GroupEvent, join_group, leave_group, kick_group, on_group_message, enqueue_offline,
  pull_offline,
}
use e2ee_windows.Api.Calls.{login}
use e2ee_windows.Api.Friends.{list_friends, add_friend, set_friend_remark}
use e2ee_windows.Router.Encoding.{
  encode_login_resp, encode_plain_resp, encode_group_event_resp, encode_group_message_resp,
  encode_offline_pull_resp, encode_friend_list_resp,
}
use e2ee_windows.Router.Reading.{read_two, read_friend, read_message, read_push, read_event}

-- What one call sees of the world: the clock when it starts, the clock at a second reading, and the
-- random bytes that it draws.
pub record Env : Type 0 where
  pub now : ℕ
  pub later : ℕ
  pub random : Bytes

-- The state behind a call, and the frame that answers it; `none` stands for `false`.
abbrev pub Answer : Type 0
Answer = ApiService × Option Frame

-- `out.payload` set from a response, under the type of the request.
unfoldable pub answer : {R : Type 0} → FrameType → (R → Bytes) → ApiService × R → Answer
answer type encode (api, r) = (api, some (record { type = type; payload = encode r }))

-- `JoinGroup`, `LeaveGroup` or `KickGroup`, by the action byte.
unfoldable pub group_action : ApiService → Bytes → Env → ℕ → Bytes → ApiService × Result GroupEvent
group_action api token env action group_id =
    let joined = join_group api token group_id env.now env.later env.random in
    let left = leave_group api token group_id env.now env.later env.random in
    let kicked = kick_group api token group_id env.now env.later env.random in
    if action == 0
    then joined
    else if action == 1
    then left
    else if action == 2
    then kicked
    else (api, err (text "invalid group action"))

-- A request whose fields were read; where one could not be, the state stays and there is no answer.
unfoldable pub with_fields : {A : Type 0} → ApiService → Option A → (A → Answer) → Answer
with_fields api none act = (api, none)
with_fields api (some a) act = act a

-- The requests that need a token.
unfoldable pub with_token : ApiService → Bytes → Answer → Answer
with_token api token act = if is_empty token then (api, none) else act

unfoldable pub handle_login : ApiService → Env → Option (Bytes × Bytes) → Run Answer
handle_login api env none = done (api, none)
handle_login api env (some (username, password)) = do
  r ← login api username password env.now env.random
  done (answer FrameType.login encode_login_resp r)

-- The cases of `Handle`, for a router that has a service.
unfoldable pub handle_type : FrameType → ApiService → Bytes → Bytes → Env → Run Answer
handle_type FrameType.login api bs token env = handle_login api env (read_two bs)
handle_type FrameType.logout api bs token env =
    done (with_token api token (answer FrameType.logout encode_plain_resp (Api.logout api token)))
handle_type FrameType.group_event api bs token env = done (
    with_fields api (read_event bs) (λ (action, group_id).
      answer FrameType.group_event encode_group_event_resp
        (group_action api token env action group_id)))
handle_type FrameType.message api bs token env = done (
    with_fields api (read_message api.group_threshold bs) (λ (group_id, threshold).
      answer FrameType.message encode_group_message_resp
        (on_group_message api token group_id threshold env.now env.random)))
handle_type FrameType.heartbeat api bs token env =
    done (api, some (record { type = FrameType.heartbeat; payload = [] }))
handle_type FrameType.offline_push api bs token env = done (
    with_fields api (read_push bs) (λ (recipient, message).
      answer FrameType.offline_push encode_plain_resp
        (enqueue_offline api token recipient message env.now env.later)))
handle_type FrameType.offline_pull api bs token env = done (
    answer FrameType.offline_pull encode_offline_pull_resp
      (pull_offline api token env.now env.later))
handle_type FrameType.friend_list api bs token env = done (
    with_token api token
      (answer FrameType.friend_list encode_friend_list_resp (list_friends api token env.now)))
handle_type FrameType.friend_add api bs token env = done (
    with_token api token (
      with_fields api (read_friend bs) (λ (name, remark).
        answer FrameType.friend_add encode_plain_resp (add_friend api token name remark env.now))))
handle_type FrameType.friend_remark_set api bs token env = done (
    with_token api token (
      with_fields api (read_two bs) (λ (name, remark).
        answer FrameType.friend_remark_set encode_plain_resp
          (set_friend_remark api token name remark env.now))))
handle_type (FrameType.other n) api bs token env = done (api, none)

unfoldable pub handle : ApiService → Frame → Bytes → Env → Run Answer
handle api f token env = handle_type f.type api f.payload token env
