-- ===== src/Client/Served.antt =====
-- client_core.cpp with frame_router.cpp: what the operations of a client return is what the service
-- of its server answers.
use e2ee_windows.Common.{
  ℕ, ◌+◌, ◌≡◌, ◌≢◌, refl, Bool, true, false, Bytes, some, none, done, arith, List, [], ◌∷◌, Option,
  Result, ok, err, length, length-append, is_empty_pos, Run, map,
}
use e2ee_windows.Common.Word.{IsU32, to_le, length-to_le}
use e2ee_windows.Protocol.{write_string, write_uint32, write_bytes}
use e2ee_windows.Frame.{FrameType, type_code, frame_type}
use e2ee_windows.Frame.RoundTrip.{IsProper}
use e2ee_windows.Api
use e2ee_windows.Api.{ApiService, GroupEvent}
use e2ee_windows.Api.Friends
use e2ee_windows.Api.Friends.{Entry}
use e2ee_windows.Group.{GroupKey}
use e2ee_windows.Router.Requests.{read_two-write_string}
use e2ee_windows.Router.{Env, answer, handle, handle_type, group_action, with_fields, with_token}
use e2ee_windows.Router.Encoding.{
  encode_group_event_resp, encode_plain_resp, encode_group_message_resp, encode_offline_pull_resp,
  encode_friend_list_resp,
}
use e2ee_windows.Connection.{ConnectionHandler}
use e2ee_windows.Connection.Sealed.{serving}
use e2ee_windows.Client.{ClientCore}
use e2ee_windows.Client.Calls.{
  nonzero_reply, one_reply, read_messages, read_friends, counted, ask, join_group,
  send_group_message, send_offline, pull_offline, list_friends, add_friend, set_friend_remark,
}
use e2ee_windows.Client.Replies.{length-write_bytes, kept}
use e2ee_windows.Client.Fits.{or_empty, pulled, listed}
use e2ee_windows.Client.Exchange.{ensure_channel_local, mirror, IsActive, IsSmall, answered}
use e2ee_windows.Client.Requests.{
  short_string, read_event-write_string, read_push-write_bytes, read_friend-write_string,
  read_message-write_uint32,
}
use e2ee_windows.Client.InStep.{InStep, process_encrypted-answered}

-- A call of a client that its server answers: the client gets `a`, the service of the server is left
-- as `api`, and the two ends stay in step.
abbrev pub Served :
    {W A : Type 0} → ClientCore → W → Run (ClientCore × W × A) → A → ApiService → Type 0
Served c w call a api =
    (h : ConnectionHandler) × (call ≡ done (answered c h, w, a))
    × (h.api ≡ api)
    × InStep (answered c h) h

unfoldable pub is_ok : {R : Type 0} → Result R → Bool
is_ok (ok r) = true
is_ok (err e) = false

pub nonzero_reply-encode_group_event_resp :
    (r : Result GroupEvent) → nonzero_reply (some (encode_group_event_resp r)) ≡ is_ok r
unfolding nonzero_reply encode_group_event_resp is_ok write_string write_uint32
nonzero_reply-encode_group_event_resp (ok e) = refl
nonzero_reply-encode_group_event_resp (err e) = refl

nonzero_reply-encode_group_message_resp :
    (r : Result (Option GroupKey)) → nonzero_reply (some (encode_group_message_resp r)) ≡ is_ok r
unfolding nonzero_reply encode_group_message_resp is_ok write_string write_uint32
nonzero_reply-encode_group_message_resp (ok none) = refl
nonzero_reply-encode_group_message_resp (ok (some k)) = refl
nonzero_reply-encode_group_message_resp (err e) = refl

length-write_uint32_behind : (n : ℕ) (out : Bytes) → length (write_uint32 n out) ≡ length out + 4
unfolding write_uint32
length-write_uint32_behind n out = omega (arith, length-append out (to_le 4 n), length-to_le 4 n)

pub one_reply-encode_plain_resp :
    (r : Result {0} Unit) → one_reply (some (encode_plain_resp r)) ≡ is_ok r
unfolding one_reply encode_plain_resp is_ok write_string
one_reply-encode_plain_resp (ok tt) = refl
one_reply-encode_plain_resp (err e) = refl

module _ {W : Type 0} (tcp : W → Bytes → ℕ → Bytes → W × Option Bytes) (c : ClientCore) (w : W)
    (env : Env) (h h₁ : ConnectionHandler) (v : IsActive c) (lh : c.local_handle ≡ some h)
    (up : serving h c.token env.now ≡ some (h₁, mirror c)) where
  pub ask-Served :
      {A R : Type 0} (read : Option Bytes → A) (encode : R → Bytes) (type : FrameType)
      (plain : Bytes) (api : ApiService) (r : R)
      → IsProper type
      → type_code type ≢ 1
      → type_code type ≢ 2
      → IsSmall plain
      → handle_type type h₁.api plain c.token env ≡ done (answer type encode (api, r))
      → IsSmall (encode r)
      → Served c w (ask tcp read c w env type plain) (read (some (encode r))) api
  unfolding ask handle answer
  ask-Served read encode type plain api r p ne ne₂ small made fits =
      let (h', e, kept, step) =
        process_encrypted-answered tcp c w env h h₁ type plain v lh up p ne small api
          (record { type = type; payload = encode r }) ne₂ made fits in
      (h', rw (ask, e) refl, kept, step)

  -- A client has joined a group exactly if the service of its server let its user join.
  pub join_group-Served :
      (group_id : Bytes) (api : ApiService) (r : Result GroupEvent)
      → IsSmall (write_string group_id (0 ∷ [])).0
      → Api.join_group h₁.api c.token group_id env.now env.later env.random ≡ (api, r)
      → IsSmall (encode_group_event_resp r)
      → Served c w (join_group tcp c w env group_id) (is_ok r) api
  unfolding join_group handle_type group_action with_fields frame_type type_code
  join_group-Served group_id api r small e fits = rw (← nonzero_reply-encode_group_event_resp r) (
      ask-Served nonzero_reply encode_group_event_resp FrameType.group_event _ api r
        (refl, omega arith) (omega arith) (omega arith) small
        (rw
          (
            handle_type,
            with_fields,
            read_event-write_string 0 group_id
                (omega (arith, short_string group_id (0 ∷ []) small.0)),
            group_action,
            e,
          )
          refl)
        fits)

  pub send_group_message-Served :
      (group_id : Bytes) (threshold : ℕ) (api : ApiService) (r : Result (Option GroupKey))
      → IsU32 threshold
      → IsSmall (write_uint32 threshold (write_string group_id []).0)
      → Api.on_group_message h₁.api c.token group_id threshold env.now env.random ≡ (api, r)
      → IsSmall (encode_group_message_resp r)
      → Served c w (send_group_message tcp c w env group_id threshold) (is_ok r) api
  unfolding send_group_message handle_type with_fields frame_type type_code
  send_group_message-Served group_id threshold api r word small e fits =
      let front = (write_string group_id []).0 in
      let size = length-write_uint32_behind threshold front in
      let name = short_string group_id [] (omega (arith, size, small.0)) in
      let read =
        read_message-write_uint32 h₁.api.group_threshold threshold group_id (omega (arith, name))
          word in
      rw (← nonzero_reply-encode_group_message_resp r) (
        ask-Served nonzero_reply encode_group_message_resp FrameType.message _ api r
          (refl, omega arith) (omega arith) (omega arith) small
          (rw (handle_type, with_fields, read, e) refl) fits)

  pub send_offline-Served :
      (recipient payload : Bytes) (api : ApiService) (r : Result {0} Unit)
      → IsSmall (write_bytes payload (write_string recipient []).0)
      → Api.enqueue_offline h₁.api c.token recipient payload env.now env.later ≡ (api, r)
      → IsSmall (encode_plain_resp r)
      → Served c w (send_offline tcp c w env recipient payload) (is_ok r) api
  unfolding send_offline handle_type with_fields frame_type type_code
  send_offline-Served recipient payload api r small e fits =
      let size = length-write_bytes payload (write_string recipient []).0 in
      let name = short_string recipient [] (omega (arith, size, small.0)) in
      let read =
        read_push-write_bytes recipient payload (omega (arith, name))
          (omega (arith, size, small.0)) in
      rw (← one_reply-encode_plain_resp r) (
        ask-Served one_reply encode_plain_resp FrameType.offline_push _ api r (refl, omega arith)
          (omega arith) (omega arith) small (rw (handle_type, with_fields, read, e) refl) fits)

  -- A client that is logged in at the server in its process, in step with it and with numbers left,
  -- pulls exactly the messages that the service of the server gives out, and leaves the service as
  -- it is left by that, where the encoded messages have at most 1012 bytes; the two stay in step.
  pub pull_offline-Served :
      (api : ApiService) (r : Result (List Bytes))
      → Api.pull_offline h₁.api c.token env.now env.later ≡ (api, r)
      → IsSmall (encode_offline_pull_resp r)
      → Served c w (pull_offline tcp c w env) (or_empty r) api
  unfolding pull_offline handle_type frame_type type_code
  pull_offline-Served api r e fits =
      rw (ensure_channel_local c h v lh, ← pulled r fits.0)
        (ask-Served (counted read_messages) encode_offline_pull_resp FrameType.offline_pull [] api r
          (refl, omega arith) (omega arith) (omega arith) (omega arith, tt)
          (rw (handle_type, e) refl) fits)

  pub list_friends-Served :
      (api : ApiService) (r : Result (List Entry))
      → Friends.list_friends h₁.api c.token env.now ≡ (api, r)
      → IsSmall (encode_friend_list_resp r)
      → Served c w (list_friends tcp c w env) (map kept (or_empty r)) api
  unfolding list_friends handle_type with_token frame_type type_code
  list_friends-Served api r e fits =
      rw (ensure_channel_local c h v lh, ← listed r fits.0)
        (ask-Served (counted read_friends) encode_friend_list_resp FrameType.friend_list [] api r
          (refl, omega arith) (omega arith) (omega arith) (omega arith, tt)
          (rw (handle_type, with_token, is_empty_pos c.token v.token, e) refl) fits)

  -- The friend's name and the remark fit a message.
  pub add_friend-Served :
      (friend remark : Bytes) (api : ApiService) (r : Result {0} Unit)
      → IsSmall (write_string remark (write_string friend []).0).0
      → Friends.add_friend h₁.api c.token friend remark env.now ≡ (api, r)
      → IsSmall (encode_plain_resp r)
      → Served c w (add_friend tcp c w env friend remark) (is_ok r) api
  unfolding add_friend handle_type with_token with_fields frame_type type_code
  add_friend-Served friend remark api r small e fits =
      let size = short_string remark (write_string friend []).0 small.0 in
      let name = short_string friend [] (omega (arith, size)) in
      let read =
        read_friend-write_string friend remark (omega (arith, name)) (omega (arith, size)) in
      rw (ensure_channel_local c h v lh, ← one_reply-encode_plain_resp r)
        (ask-Served one_reply encode_plain_resp FrameType.friend_add _ api r (refl, omega arith)
          (omega arith) (omega arith) small
          (rw (handle_type, with_token, is_empty_pos c.token v.token, with_fields, read, e) refl)
          fits)

  pub set_friend_remark-Served :
      (friend remark : Bytes) (api : ApiService) (r : Result {0} Unit)
      → IsSmall (write_string remark (write_string friend []).0).0
      → Friends.set_friend_remark h₁.api c.token friend remark env.now ≡ (api, r)
      → IsSmall (encode_plain_resp r)
      → Served c w (set_friend_remark tcp c w env friend remark) (is_ok r) api
  unfolding set_friend_remark handle_type with_token with_fields frame_type type_code
  set_friend_remark-Served friend remark api r small e fits =
      let size = short_string remark (write_string friend []).0 small.0 in
      let name = short_string friend [] (omega (arith, size)) in
      let read = read_two-write_string friend remark (omega (arith, name)) (omega (arith, size)) in
      rw (ensure_channel_local c h v lh, ← one_reply-encode_plain_resp r)
        (ask-Served one_reply encode_plain_resp FrameType.friend_remark_set _ api r
          (refl, omega arith) (omega arith) (omega arith) small
          (rw (handle_type, with_token, is_empty_pos c.token v.token, with_fields, read, e) refl)
          fits)
