-- ===== src/Client/Entering.antt =====
-- client_core.cpp with the server in the same process: `Login`, and what it sets up at both ends.
use e2ee_windows.Common.{
  ℕ, ◌+◌, ◌-◌, ◌^◌, ◌≤◌, ◌<◌, ◌≡◌, refl, sym, ap, ◌∙◌, true, false, Bytes, some, none, ok, done,
  arith, [], ◌∷◌, Option, length, append-nil, same_refl, is_empty, get_or, le→ltb_false,
}
use e2ee_windows.Common.Dict.{find}
use e2ee_windows.Protocol.{write_string}
use e2ee_windows.Frame.{Frame, FrameType, type_code, frame_type, encode_frame, decode_frame}
use e2ee_windows.Frame.RoundTrip.{decode_frame-encode_frame}
use e2ee_windows.Pake.{DerivedKeys, derive_keys_from_credentials}
use e2ee_windows.Pake.Derive.{derive_keys_from_credentials-IsKeys}
use e2ee_windows.Channel.{make_channel}
use e2ee_windows.Channel.Keys.{make_channel-IsChannel}
use e2ee_windows.Session
use e2ee_windows.Session.{Session, SessionManager, get_keys, get_session}
use e2ee_windows.Session.View.{live, get_session-live}
use e2ee_windows.Session.Login.{login-IsLogin, login-live}
use e2ee_windows.Api.Calls
use e2ee_windows.Router.{Env}
use e2ee_windows.Router.Encoding.{encode_login_resp}
use e2ee_windows.Router.Requests.{handle_login_lem}
use e2ee_windows.Connection.{ConnectionHandler, keys_of, plain_reply, on_frame, on_data}
use e2ee_windows.Connection.Sealed.{serving}
use e2ee_windows.Capi.{process}
use e2ee_windows.Client.{ClientCore, take_keys, login_payload, login_reply, login}
use e2ee_windows.Client.Requests.{read_string_last, length-write_string_behind}
use e2ee_windows.Client.Exchange.{
  mirror, IsActive, filled-encode_frame, is_empty-encode_frame, process_raw_local,
}

-- The request of `Login`.
abbrev login_frame : Bytes → Bytes → Frame
login_frame username password = record {
  type = FrameType.login;
  payload = (write_string password (write_string username []).0).0;
}

-- The reply to it.
abbrev token_frame : Bytes → Frame
token_frame token = record { type = FrameType.login; payload = encode_login_resp (ok token) }

decode_frame-login :
    (payload : Bytes)
    → length payload < 2 ^ 32
    → (let f : Frame = record { type = FrameType.login; payload = payload } in
        decode_frame (encode_frame f) ≡ some f)
unfolding frame_type type_code
decode_frame-login payload h =
    let f : Frame = record { type = FrameType.login; payload = payload } in
    ap decode_frame (sym (append-nil _)) ∙ decode_frame-encode_frame f [] (refl, omega arith) h

-- What the server makes of a login, where the manager lets the user in.
process-login :
    (h : ConnectionHandler) (sm sm' : SessionManager) (s : Session) (username password : Bytes)
    (env : Env)
    → h.api.sessions ≡ some sm
    → length username ≤ 0xffff
    → length password ≤ 0xffff
    → Session.login sm username password env.now env.random ≡ done (sm', ok s)
    → process h (encode_frame (login_frame username password)) env
      ≡ done (
        record h { api = record h.api { sessions = some sm' } },
        some (encode_frame (token_frame s.token)),
      )
unfolding process on_data on_frame type_code plain_reply Calls.login Calls.login_answer
process-login h sm sm' s username password env e hu hp made =
    let front = (write_string username []).0 in
    let size : length (login_frame username password).payload < 2 ^ 32 = omega (
      arith,
      length-write_string_behind password front hp,
      length-write_string_behind username [] hu,
    ) in
    rw
      (
        is_empty-encode_frame (login_frame username password),
        on_data,
        decode_frame-login _ size,
        on_frame,
        handle_login_lem h.api username password [] env hu hp,
        Calls.login,
        e,
        made,
      )
      refl

-- The first byte says that a token follows.
token_mark :
    (token : Bytes)
    → (is_empty (write_string token (1 ∷ [])).0 ≡ false)
      × (get_or (write_string token (1 ∷ [])).0 0 0 ≡ 1)
unfolding write_string
token_mark token = (refl, refl)

-- What the client makes of the reply.
login_reply-token :
    (c : ClientCore) (token : Bytes) (keys : DerivedKeys)
    → length token ≤ 0xffff
    → derive_keys_from_credentials c.username c.password ≡ done (ok keys)
    → login_reply c (some (encode_frame (token_frame token)))
      ≡ done (
        record c {
          token = token;
          keys = keys;
          channel = make_channel keys;
          send_seq = 0;
          recv_seq = 0;
        },
        true,
      )
unfolding login_reply login_payload take_keys type_code encode_login_resp
login_reply-token c token keys h e =
    let size : length (write_string token (1 ∷ [])).0 < 2 ^ 32 =
      omega (arith, length-write_string_behind token (1 ∷ []) h) in
    rw
      (
        login_reply,
        decode_frame-login _ size,
        (token_mark token).0,
        login_payload,
        read_string_last token (1 ∷ []) h,
        (token_mark token).1,
        e,
      )
      refl

-- The handler with the sessions `sm`.
abbrev pub with_manager : ConnectionHandler → SessionManager → ConnectionHandler
with_manager h sm = record h { api = record h.api { sessions = some sm } }

-- The client behind a login: it has the session's token, and a channel with its keys.
abbrev pub entered : ClientCore → ConnectionHandler → Session → Bytes → Bytes → ClientCore
entered c h s username password = record c {
  local_handle = some h;
  username = username;
  password = password;
  token = s.token;
  keys = s.keys;
  channel = make_channel s.keys;
  send_seq = 0;
  recv_seq = 0;
}

module _ {W : Type 0} (tcp : W → Bytes → ℕ → Bytes → W × Option Bytes) (c : ClientCore) (w : W)
    (env : Env) (h : ConnectionHandler) (sm sm' : SessionManager) (s : Session)
    (username password : Bytes) (local : c.remote_mode ≡ false) (lh : c.local_handle ≡ some h)
    (there : h.api.sessions ≡ some sm) (hu : 0 < length username) (hp : 0 < length password)
    (short : length username + length password ≤ 1023)
    (made : Session.login sm username password env.now env.random ≡ done (sm', ok s))
    (ht : length s.token ≤ 0xffff) where
  pub login-entered :
      login tcp c w env username password
      ≡ done (entered c (with_manager h sm') s username password, w, true)
  unfolding login
  login-entered =
      let named : ClientCore = record c { username = username; password = password } in
      let l = login-IsLogin sm username password env.now env.random sm' s made in
      let served =
        process-login h sm sm' s username password env there (omega (arith, short))
          (omega (arith, short)) made in
      let raw =
        process_raw_local tcp named w env h (login_frame username password) _ local lh served in
      let h' : ConnectionHandler = with_manager h sm' in
      let read =
        login_reply-token (record named { local_handle = some h' }) s.token s.keys ht l.keys in
      rw (raw, filled-encode_frame (token_frame s.token), read) refl

  pub entered-IsActive :
      0 < length s.token → IsActive (entered c (with_manager h sm') s username password)
  entered-IsActive pos =
      let l = login-IsLogin sm username password env.now env.random sm' s made in
      let (k, e, keys) = derive_keys_from_credentials-IsKeys username password hu hp short in
      let same_keys : k ≡ s.keys = ground (arith, e, l.keys) in
      record {
        local = local;
        channel = make_channel-IsChannel s.keys (rw (← same_keys) keys);
        token = pos;
        token_fits = ht;
        send = omega arith;
        recv = omega arith;
      }

  pub serving-entered :
      (later : ℕ)
      → find s.token h.channel_states ≡ none
      → env.now ≤ later
      → later - env.now ≤ sm.ttl
      → serving (with_manager h sm') s.token later
        ≡ some (
          with_manager h (get_keys sm' s.token later).0,
          mirror (entered c (with_manager h sm') s username password),
        )
  unfolding serving keys_of get_keys
  serving-entered later fresh le alive =
      let found : live sm' s.token later ≡ some s =
        login-live sm username password env.now env.random sm' s made s.token later le
        ∙ rw (same_refl s.token, le→ltb_false sm.ttl (later - env.now) alive) refl in
      let got = (get_session-live sm' s.token s.token later later (omega arith)).0 ∙ found in
      rw (got, fresh) refl
