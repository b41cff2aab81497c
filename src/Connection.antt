-- ===== src/Connection.antt =====
-- server/src/connection_handler.cpp, with `HandleFrame` and `HandleFrameWithToken` of
-- server/src/server_app.cpp: requests under a token travel in the channel of its session. The
-- server is one that `Init` has set up, so that there is a router and a manager of sessions.
pub mod Replay
pub mod Sealed
use e2ee_windows.Common.{
  ℕ, ◌+◌, ◌%◌, ◌^◌, ◌==◌, Bool, ◌&&◌, Option, none, some, List, [], ◌∷◌, ◌++◌, Bytes, Run, done,
  fault, ◌>>=◌, if◌then◌else◌, drop, is_empty,
}
use e2ee_windows.Common.Dict.{Dict, find, put, erase, or_default}
use e2ee_windows.Protocol.{write_string, read_string}
use e2ee_windows.Frame.{Frame, FrameType, type_code, encode_frame, decode_frame}
use e2ee_windows.Pake.{DerivedKeys}
use e2ee_windows.Channel.{SecureChannel, no_channel, make_channel, encrypt, decrypt}
use e2ee_windows.Session.{SessionManager, get_keys}
use e2ee_windows.Api.{ApiService}
use e2ee_windows.Router.{Env, Answer, handle}

pub record ChannelState : Type 0 where
  pub channel : SecureChannel
  pub send_seq : ℕ
  pub recv_seq : ℕ

-- `ChannelState()`
abbrev pub new_state : ChannelState
new_state = record { channel = no_channel; send_seq = 0; recv_seq = 0 }

pub record ConnectionHandler : Type 0 where
  pub api : ApiService
  pub channel_states : Dict ChannelState

-- `GetKeys` on the sessions of the server.
unfoldable pub keys_of : ApiService → Bytes → ℕ → ApiService × Option DerivedKeys
keys_of api token now = elim api.sessions [
  | none ↦ (api, none)
  | some sm ↦ let (sm', keys) = get_keys sm token now in (record api { sessions = some sm' }, keys)
]

-- The handler and the reply; `none` stands for `false`.
abbrev pub Outcome : Type 0
Outcome = ConnectionHandler × Option Bytes

-- `state` stored for the token.
abbrev pub with_state : ConnectionHandler → Bytes → ChannelState → ConnectionHandler
with_state h token state = record h { channel_states = put token state h.channel_states }

-- The end of `OnData`: the reply is sealed, and a logout closes the channel.
unfoldable pub reply : ConnectionHandler → Bytes → ChannelState → Answer → Run Outcome
reply h token state (api, none) = done (record h { api = api }, none)
reply h token state (api, some out) = do
  cipher ← encrypt state.channel state.send_seq out.payload
  let sent : ConnectionHandler =
      with_state (record h { api = api }) token
        (record state { send_seq = (state.send_seq + 1) % 2 ^ 64 })
  let closed : ConnectionHandler = record sent { channel_states = erase token sent.channel_states }
  let envelope : Frame = record { type = out.type; payload = (write_string token []).0 ++ cipher }
  done (if type_code out.type == 2 then closed else sent, some (encode_frame envelope))

-- `OnData` behind `Decrypt`.
unfoldable pub dispatch :
    ConnectionHandler → FrameType → Bytes → ChannelState → Env → Option Bytes → Run Outcome
dispatch h type token state env none = done (with_state h token state, none)
dispatch h type token state env (some plain) = do
  let next : ChannelState = record state { recv_seq = (state.recv_seq + 1) % 2 ^ 64 }
  a ← handle h.api (record { type = type; payload = plain }) token env
  reply (with_state h token next) token next a

unfoldable pub receive :
    ConnectionHandler → FrameType → Bytes → Bytes → ChannelState → Env → Run Outcome
receive h type token cipher state env = do
  plain ← decrypt state.channel cipher state.recv_seq
  dispatch h type token state env plain

-- The first message under a token takes the keys of its session, which must be live.
unfoldable pub open_channel :
    ConnectionHandler
    → FrameType
    → Bytes
    → Bytes
    → ChannelState
    → Env
    → ApiService × Option DerivedKeys
    → Run Outcome
open_channel h type token cipher state env (api, none) =
    done (record { api = api; channel_states = erase token h.channel_states }, none)
open_channel h type token cipher state env (api, some keys) =
    receive (record h { api = api }) type token cipher
      (record state { channel = make_channel keys }) env

-- `token` and `cipher` are the parts of a payload.
unfoldable pub on_sealed : ConnectionHandler → FrameType → Bytes → Bytes → Env → Run Outcome
on_sealed h type token cipher env =
    let state = or_default new_state (find token h.channel_states) in
    if is_empty cipher
    then done (h, none)
    else if state.send_seq == 0 && state.recv_seq == 0
    then open_channel h type token cipher state env (keys_of h.api token env.now)
    else receive h type token cipher state env

unfoldable pub plain_reply : ConnectionHandler → Answer → Outcome
plain_reply h (api, none) = (record h { api = api }, none)
plain_reply h (api, some out) = (record h { api = api }, some (encode_frame out))

unfoldable pub on_token : ConnectionHandler → Frame → Env → Option (Bytes × ℕ) → Run Outcome
on_token h f env none = done (h, none)
on_token h f env (some (token, offset)) = on_sealed h f.type token (drop offset f.payload) env

unfoldable pub on_frame : ConnectionHandler → Env → Option Frame → Run Outcome
on_frame h env none = done (h, none)
on_frame h env (some f) =
    let logged_in = (do a ← handle h.api f [] env; done (plain_reply h a)) in
    if type_code f.type == 1 then logged_in else on_token h f env (read_string f.payload 0)

unfoldable pub on_data : ConnectionHandler → Bytes → Env → Run Outcome
on_data h bytes env = on_frame h env (decode_frame bytes)
