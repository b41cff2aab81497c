-- ===== src/Client.antt =====
-- client/src/client_core.cpp and client/include/client_core.h, class ClientCore: the channel to the
-- server and what travels in it. A server in the same process is part of the client's state. What
-- `TcpRoundTrip` does is an argument, `tcp`, with the world that it acts on; its `none` stands for
-- `false`, and what it returns is not empty.
pub mod Calls
pub mod Exchange
pub mod Replies
pub mod Fits
pub mod InStep
pub mod Requests
pub mod Served
pub mod Entering
pub mod Admitted
pub mod Leaving
pub mod Losing
pub mod Talking
pub mod Start
use e2ee_windows.Common.{
  ℕ, ◌+◌, ◌%◌, ◌^◌, ◌==◌, Bool, true, false, not, ◌&&◌, ◌||◌, Option, none, some, List, [], ◌∷◌,
  ◌++◌, Bytes, Run, done, ◌>>=◌, Result, ok, err, if◌then◌else◌, same, is_empty, drop, get_or,
}
use e2ee_windows.Protocol.{write_string, read_string}
use e2ee_windows.Frame.{Frame, FrameType, type_code, encode_frame, decode_frame}
use e2ee_windows.Pake.{DerivedKeys, derive_keys_from_credentials}
use e2ee_windows.Channel.{SecureChannel, make_channel, encrypt, decrypt}
use e2ee_windows.Router.{Env}
use e2ee_windows.Connection.{ConnectionHandler}
use e2ee_windows.Capi.{process}

pub record ClientCore : Type 0 where
  pub local_handle : Option ConnectionHandler
  pub remote_mode : Bool
  pub server_ip : Bytes
  pub server_port : ℕ
  pub username : Bytes
  pub password : Bytes
  pub token : Bytes
  pub keys : DerivedKeys
  pub channel : SecureChannel
  pub send_seq : ℕ
  pub recv_seq : ℕ

unfoldable pub ensure_channel : ClientCore → Bool
ensure_channel c =
    not (is_empty c.token)
    && (if c.remote_mode
        then not (is_empty c.server_ip) && not (c.server_port == 0)
        else elim c.local_handle [ none ↦ false | some h ↦ true ])

-- `!out_bytes.empty()`
abbrev pub filled : Option Bytes → Option Bytes
filled none = none
filled (some []) = none
filled (some (b ∷ bs)) = some (b ∷ bs)

-- The bytes that the server in the process answers.
unfoldable pub process_local :
    ClientCore → Env → Bytes → Option ConnectionHandler → Run (ClientCore × Option Bytes)
process_local c env bytes none = done (c, none)
process_local c env bytes (some h) = do
  (h', out) ← process h bytes env
  done (record c { local_handle = some h' }, filled out)

-- The reply of the server, opened; `none` stands for `false`.
unfoldable pub open_reply : ClientCore → Bytes × ℕ → Bytes → Run (ClientCore × Option Bytes)
open_reply c (resp_token, off) payload =
    let opened = (do
      r ← decrypt c.channel (drop off payload) c.recv_seq
      done (elim r [
        | none ↦ (c, none)
        | some plain ↦ (record c { recv_seq = (c.recv_seq + 1) % 2 ^ 64 }, some plain)
      ])) in
    if same resp_token c.token then opened else done (c, none)

unfoldable pub read_reply : ClientCore → Option Bytes → Run (ClientCore × Option Bytes)
read_reply c none = done (c, none)
read_reply c (some bytes) = elim (decode_frame bytes) [
  | none ↦ done (c, none)
  | some f ↦ elim (read_string f.payload 0) [
    | none ↦ done (c, none)
    | some r ↦ open_reply c r f.payload
  ]
]

-- `Login` once the token is stored.
unfoldable pub take_keys : ClientCore → Bytes → Run (ClientCore × Bool)
take_keys c token = do
  r ← derive_keys_from_credentials c.username c.password
  done (elim r [
    | err e ↦ (record c { token = [] }, false)
    | ok keys ↦ (
      record c {
        token = token;
        keys = keys;
        channel = make_channel keys;
        send_seq = 0;
        recv_seq = 0;
      },
      true,
    )
  ])

-- The payload of a reply to `Login`: the first byte tells a token from an error.
unfoldable pub login_payload : ClientCore → Bytes → Run (ClientCore × Bool)
login_payload c payload = elim (read_string payload 1) [
  | none ↦ done (c, false)
  | some (token, off) ↦ if get_or payload 0 0 == 0 then done (c, false) else take_keys c token
]

unfoldable pub login_reply : ClientCore → Option Bytes → Run (ClientCore × Bool)
login_reply c none = done (c, false)
login_reply c (some bytes) = elim (decode_frame bytes) [
  | none ↦ done (c, false)
  | some f ↦
      if not (type_code f.type == 1) || is_empty f.payload
      then done (c, false)
      else login_payload c f.payload
]

module _ {W : Type 0} (tcp : W → Bytes → ℕ → Bytes → W × Option Bytes) where
  unfoldable pub process_raw : ClientCore → W → Env → Bytes → Run (ClientCore × W × Option Bytes)
  process_raw c w env [] = done (c, w, none)
  process_raw c w env (b ∷ bs) =
      let (w', out) = tcp w c.server_ip c.server_port (b ∷ bs) in
      if c.remote_mode
      then done (c, w', out)
      else (do (c', r) ← process_local c env (b ∷ bs) c.local_handle; done (c', w, r))

  unfoldable pub process_encrypted :
      ClientCore → W → Env → FrameType → Bytes → Run (ClientCore × W × Option Bytes)
  process_encrypted c w env type plain =
      let exchanged = (do
        cipher ← encrypt c.channel c.send_seq plain
        let sent : ClientCore = record c { send_seq = (c.send_seq + 1) % 2 ^ 64 }
        let f : Frame = record { type = type; payload = (write_string c.token []).0 ++ cipher }
        (c', w', bytes) ← process_raw sent w env (encode_frame f)
        (c'', r) ← read_reply c' bytes
        done (c'', w', r)) in
      if ensure_channel c then exchanged else done (c, w, none)

  unfoldable pub login : ClientCore → W → Env → Bytes → Bytes → Run (ClientCore × W × Bool)
  login c w env username password = do
    let named : ClientCore = record c { username = username; password = password }
    let f : Frame = record {
      type = FrameType.login;
      payload = (write_string password (write_string username []).0).0;
    }
    (c', w', bytes) ← process_raw named w env (encode_frame f)
    (c'', r) ← login_reply c' bytes
    done (c'', w', r)

  unfoldable pub logout : ClientCore → W → Env → Run (ClientCore × W × Bool)
  logout c w env =
      let asked = (do
        (c', w', r) ← process_encrypted c w env FrameType.logout []
        done (record c' { token = [] }, w', true)) in
      if is_empty c.token then done (c, w, true) else asked
