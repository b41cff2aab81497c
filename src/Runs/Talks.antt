-- ===== src/Runs/Talks.antt =====
-- A conversation of a client with the server in its process.
use e2ee_windows.Common.{
  ◌≡◌, refl, Option, some, none, List, [], ◌∷◌, Bytes, All, arith, text, done, ok,
}
use e2ee_windows.Common.Text.{same}
use e2ee_windows.Common.Dict.{find, erase}
use e2ee_windows.Common.Word.{to_le}
use e2ee_windows.Protocol.{write_bytes, write_uint32}
use e2ee_windows.Frame.{FrameType, type_code, frame_type}
use e2ee_windows.Session.{get_session, checked, is_expired}
use e2ee_windows.Queue.{drain, drain_loop, is_stale}
use e2ee_windows.Api
use e2ee_windows.Api.{make_api, with_session}
use e2ee_windows.Router.{handle, handle_type, answer}
use e2ee_windows.Router.Encoding.{write_all, encode_offline_pull_resp}
use e2ee_windows.Connection.{ConnectionHandler}
use e2ee_windows.Connection.Sealed.{serving}
use e2ee_windows.Client.{ClientCore}
use e2ee_windows.Client.InStep.{InStep}
use e2ee_windows.Client.Talking.{Request, direct, IsRequest, HasRoom, talk, talk-direct}
use e2ee_windows.Runs.Clients.{tcp, env, client, client-IsActive, handler, service, emptied}

-- A heartbeat, a request of no known type, and a pull.
abbrev requests : List Request
requests =
    record { env = env; type = FrameType.heartbeat; plain = 7 ∷ [] }
    ∷ record { env = env; type = FrameType.other 99; plain = [] }
    ∷ record { env = env; type = FrameType.offline_pull; plain = [] }
    ∷ []

requests-IsRequest : All IsRequest requests
unfolding type_code frame_type
requests-IsRequest = (
  record {
    proper = (refl, omega arith);
    no_login = omega arith;
    no_logout = omega arith;
    small = (omega arith, omega arith);
  },
  (
    record {
      proper = (refl, omega arith);
      no_login = omega arith;
      no_logout = omega arith;
      small = (omega arith, tt);
    },
    (
      record {
        proper = (refl, omega arith);
        no_login = omega arith;
        no_logout = omega arith;
        small = (omega arith, tt);
      },
      tt,
    ),
  ),
)

abbrev replies : List (Option Bytes)
replies = some [] ∷ none ∷ some (encode_offline_pull_resp (ok (text "hi" ∷ []))) ∷ []

without_channel : direct service (text "ta") requests ≡ done (emptied, replies)
unfolding direct handle handle_type answer Api.pull_offline with_session get_session checked find
    erase same is_expired drain drain_loop is_stale make_api
without_channel = refl

client-HasRoom : HasRoom client 3
client-HasRoom = record {
  local = refl;
  channel = client-IsActive.channel;
  token = omega arith;
  token_fits = omega arith;
  send = omega arith;
  recv = omega arith;
}

client-InStep : InStep client handler
unfolding serving find same
client-InStep now = refl

talk-direct_example :
    (c : ClientCore) × (h : ConnectionHandler) × (talk tcp client 0 requests ≡ done (c, 0, replies))
    × (c.local_handle ≡ some h)
    × (h.api ≡ emptied)
    × InStep c h
unfolding encode_offline_pull_resp write_all write_bytes write_uint32 to_le
talk-direct_example =
    talk-direct tcp requests client 0 handler emptied replies client-HasRoom refl client-InStep
      requests-IsRequest without_channel ((omega arith, tt), (tt, ((omega arith, omega arith), tt)))
