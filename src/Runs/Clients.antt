-- ===== src/Runs/Clients.antt =====
-- Runs of client_core.cpp.
use e2ee_windows.Common.{
  ℕ, ◌≡◌, refl, false, true, Option, some, none, [], ◌∷◌, Bytes, arith, text, replicate, done,
  Result, ok, map,
}
use e2ee_windows.Common.Text.{same}
use e2ee_windows.Common.Dict.{find, erase}
use e2ee_windows.Common.Word.{to_le}
use e2ee_windows.Protocol.{write_bytes, write_uint32}
use e2ee_windows.Frame.{FrameType, type_code, frame_type, encode_frame}
use e2ee_windows.Pake.{DerivedKeys}
use e2ee_windows.Channel.{encrypt, SecureChannel}
use e2ee_windows.Session.{Session, SessionManager, get_session, checked, is_expired}
use e2ee_windows.Queue.{OfflineQueue, drain, drain_loop, is_stale}
use e2ee_windows.Api
use e2ee_windows.Api.{ApiService, GroupEvent, make_api, with_session, group_event, change_members}
use e2ee_windows.Api.Friends.{Entry}
use e2ee_windows.Router.{Env}
use e2ee_windows.Router.Encoding.{write_all, encode_offline_pull_resp, encode_friend_list_resp}
use e2ee_windows.Connection.{ConnectionHandler, with_state, on_data}
use e2ee_windows.Connection.Sealed.{envelope, serving}
use e2ee_windows.Client.{ClientCore, process_encrypted}
use e2ee_windows.Client.Calls.{read_friends, counted, pull_offline}
use e2ee_windows.Client.Exchange.{mirror, IsActive}
use e2ee_windows.Client.Replies.{kept, counted-encode_friend_list_resp}
use e2ee_windows.Client.Fits.{or_empty}
use e2ee_windows.Client.Served.{Served, pull_offline-Served}
use e2ee_windows.Client.Losing.{IsRemote, process_encrypted-lost}

-- No network.
abbrev pub tcp : ℕ → Bytes → ℕ → Bytes → ℕ × Option Bytes
tcp w ip port bytes = (w, none)

abbrev channel : SecureChannel
channel = record {
  enc_key = replicate 32 1;
  auth_key = replicate 32 2;
  ratchet_root = replicate 32 3;
}

abbrev no_keys : DerivedKeys
no_keys = record { root_key = []; header_key = []; kcp_key = []; ratchet_root = [] }

abbrev session : Session
session = record { token = text "ta"; username = text "ann"; keys = no_keys; created_at = 3 }

abbrev pub manager : SessionManager
manager = record { auth = none; ttl = 10; sessions = (text "ta", session) ∷ [] }

abbrev queue : OfflineQueue
queue = record {
  default_ttl = 50;
  messages =
      (
        text "ann",
        record { recipient = text "ann"; payload = text "hi"; created_at = 4; ttl = 9 } ∷ [],
      )
      ∷ [];
}

abbrev pub service : ApiService
service = record (make_api (some manager) none none none (some queue) 0) {
  friends = (text "ann", text "ben" ∷ []) ∷ [];
}

abbrev pub handler : ConnectionHandler
handler = record {
  api = service;
  channel_states = (text "ta", record { channel = channel; send_seq = 4; recv_seq = 2 }) ∷ [];
}

abbrev pub env : Env
env = record { now = 5; later = 6; random = 1 ∷ 2 ∷ [] }

abbrev pub client : ClientCore
client = record {
  local_handle = some handler;
  remote_mode = false;
  server_ip = [];
  server_port = 0;
  username = text "ann";
  password = text "pw";
  token = text "ta";
  keys = no_keys;
  channel = channel;
  send_seq = 2;
  recv_seq = 4;
}

pub client-IsActive : IsActive client
client-IsActive = record {
  local = refl;
  channel = record {
    enc = (refl, omega arith);
    auth = (refl, omega arith);
    root = (refl, omega arith);
  };
  token = omega arith;
  token_fits = omega arith;
  send = omega arith;
  recv = omega arith;
}

pub client_served : serving handler (text "ta") 5 ≡ some (handler, mirror client)
unfolding serving find same
client_served = refl

abbrev pub emptied : ApiService
emptied = record service { queue = some (record queue { messages = [] }) }

pulls : Api.pull_offline service (text "ta") 5 6 ≡ (emptied, ok (text "hi" ∷ []))
unfolding Api.pull_offline with_session get_session checked find erase same is_expired drain
    drain_loop is_stale make_api
pulls = refl

pull_offline-Served_example :
    Served client 0 (pull_offline tcp client 0 env) (or_empty (ok (text "hi" ∷ []))) emptied
unfolding encode_offline_pull_resp write_all write_bytes write_uint32 to_le
pull_offline-Served_example =
    pull_offline-Served tcp client 0 env handler handler client-IsActive refl client_served emptied
      (ok (text "hi" ∷ [])) pulls (omega arith, omega arith)

ben : Entry
ben = record { username = text "ben"; remark = text "b" }

counted-encode_friend_list_resp_example :
    counted read_friends (some (encode_friend_list_resp (ok (ben ∷ [])))) ≡ map kept (ben ∷ [])
unfolding ben
counted-encode_friend_list_resp_example =
    counted-encode_friend_list_resp (ben ∷ []) (omega arith) ((omega arith, omega arith), tt)

abbrev grouped : ApiService
grouped = record service { groups = some []; directory = some [] }

abbrev grouped_handler : ConnectionHandler
grouped_handler = record handler { api = grouped }

abbrev member : ClientCore
member = record client { local_handle = some grouped_handler }

abbrev joined : ApiService × Result GroupEvent
joined = Api.join_group grouped (text "ta") (text "red") 5 6 (1 ∷ 2 ∷ [])

member-IsActive : IsActive member
member-IsActive = record {
  local = client-IsActive.local;
  channel = client-IsActive.channel;
  token = client-IsActive.token;
  token_fits = client-IsActive.token_fits;
  send = client-IsActive.send;
  recv = client-IsActive.recv;
}

-- No answer ever comes.
abbrev away : ClientCore
away = record client {
  remote_mode = true;
  server_ip = text "ip";
  server_port = 9;
  local_handle = none;
}

away-IsRemote : IsRemote away
away-IsRemote = record {
  remote = refl;
  server = (omega arith, refl);
  channel = client-IsActive.channel;
  token = omega arith;
  token_fits = omega arith;
  send = omega arith;
}

process_encrypted-lost_example :
    (let later : ClientCore = record away { send_seq = 3 } in
      (process_encrypted tcp away 0 env FrameType.heartbeat [] ≡ done (later, 0, none))
      × (sealed : Bytes) × (encrypt channel 3 (7 ∷ []) ≡ done sealed)
      × (on_data handler (encode_frame (envelope FrameType.message (text "ta") sealed)) env
          ≡ done (with_state handler (text "ta") (mirror away), none)))
unfolding type_code frame_type
process_encrypted-lost_example =
    process_encrypted-lost tcp away 0 0 env env handler handler FrameType.heartbeat
      FrameType.message [] (7 ∷ []) away-IsRemote client_served (omega arith, tt)
      (omega arith, omega arith) (refl, omega arith) (omega arith) (λ bytes. refl)
