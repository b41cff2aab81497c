-- ===== src/Runs/Logins.antt =====
-- Runs of client_core.cpp: a login and a logout.
use e2ee_windows.Common.{
  ℕ, ◌≡◌, ◌≢◌, ◌≤◌, length, refl, true, some, none, [], ◌∷◌, Bytes, arith, text, done, ok,
}
use e2ee_windows.Common.Text.{same}
use e2ee_windows.Common.Dict.{find, put, erase}
use e2ee_windows.Common.Word.{to_le}
use e2ee_windows.Protocol.{write_uint32}
use e2ee_windows.Frame.{FrameType, type_code, frame_type, encode_frame}
use e2ee_windows.Pake.{DerivedKeys, derive_keys_from_credentials}
use e2ee_windows.Pake.Derive.{IsKeys, derive_keys_from_credentials-IsKeys}
use e2ee_windows.Session
use e2ee_windows.Session.{
  Session, SessionManager, get_keys, get_session, checked, is_expired, hex_string, validate,
  open_session,
}
use e2ee_windows.Api.{make_api, with_session}
use e2ee_windows.Router.{Env}
use e2ee_windows.Router.Encoding.{encode_friend_list_resp}
use e2ee_windows.Connection.{ConnectionHandler, on_data}
use e2ee_windows.Connection.Sealed.{envelope, serving}
use e2ee_windows.Client.{ClientCore, process_encrypted, login, logout}
use e2ee_windows.Client.Exchange.{mirror, IsActive, answered}
use e2ee_windows.Client.Entering.{with_manager, entered}
use e2ee_windows.Client.Admitted.{login-InStep}
use e2ee_windows.Client.InStep.{InStep}
use e2ee_windows.Frame.{Frame}
use e2ee_windows.Frame.RoundTrip.{IsProper}
use e2ee_windows.Router.{handle, handle_type, with_token, answer}
use e2ee_windows.Router.Encoding.{write_entries}
use e2ee_windows.Api.Friends.{list_friends, entries, sort_entries}
use e2ee_windows.Client.Leaving.{logout_lem, IsDropped}
use e2ee_windows.Runs.Clients.{manager, tcp, handler, env, client, client-IsActive, client_served}

logout_lem_example :
    (h : ConnectionHandler) × (logout tcp client 0 env
      ≡ done (record (answered client h) { token = [] }, 0, true))
    × ((later : ℕ) → serving h (text "ta") later ≡ none)
    × ((type : FrameType) (cipher : Bytes) (later : Env)
        → IsProper type
        → type_code type ≢ 1
        → length cipher ≤ 0xffff
        → IsDropped h
            (text "ta")
            (on_data h (encode_frame (envelope type (text "ta") cipher)) later))
unfolding make_api
logout_lem_example =
    logout_lem tcp client 0 env handler handler manager client-IsActive refl client_served refl

abbrev open_manager : SessionManager
open_manager = record {
  auth = some (record { validate = λ u p. none; user_exists = λ u. none });
  ttl = 10;
  sessions = [];
}

abbrev quiet : ConnectionHandler
quiet = record { api = make_api (some open_manager) none none none none 0; channel_states = [] }

abbrev guest : ClientCore
guest = record client { local_handle = some quiet; token = []; send_seq = 0; recv_seq = 0 }

derived :
    (k : DerivedKeys) × (derive_keys_from_credentials (text "ann") (text "pw") ≡ done (ok k))
    × IsKeys k
derived =
    derive_keys_from_credentials-IsKeys (text "ann") (text "pw") (omega arith) (omega arith)
      (omega arith)

abbrev new_session : Session
new_session = record {
  token = text "0102";
  username = text "ann";
  keys = derived.0;
  created_at = 5;
}

abbrev behind : SessionManager
behind = record open_manager { sessions = (text "0102", new_session) ∷ [] }

lets_in :
    Session.login open_manager (text "ann") (text "pw") 5 (1 ∷ 2 ∷ [])
    ≡ done (behind, ok new_session)
unfolding Session.login validate open_session hex_string put erase
lets_in = rw (Session.login, derived.1) refl

-- The first request asks for the friends, at time 9.
abbrev soon : Env
soon = record { now = 9; later = 9; random = [] }

abbrev nobody : Frame
nobody = record { type = FrameType.friend_list; payload = encode_friend_list_resp (ok []) }

friends_asked :
    handle
      (with_manager quiet (get_keys behind (text "0102") 9).0).api
      (record { type = FrameType.friend_list; payload = [] })
      (text "0102")
      soon
    ≡ done ((with_manager quiet behind).api, some nobody)
unfolding handle handle_type with_token answer list_friends entries sort_entries with_session
    get_keys get_session checked is_expired find same make_api
friends_asked = refl

login-InStep_example :
    (let c = entered guest (with_manager quiet behind) new_session (text "ann") (text "pw") in
      (login tcp guest 0 env (text "ann") (text "pw") ≡ done (c, 0, true))
      × IsActive c
      × (serving (with_manager quiet behind) (text "0102") 9
          ≡ some (with_manager quiet (get_keys behind (text "0102") 9).0, mirror c))
      × (h : ConnectionHandler) × (process_encrypted tcp c 0 soon FrameType.friend_list []
          ≡ done (answered c h, 0, some nobody.payload))
      × (h.api ≡ (with_manager quiet behind).api)
      × InStep (answered c h) h)
unfolding make_api find type_code frame_type encode_friend_list_resp write_entries write_uint32
    to_le
login-InStep_example =
    login-InStep tcp guest 0 env quiet open_manager behind new_session (text "ann") (text "pw") refl
      refl refl (omega arith) (omega arith) (omega arith) lets_in (omega arith) soon
      FrameType.friend_list [] (with_manager quiet behind).api nobody (omega arith) refl
      (omega arith) (omega arith) (refl, omega arith) (omega arith) (omega arith) (omega arith, tt)
      friends_asked
      (omega arith, (omega arith, (omega arith, (omega arith, (omega arith, (omega arith, tt))))))
