-- ===== src/Runs/Sealed.antt =====
-- Runs of connection_handler.cpp.
use e2ee_windows.Network.{received, serve}
use e2ee_windows.Network.Cutting.{serve-received}
use e2ee_windows.Common.{
  ◌≡◌, ◌≢◌, refl, some, none, [], ◌∷◌, ◌++◌, Bytes, length, arith, text, replicate, done,
  is_empty_pos,
}
use e2ee_windows.Common.Text.{same}
use e2ee_windows.Common.Dict.{find, put, erase}
use e2ee_windows.Protocol.{write_string}
use e2ee_windows.Frame.{Frame, frame_type, FrameType, type_code, encode_frame}
use e2ee_windows.Channel.{SecureChannel, encrypt, decrypt}
use e2ee_windows.Channel.Keys.{IsChannel}
use e2ee_windows.Channel.Sealing.{decrypt-encrypt}
use e2ee_windows.Api.{ApiService, make_api}
use e2ee_windows.Router.{Env, handle, handle_type}
use e2ee_windows.Connection.{ChannelState, ConnectionHandler, on_sealed, receive, dispatch, reply}
use e2ee_windows.Connection.Replay.{no_replay}

abbrev service : ApiService
service = make_api none none none none none 0

abbrev env : Env
env = record { now = 5; later = 6; random = [] }

abbrev channel : SecureChannel
channel = record {
  enc_key = replicate 32 1;
  auth_key = replicate 32 2;
  ratchet_root = replicate 32 3;
}

channel-IsChannel : IsChannel channel
channel-IsChannel = record {
  enc = (refl, omega arith);
  auth = (refl, omega arith);
  root = (refl, omega arith);
}

-- The client's third message, and the server's reply to it.
sent :
    (sealed : Bytes) × (encrypt channel 2 (7 ∷ []) ≡ done sealed)
    × (length sealed ≡ 45)
    × (decrypt channel sealed 2 ≡ done (some (7 ∷ [])))
sent =
    decrypt-encrypt channel 2 (7 ∷ []) channel-IsChannel (omega arith) (omega arith) (omega arith)

answered :
    (sealed : Bytes) × (encrypt channel 4 [] ≡ done sealed)
    × (length sealed ≡ 44)
    × (decrypt channel sealed 4 ≡ done (some []))
answered = decrypt-encrypt channel 4 [] channel-IsChannel (omega arith) (omega arith) (omega arith)

abbrev open_state : ChannelState
open_state = record { channel = channel; send_seq = 4; recv_seq = 2 }

abbrev before : ConnectionHandler
before = record { api = service; channel_states = (text "ta", open_state) ∷ [] }

abbrev after : ConnectionHandler
after = record {
  api = service;
  channel_states = (text "ta", record open_state { send_seq = 5; recv_seq = 3 }) ∷ [];
}

abbrev reply_bytes : Bytes
reply_bytes =
    encode_frame (record {
      type = FrameType.heartbeat;
      payload = (write_string (text "ta") []).0 ++ answered.0;
    })

beats : on_sealed before FrameType.heartbeat (text "ta") sent.0 env ≡ done (after, some reply_bytes)
unfolding on_sealed receive dispatch reply handle handle_type find put erase same type_code
beats = rw (is_empty_pos sent.0 (omega (arith, sent.2))) (rw (sent.3, answered.1) refl)

heartbeat_no_logout : type_code FrameType.heartbeat ≢ 2
unfolding type_code
heartbeat_no_logout h = omega arith

no_replay_example :
    ¬ (on_sealed after FrameType.heartbeat (text "ta") sent.0 env ≡ done (before, some []))
no_replay_example =
    no_replay before after before FrameType.heartbeat FrameType.heartbeat (text "ta") sent.0
      reply_bytes [] env env heartbeat_no_logout heartbeat_no_logout beats

abbrev long_frame : Frame
long_frame = record { type = FrameType.heartbeat; payload = replicate 5000 7 }

serve-received_example : serve before (received (encode_frame long_frame)) env ≡ done (before, none)
unfolding type_code frame_type
serve-received_example =
    serve-received before long_frame env (refl, omega arith) (omega arith) (omega arith)
