-- ===== src/Connection/Sealed.antt =====
-- connection_handler.cpp: a sealed message on its way through `OnData`, in both directions.
use e2ee_windows.Common.{
  ℕ, ◌+◌, ◌≤◌, ◌<◌, ◌≡◌, ◌≢◌, sym, ap, ◌∙◌, ◌==◌, ◌&&◌, Bytes, some, none, arith, [], ◌++◌, Option,
  length, drop, append-nil, drop-append, length-append, is_empty_pos, if◌then◌else◌,
}
use e2ee_windows.Common.Dict.{find, or_default}
use e2ee_windows.Protocol.{write_string, read_string}
use e2ee_windows.Protocol.RoundTrip.{read_string-write_string}
use e2ee_windows.Frame.{Frame, FrameType, type_code, encode_frame, decode_frame}
use e2ee_windows.Frame.RoundTrip.{IsProper, decode_frame-encode_frame}
use e2ee_windows.Channel.{make_channel}
use e2ee_windows.Router.{Env}
use e2ee_windows.Router.Requests.{length-write_string}
use e2ee_windows.Connection.{
  ChannelState, ConnectionHandler, new_state, keys_of, receive, open_channel, on_sealed, on_token,
  on_frame, on_data,
}

-- The outer frame around a sealed message.
abbrev pub envelope : FrameType → Bytes → Bytes → Frame
envelope type token cipher = record { type = type; payload = (write_string token []).0 ++ cipher }

-- The token, and where the sealed message starts.
pub read_string-envelope :
    (type : FrameType) (token cipher : Bytes)
    → length token ≤ 0xffff
    → (read_string (envelope type token cipher).payload 0 ≡ some (token, 2 + length token))
      × (drop (2 + length token) (envelope type token cipher).payload ≡ cipher)
read_string-envelope type token cipher h = (
  ground (arith, (read_string-write_string [] token cipher h).0),
  drop-append (2 + length token) (write_string token []).0 cipher (length-write_string token h),
)

pub decode_frame-envelope :
    (type : FrameType) (token cipher : Bytes)
    → IsProper type
    → length token ≤ 0xffff
    → length cipher ≤ 0xffff
    → decode_frame (encode_frame (envelope type token cipher)) ≡ some (envelope type token cipher)
decode_frame-envelope type token cipher p h k =
    ap decode_frame (sym (append-nil _))
    ∙ decode_frame-encode_frame (envelope type token cipher) [] p
        (omega (arith, length-append (write_string token []).0 cipher, length-write_string token h))

-- What the handler sees of a sealed message that is not a login.
pub on_data-envelope :
    (h : ConnectionHandler) (type : FrameType) (token cipher : Bytes) (env : Env)
    → IsProper type
    → type_code type ≢ 1
    → length token ≤ 0xffff
    → length cipher ≤ 0xffff
    → on_data h (encode_frame (envelope type token cipher)) env ≡ on_sealed h type token cipher env
unfolding on_data on_frame on_token
on_data-envelope h type token cipher env p ne ht hc =
    let (e, d) = read_string-envelope type token cipher ht in
    rw (decode_frame-envelope type token cipher p ht hc, e) (ground (arith, d))

-- The handler and the state of the channel with which a message under the token is opened, where
-- there is a live session or a channel in use.
unfoldable pub serving : ConnectionHandler → Bytes → ℕ → Option (ConnectionHandler × ChannelState)
serving h token now =
    let state = or_default new_state (find token h.channel_states) in
    let (api, keys) = keys_of h.api token now in
    if state.send_seq == 0 && state.recv_seq == 0
    then elim keys [
      | none ↦ none
      | some k ↦ some (record h { api = api }, record state { channel = make_channel k })
    ]
    else some (h, state)

pub on_sealed-serving :
    (h h' : ConnectionHandler) (type : FrameType) (token cipher : Bytes) (env : Env)
    (state : ChannelState)
    → serving h token env.now ≡ some (h', state)
    → 0 < length cipher
    → on_sealed h type token cipher env ≡ receive h' type token cipher state env
unfolding on_sealed open_channel serving
on_sealed-serving h h' type token cipher env state e pos =
    rw (is_empty_pos cipher pos) (ground arith)
