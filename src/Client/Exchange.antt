-- ===== src/Client/Exchange.antt =====
-- client_core.cpp with connection_handler.cpp: a request that a client seals, that the server in the
-- same process opens and answers, and whose reply the client opens.
use e2ee_windows.Common.{
  ℕ, ◌+◌, ◌%◌, ◌^◌, ◌≤◌, ◌<◌, ◌≡◌, ◌≢◌, refl, ◌∙◌, true, false, Bytes, All, IsByte, some, done,
  arith, Option, length, is_empty, is_empty_pos, same_refl,
}
use e2ee_windows.Common.Word.{to_le}
use e2ee_windows.Frame.{Frame, FrameType, type_code, raw_header, encode_frame}
use e2ee_windows.Frame.RoundTrip.{IsProper}
use e2ee_windows.Channel.{encrypt, decrypt}
use e2ee_windows.Channel.Keys.{IsChannel}
use e2ee_windows.Api.{ApiService}
use e2ee_windows.Router.{Env, Answer, handle}
use e2ee_windows.Connection.{
  ChannelState, ConnectionHandler, Outcome, with_state, reply, dispatch, receive,
}
use e2ee_windows.Connection.Sealed.{
  envelope, read_string-envelope, decode_frame-envelope, on_data-envelope, serving,
  on_sealed-serving,
}
use e2ee_windows.Capi.{process}
use e2ee_windows.Client.{
  ClientCore, ensure_channel, filled, process_local, open_reply, read_reply, process_raw,
  process_encrypted,
}

-- The state of the server's end of a channel: what the client sends next is received next.
abbrev pub mirror : ClientCore → ChannelState
mirror c = record { channel = c.channel; send_seq = c.recv_seq; recv_seq = c.send_seq }

-- A client that is logged in at a server in its process, and has not used up its numbers.
pub record IsActive (c : ClientCore) : Type 0 where
  pub local : c.remote_mode ≡ false
  pub channel : IsChannel c.channel
  pub token : 0 < length c.token
  pub token_fits : length c.token ≤ 0xffff
  pub send : c.send_seq + 1 < 2 ^ 64
  pub recv : c.recv_seq + 1 < 2 ^ 64

-- A message that one buffer of the HMAC has room for.
abbrev pub IsSmall : Bytes → Type 0
IsSmall bs = (length bs ≤ 1012) × All IsByte bs

-- The client behind a request, and behind a reply to it.
abbrev pub asked : ClientCore → ConnectionHandler → ClientCore
asked c h = record c { local_handle = some h; send_seq = c.send_seq + 1 }

abbrev pub answered : ClientCore → ConnectionHandler → ClientCore
answered c h = record (asked c h) { recv_seq = c.recv_seq + 1 }

dispatch_answer :
    (h : ConnectionHandler) (type : FrameType) (token : Bytes) (state : ChannelState) (env : Env)
    (plain : Bytes) (a : Answer)
    → state.recv_seq + 1 < 2 ^ 64
    → handle h.api (record { type = type; payload = plain }) token env ≡ done a
    → (let next : ChannelState = record state { recv_seq = state.recv_seq + 1 } in
        dispatch h type token state env (some plain) ≡ reply (with_state h token next) token next a)
unfolding dispatch
dispatch_answer h type token state env plain a lt e = rw e (ground arith)

receive_sealed :
    (h : ConnectionHandler) (type : FrameType) (token sealed plain : Bytes) (state : ChannelState)
    (env : Env)
    → decrypt state.channel sealed state.recv_seq ≡ done (some plain)
    → receive h type token sealed state env ≡ dispatch h type token state env (some plain)
unfolding receive
receive_sealed h type token sealed plain state env e = rw e refl

pub is_empty-encode_frame : (f : Frame) → is_empty (encode_frame f) ≡ false
unfolding encode_frame raw_header to_le
is_empty-encode_frame f = refl

pub filled-encode_frame : (f : Frame) → filled (some (encode_frame f)) ≡ some (encode_frame f)
unfolding encode_frame raw_header to_le
filled-encode_frame f = refl

-- What the server makes of a sealed request.
pub process_sealed :
    (c : ClientCore) (h h₁ : ConnectionHandler) (type : FrameType) (plain sealed : Bytes)
    (env : Env) (a : Answer)
    → IsActive c
    → IsProper type
    → type_code type ≢ 1
    → length sealed ≡ length plain + 44
    → length plain ≤ 1012
    → decrypt c.channel sealed c.send_seq ≡ done (some plain)
    → serving h c.token env.now ≡ some (h₁, mirror c)
    → handle h₁.api (record { type = type; payload = plain }) c.token env ≡ done a
    → (let next : ChannelState = record (mirror c) { recv_seq = c.send_seq + 1 } in
        process h (encode_frame (envelope type c.token sealed)) env
        ≡ reply (with_state h₁ c.token next) c.token next a)
unfolding process
process_sealed c h h₁ type plain sealed env a v p ne size le opens up e = rw is_empty-encode_frame (
    on_data-envelope h type c.token sealed env p ne v.token_fits (omega arith)
    ∙ on_sealed-serving h h₁ type c.token sealed env (mirror c) up (omega arith)
    ∙ receive_sealed h₁ type c.token sealed plain (mirror c) env opens
    ∙ dispatch_answer h₁ type c.token (mirror c) env plain a v.send e)

-- The client opens a reply that was sealed under its number.
pub read_reply-envelope :
    (c : ClientCore) (type : FrameType) (plain sealed : Bytes)
    → IsProper type
    → length c.token ≤ 0xffff
    → c.recv_seq + 1 < 2 ^ 64
    → length sealed ≤ 0xffff
    → decrypt c.channel sealed c.recv_seq ≡ done (some plain)
    → read_reply c (filled (some (encode_frame (envelope type c.token sealed))))
      ≡ done (record c { recv_seq = c.recv_seq + 1 }, some plain)
unfolding read_reply open_reply
read_reply-envelope c type plain sealed p ht lt hs opens =
    let (e, d) = read_string-envelope type c.token sealed ht in
    rw
      (
        filled-encode_frame (envelope type c.token sealed),
        read_reply,
        decode_frame-envelope type c.token sealed p ht hs,
        e,
        open_reply,
        same_refl c.token,
        d,
        opens,
      )
      (ground arith)

-- Whatever the handler decided is what the client gets.
pub reply-some :
    (h : ConnectionHandler) (token : Bytes) (state : ChannelState) (api : ApiService) (out : Frame)
    (cipher : Bytes)
    → encrypt state.channel state.send_seq out.payload ≡ done cipher
    → state.send_seq + 1 < 2 ^ 64
    → type_code out.type ≢ 2
    → reply h token state (api, some out)
      ≡ done (
        with_state (record h { api = api }) token (record state { send_seq = state.send_seq + 1 }),
        some (encode_frame (envelope out.type token cipher)),
      )
unfolding reply
reply-some h token state api out cipher e lt ne = rw e (ground arith)

pub ensure_channel_local :
    (c : ClientCore) (h : ConnectionHandler)
    → IsActive c
    → c.local_handle ≡ some h
    → ensure_channel c ≡ true
unfolding ensure_channel
ensure_channel_local c h v lh = rw (is_empty_pos c.token v.token, v.local, lh) refl

module _ {W : Type 0} (tcp : W → Bytes → ℕ → Bytes → W × Option Bytes) where
  pub process_raw_local :
      (c : ClientCore) (w : W) (env : Env) (h : ConnectionHandler) (f : Frame) (r : Outcome)
      → c.remote_mode ≡ false
      → c.local_handle ≡ some h
      → process h (encode_frame f) env ≡ done r
      → process_raw tcp c w env (encode_frame f)
        ≡ done (record c { local_handle = some r.0 }, w, filled r.1)
  unfolding process_raw process_local encode_frame raw_header to_le
  process_raw_local c w env h f r rm lh e = rw (rm, lh, e) refl

  -- A request of the client, by what its server makes of it, and what is read of that.
  pub process_encrypted_local :
      (c c' : ClientCore) (w : W) (env : Env) (h : ConnectionHandler) (type : FrameType)
      (plain sealed : Bytes) (r : Outcome) (o : Option Bytes)
      → IsActive c
      → c.local_handle ≡ some h
      → encrypt c.channel c.send_seq plain ≡ done sealed
      → process h (encode_frame (envelope type c.token sealed)) env ≡ done r
      → read_reply (asked c r.0) (filled r.1) ≡ done (c', o)
      → process_encrypted tcp c w env type plain ≡ done (c', w, o)
  unfolding process_encrypted
  process_encrypted_local c c' w env h type plain sealed r o v lh e k read =
      let sent : ClientCore = record c { send_seq = (c.send_seq + 1) % 2 ^ 64 } in
      let wrap : (c.send_seq + 1) % 2 ^ 64 ≡ c.send_seq + 1 = omega (arith, v.send) in
      let raw = process_raw_local sent w env h (envelope type c.token sealed) r v.local lh k in
      rw (ensure_channel_local c h v lh, e, raw, wrap, read) refl
