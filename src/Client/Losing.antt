-- ===== src/Client/Losing.antt =====
-- client_core.cpp with connection_handler.cpp: what a request that is lost on its way does to the
-- requests behind it.
use e2ee_windows.Common.{
  ℕ, ◌+◌, ◌%◌, ◌^◌, ◌≤◌, ◌<◌, ◌≡◌, ◌≢◌, refl, ◌∙◌, true, false, ◌==◌, Bytes, some, none, done,
  arith, Option, length, is_empty_pos,
}
use e2ee_windows.Common.Word.{to_le}
use e2ee_windows.Frame.{Frame, FrameType, type_code, raw_header, encode_frame}
use e2ee_windows.Frame.RoundTrip.{IsProper}
use e2ee_windows.Channel.{encrypt}
use e2ee_windows.Channel.Keys.{IsChannel}
use e2ee_windows.Channel.Sealing.{decrypt-encrypt, decrypt-encrypt_ne}
use e2ee_windows.Router.{Env}
use e2ee_windows.Connection.{
  ChannelState, ConnectionHandler, with_state, dispatch, receive, on_data,
}
use e2ee_windows.Connection.Sealed.{envelope, serving, on_data-envelope, on_sealed-serving}
use e2ee_windows.Client.{ClientCore, ensure_channel, read_reply, process_raw, process_encrypted}
use e2ee_windows.Client.Exchange.{mirror, IsSmall}

-- A client that is logged in at a server it reaches over the network.
pub record IsRemote (c : ClientCore) : Type 0 where
  pub remote : c.remote_mode ≡ true
  pub server : (0 < length c.server_ip) × ((c.server_port == 0) ≡ false)
  pub channel : IsChannel c.channel
  pub token : 0 < length c.token
  pub token_fits : length c.token ≤ 0xffff
  pub send : c.send_seq + 2 < 2 ^ 64

-- A message under another number than the one that the server waits for is dropped, and the number
-- stays.
receive_other :
    (h : ConnectionHandler) (type : FrameType) (token sealed plain : Bytes) (state : ChannelState)
    (seq : ℕ) (env : Env)
    → IsChannel state.channel
    → seq < 2 ^ 64
    → length plain ≤ 1012
    → encrypt state.channel seq plain ≡ done sealed
    → seq ≢ state.recv_seq
    → receive h type token sealed state env ≡ done (with_state h token state, none)
unfolding receive dispatch
receive_other h type token sealed plain state seq env v hs le e ne =
    rw (decrypt-encrypt_ne state.channel seq state.recv_seq plain sealed v hs le e ne) refl

module _ {W : Type 0} (tcp : W → Bytes → ℕ → Bytes → W × Option Bytes) where
  ensure_channel_remote : (c : ClientCore) → IsRemote c → ensure_channel c ≡ true
  unfolding ensure_channel
  ensure_channel_remote c v =
      rw (is_empty_pos c.token v.token, v.remote, is_empty_pos c.server_ip v.server.0, v.server.1)
        refl

  process_raw_lost :
      (c : ClientCore) (w w' : W) (env : Env) (f : Frame)
      → c.remote_mode ≡ true
      → ((bytes : Bytes) → tcp w c.server_ip c.server_port bytes ≡ (w', none))
      → process_raw tcp c w env (encode_frame f) ≡ done (c, w', none)
  unfolding process_raw encode_frame raw_header to_le
  process_raw_lost c w w' env f rm lost = rw (rm, lost (encode_frame f)) refl

  process_encrypted_lost :
      (c : ClientCore) (w w' : W) (env : Env) (type : FrameType) (plain sealed : Bytes)
      → IsRemote c
      → encrypt c.channel c.send_seq plain ≡ done sealed
      → ((bytes : Bytes) → tcp w c.server_ip c.server_port bytes ≡ (w', none))
      → process_encrypted tcp c w env type plain
        ≡ done (record c { send_seq = c.send_seq + 1 }, w', none)
  unfolding process_encrypted read_reply
  process_encrypted_lost c w w' env type plain sealed v e lost =
      let sent : ClientCore = record c { send_seq = (c.send_seq + 1) % 2 ^ 64 } in
      let wrap : (c.send_seq + 1) % 2 ^ 64 ≡ c.send_seq + 1 = omega (arith, v.send) in
      let raw = process_raw_lost sent w w' env (envelope type c.token sealed) v.remote lost in
      rw (ensure_channel_remote c v, e, raw, wrap) refl

  -- Where a request is lost on the network, the client counts it all the same, and the server, which
  -- was in step with the client before, drops the next request and still waits for the number of the
  -- lost one.
  pub process_encrypted-lost :
      (c : ClientCore) (w w' : W) (env env' : Env) (h h₁ : ConnectionHandler)
      (type type' : FrameType) (plain plain' : Bytes)
      → IsRemote c
      → serving h c.token env'.now ≡ some (h₁, mirror c)
      → IsSmall plain
      → IsSmall plain'
      → IsProper type'
      → type_code type' ≢ 1
      → ((bytes : Bytes) → tcp w c.server_ip c.server_port bytes ≡ (w', none))
      → (let c' : ClientCore = record c { send_seq = c.send_seq + 1 } in
          (process_encrypted tcp c w env type plain ≡ done (c', w', none))
          × (sealed : Bytes) × (encrypt c'.channel c'.send_seq plain' ≡ done sealed)
          × (on_data h (encode_frame (envelope type' c'.token sealed)) env'
              ≡ done (with_state h₁ c.token (mirror c), none)))
  process_encrypted-lost c w w' env env' h h₁ type type' plain plain' v up small small' p ne lost =
      let (first, e, _, _) =
        decrypt-encrypt c.channel c.send_seq plain v.channel (omega (arith, v.send)) small.0
          small.1 in
      let (sealed, e', size, _) =
        decrypt-encrypt c.channel (c.send_seq + 1) plain' v.channel (omega (arith, v.send)) small'.0
          small'.1 in
      (
        process_encrypted_lost c w w' env type plain first v e lost,
        sealed,
        e',
        on_data-envelope h type' c.token sealed env' p ne v.token_fits
              (omega (arith, size, small'.0))
            ∙ on_sealed-serving h h₁ type' c.token sealed env' (mirror c) up (omega (arith, size))
            ∙ receive_other h₁ type' c.token sealed plain' (mirror c) (c.send_seq + 1) env'
                v.channel (omega (arith, v.send)) small'.0 e' (λ q. omega (arith, q)),
      )
