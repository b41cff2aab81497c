-- ===== src/Client/InStep.antt =====
-- client_core.cpp with connection_handler.cpp: the two ends of a channel stay in step, and a client
-- gets what the router answered.
use e2ee_windows.Common.{
  ℕ, ◌+◌, ◌<◌, ◌≡◌, ◌≢◌, refl, ◌∙◌, Bytes, some, none, done, arith, Option, same_refl,
}
use e2ee_windows.Common.Dict.{find-put}
use e2ee_windows.Frame.{Frame, FrameType, type_code}
use e2ee_windows.Frame.RoundTrip.{IsProper}
use e2ee_windows.Channel.Sealing.{decrypt-encrypt}
use e2ee_windows.Api.{ApiService}
use e2ee_windows.Router.{Env, handle}
use e2ee_windows.Router.Requests.{handle-IsAnswer}
use e2ee_windows.Connection.{ChannelState, ConnectionHandler, with_state, reply}
use e2ee_windows.Connection.Sealed.{serving}
use e2ee_windows.Client.{ClientCore, read_reply, process_encrypted}
use e2ee_windows.Client.Exchange.{
  mirror, IsActive, IsSmall, asked, answered, process_sealed, read_reply-envelope, reply-some,
  process_encrypted_local,
}

-- At any later time the server opens what the client sends next.
abbrev pub InStep : ClientCore → ConnectionHandler → Type 0
InStep c h = (now : ℕ) → serving h c.token now ≡ some (h, mirror c)

serving-with_state :
    (h : ConnectionHandler) (token : Bytes) (state : ChannelState) (now : ℕ)
    → 0 < state.recv_seq
    → serving (with_state h token state) token now ≡ some (with_state h token state, state)
unfolding serving
serving-with_state h token state now pos =
    ground (arith, find-put token token state h.channel_states, same_refl token)

module _ {W : Type 0} (tcp : W → Bytes → ℕ → Bytes → W × Option Bytes) (c : ClientCore) (w : W)
    (env : Env) (h h₁ : ConnectionHandler) (type : FrameType) (plain : Bytes) (v : IsActive c)
    (lh : c.local_handle ≡ some h) (up : serving h c.token env.now ≡ some (h₁, mirror c))
    (p : IsProper type) (ne : type_code type ≢ 1) (small : IsSmall plain) where
  -- A request that the router answers.
  pub process_encrypted-answered :
      (api : ApiService) (out : Frame)
      → type_code type ≢ 2
      → handle h₁.api (record { type = type; payload = plain }) c.token env ≡ done (api, some out)
      → IsSmall out.payload
      → (h' : ConnectionHandler) × (process_encrypted tcp c w env type plain
          ≡ done (answered c h', w, some out.payload))
        × (h'.api ≡ api)
        × InStep (answered c h') h'
  process_encrypted-answered api out ne₂ made fits =
      let (sealed, e, size, opens) =
        decrypt-encrypt c.channel c.send_seq plain v.channel (omega (arith, v.send)) small.0
          small.1 in
      let (cipher, e', size', opens') =
        decrypt-encrypt c.channel c.recv_seq out.payload v.channel (omega (arith, v.recv)) fits.0
          fits.1 in
      let kind : out.type ≡ type =
        handle-IsAnswer h₁.api (record { type = type; payload = plain }) c.token env (api, some out)
          made in
      let next : ChannelState = record (mirror c) { recv_seq = c.send_seq + 1 } in
      let opened = with_state h₁ c.token next in
      let last : ChannelState = record next { send_seq = c.recv_seq + 1 } in
      let h' = with_state (record opened { api = api }) c.token last in
      let served =
        process_sealed c h h₁ type plain sealed env (api, some out) v p ne size small.0 opens up
          made
        ∙ reply-some opened c.token next api out cipher e' v.recv (rw kind ne₂) in
      let read =
        read_reply-envelope (asked c h') out.type out.payload cipher (rw kind p) v.token_fits v.recv
          (omega arith) opens' in
      (
        h',
        process_encrypted_local tcp c (answered c h') w env h type plain sealed _ (some out.payload)
            v lh e served read,
        refl,
        λ now. serving-with_state (record opened { api = api }) c.token last now (omega arith),
      )

  -- A request that the router drops.
  pub process_encrypted_dropped :
      (api : ApiService)
      → handle h₁.api (record { type = type; payload = plain }) c.token env ≡ done (api, none)
      → (h' : ConnectionHandler) × (process_encrypted tcp c w env type plain
          ≡ done (asked c h', w, none))
        × (h'.api ≡ api)
        × InStep (asked c h') h'
  unfolding reply read_reply
  process_encrypted_dropped api made =
      let (sealed, e, size, opens) =
        decrypt-encrypt c.channel c.send_seq plain v.channel (omega (arith, v.send)) small.0
          small.1 in
      let next : ChannelState = record (mirror c) { recv_seq = c.send_seq + 1 } in
      let h' = with_state (record h₁ { api = api }) c.token next in
      let served =
        process_sealed c h h₁ type plain sealed env (api, none) v p ne size small.0 opens up made in
      (
        h',
        process_encrypted_local tcp c (asked c h') w env h type plain sealed (h', none) none v lh e
            served refl,
        refl,
        λ now. serving-with_state (record h₁ { api = api }) c.token next now (omega arith),
      )
