-- ===== src/Client/Leaving.antt =====
-- client_core.cpp with the server in the same process: `Logout`, and what is left at both ends.
use e2ee_windows.Common.{
  ℕ, ◌+◌, ◌^◌, ◌<◌, ◌≤◌, ◌≡◌, ◌≢◌, ◌⊎◌, inl, inr, Run, refl, ◌∙◌, true, Bytes, some, none, done,
  arith, [], ◌∷◌, Option, length, is_empty_pos, same_refl,
}
use e2ee_windows.Common.Dict.{find, erase, put, find-erase}
use e2ee_windows.Frame.{Frame, FrameType, type_code, frame_type, encode_frame}
use e2ee_windows.Frame.RoundTrip.{IsProper}
use e2ee_windows.Channel.{encrypt}
use e2ee_windows.Channel.Sealing.{decrypt-encrypt}
use e2ee_windows.Session
use e2ee_windows.Session.{SessionManager, get_keys}
use e2ee_windows.Session.View.{get_session-live, live-logout}
use e2ee_windows.Api
use e2ee_windows.Api.{ApiService}
use e2ee_windows.Router.{Env, answer, handle, handle_type, with_token}
use e2ee_windows.Router.Encoding.{encode_plain_resp}
use e2ee_windows.Connection.{
  ChannelState, ConnectionHandler, Outcome, with_state, keys_of, reply, open_channel, on_sealed,
  on_data,
}
use e2ee_windows.Connection.Sealed.{envelope, serving, on_data-envelope}
use e2ee_windows.Client.{ClientCore, logout}
use e2ee_windows.Client.Exchange.{
  mirror, IsActive, asked, answered, process_sealed, read_reply-envelope, process_encrypted_local,
}

-- A logout is answered with a mark of success, and closes the channel.
reply_closes :
    (h : ConnectionHandler) (token : Bytes) (state : ChannelState) (api : ApiService) (out : Frame)
    (cipher : Bytes)
    → encrypt state.channel state.send_seq out.payload ≡ done cipher
    → state.send_seq + 1 < 2 ^ 64
    → type_code out.type ≡ 2
    → reply h token state (api, some out)
      ≡ done (
        record {
          api = api;
          channel_states =
              erase token
                (put token (record state { send_seq = state.send_seq + 1 }) h.channel_states);
        },
        some (encode_frame (envelope out.type token cipher)),
      )
unfolding reply
reply_closes h token state api out cipher e lt ends = rw e (ground arith)

handle-logout :
    (api : ApiService) (sm : SessionManager) (token : Bytes) (env : Env)
    → api.sessions ≡ some sm
    → 0 < length token
    → handle api (record { type = FrameType.logout; payload = [] }) token env
      ≡ done (
        record api { sessions = some (Session.logout sm token) },
        some (record { type = FrameType.logout; payload = 1 ∷ [] }),
      )
unfolding handle handle_type with_token answer encode_plain_resp Api.logout
handle-logout api sm token env e pos = rw (is_empty_pos token pos, e) refl

-- Where the session has ended and the channel is closed, nothing is opened.
serving-closed :
    (h : ConnectionHandler) (sm : SessionManager) (token : Bytes) (later : ℕ)
    → h.api.sessions ≡ some (Session.logout sm token)
    → find token h.channel_states ≡ none
    → serving h token later ≡ none
unfolding serving keys_of get_keys
serving-closed h sm token later e closed =
    let ended =
      (get_session-live (Session.logout sm token) token token later later (omega arith)).0
      ∙ live-logout sm token token later in
    rw (closed, e, ended, same_refl token) refl

-- The outcome of a message is a drop: no answer, and no channel for the token; the sessions of the
-- handler have at most been looked up.
abbrev pub IsDropped : ConnectionHandler → Bytes → Run Outcome → Type 0
IsDropped h token r =
    (h' : ConnectionHandler) × (r ≡ done (h', none))
    × (find token h'.channel_states ≡ none)
    × ((h'.api ≡ h.api) ⊎ ((now : ℕ) × (h'.api ≡ (keys_of h.api token now).0)))

on_sealed-closed :
    (h : ConnectionHandler) (sm : SessionManager) (type : FrameType) (token cipher : Bytes)
    (env : Env)
    → h.api.sessions ≡ some (Session.logout sm token)
    → find token h.channel_states ≡ none
    → IsDropped h token (on_sealed h type token cipher env)
unfolding on_sealed open_channel keys_of get_keys
on_sealed-closed h sm type token [] env e closed = (h, refl, closed, inl refl)
on_sealed-closed h sm type token (b ∷ bs) env e closed =
    let ended =
      (get_session-live (Session.logout sm token) token token env.now env.now (omega arith)).0
      ∙ live-logout sm token token env.now in
    let keyless : (keys_of h.api token env.now).1 ≡ none =
      rw (keys_of, e, ended, same_refl token) refl in
    let h' : ConnectionHandler = record {
      api = (keys_of h.api token env.now).0;
      channel_states = erase token h.channel_states;
    } in
    (
      h',
      rw closed (ground (arith, keyless)),
      find-erase token token h.channel_states ∙ rw (same_refl token) refl,
      inr (env.now, refl),
    )

-- What `OnData` makes of a message under the token of a session that has ended.
on_data-closed :
    (h : ConnectionHandler) (sm : SessionManager) (type : FrameType) (token cipher : Bytes)
    (env : Env)
    → h.api.sessions ≡ some (Session.logout sm token)
    → find token h.channel_states ≡ none
    → IsProper type
    → type_code type ≢ 1
    → length token ≤ 0xffff
    → length cipher ≤ 0xffff
    → IsDropped h token (on_data h (encode_frame (envelope type token cipher)) env)
on_data-closed h sm type token cipher env e closed p ne ht size =
    rw (on_data-envelope h type token cipher env p ne ht size)
      (on_sealed-closed h sm type token cipher env e closed)

module _ {W : Type 0} (tcp : W → Bytes → ℕ → Bytes → W × Option Bytes) (c : ClientCore) (w : W)
    (env : Env) (h h₁ : ConnectionHandler) (sm : SessionManager) where
  -- A client that is logged in at the server in its process, and in step with it, logs out: its
  -- session ends and its channel is closed at the server, and the client has no token any more.
  -- Whatever message under the token the server gets next, with at most 65535 bytes sealed and
  -- not a login, at whatever time: it is dropped without an answer, and the channel stays closed.
  pub logout_lem :
      IsActive c
      → c.local_handle ≡ some h
      → serving h c.token env.now ≡ some (h₁, mirror c)
      → h₁.api.sessions ≡ some sm
      → (h' : ConnectionHandler) × (logout tcp c w env
          ≡ done (record (answered c h') { token = [] }, w, true))
        × ((later : ℕ) → serving h' c.token later ≡ none)
        × ((type : FrameType) (cipher : Bytes) (later : Env)
            → IsProper type
            → type_code type ≢ 1
            → length cipher ≤ 0xffff
            → IsDropped h' c.token (on_data h' (encode_frame (envelope type c.token cipher)) later))
  unfolding logout type_code frame_type
  logout_lem v lh up there =
      let (sealed, e, size, opens) =
        decrypt-encrypt c.channel c.send_seq [] v.channel (omega (arith, v.send)) (omega arith)
          tt in
      let (cipher, e', size', opens') =
        decrypt-encrypt c.channel c.recv_seq (1 ∷ []) v.channel (omega (arith, v.recv))
          (omega arith) (omega arith, tt) in
      let api : ApiService = record h₁.api { sessions = some (Session.logout sm c.token) } in
      let out : Frame = record { type = FrameType.logout; payload = 1 ∷ [] } in
      let next : ChannelState = record (mirror c) { recv_seq = c.send_seq + 1 } in
      let opened = with_state h₁ c.token next in
      let states = put c.token (record next { send_seq = c.recv_seq + 1 }) opened.channel_states in
      let h' : ConnectionHandler = record { api = api; channel_states = erase c.token states } in
      let served =
        process_sealed c h h₁ FrameType.logout [] sealed env (api, some out) v (refl, omega arith)
          (omega arith) size (omega arith) opens up
          (handle-logout h₁.api sm c.token env there v.token)
        ∙ reply_closes opened c.token next api out cipher e' v.recv refl in
      let read =
        read_reply-envelope (asked c h') FrameType.logout (1 ∷ []) cipher (refl, omega arith)
          v.token_fits v.recv (omega arith) opens' in
      let called =
        process_encrypted_local tcp c (answered c h') w env h FrameType.logout [] sealed _
          (some (1 ∷ [])) v lh e served read in
      (
        h',
        rw (is_empty_pos c.token v.token, called) refl,
        λ later.
            serving-closed h' sm c.token later refl
              (find-erase c.token c.token states ∙ rw (same_refl c.token) refl),
        λ type cipher later p ne size.
            on_data-closed h' sm type c.token cipher later refl
              (find-erase c.token c.token states ∙ rw (same_refl c.token) refl) p ne v.token_fits
              size,
      )
