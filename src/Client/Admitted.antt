-- ===== src/Client/Admitted.antt =====
-- client_core.cpp with the server in the same process: `Login`, and the first request behind it.
use e2ee_windows.Common.{
  ℕ, ◌+◌, ◌-◌, ◌≤◌, ◌<◌, ◌≡◌, ◌≢◌, refl, true, false, Bytes, some, none, ok, done, Option, length,
}
use e2ee_windows.Common.Dict.{find}
use e2ee_windows.Frame.{FrameType, type_code}
use e2ee_windows.Frame.RoundTrip.{IsProper}
use e2ee_windows.Session
use e2ee_windows.Session.{Session, SessionManager, get_keys}
use e2ee_windows.Api.{ApiService}
use e2ee_windows.Router.{Env, handle}
use e2ee_windows.Frame.{Frame}
use e2ee_windows.Connection.{ConnectionHandler}
use e2ee_windows.Connection.Sealed.{serving}
use e2ee_windows.Client.{ClientCore, login, process_encrypted}
use e2ee_windows.Client.Exchange.{mirror, IsActive, IsSmall, answered}
use e2ee_windows.Client.InStep.{InStep, process_encrypted-answered}
use e2ee_windows.Client.Entering.{
  with_manager, entered, login-entered, entered-IsActive, serving-entered,
}

module _ {W : Type 0} (tcp : W → Bytes → ℕ → Bytes → W × Option Bytes) (c : ClientCore) (w : W)
    (env : Env) (h : ConnectionHandler) (sm sm' : SessionManager) (s : Session)
    (username password : Bytes) (local : c.remote_mode ≡ false) (lh : c.local_handle ≡ some h)
    (there : h.api.sessions ≡ some sm) (hu : 0 < length username) (hp : 0 < length password)
    (short : length username + length password ≤ 1023)
    (made : Session.login sm username password env.now env.random ≡ done (sm', ok s))
    (ht : length s.token ≤ 0xffff) where
  -- A client in the process of its server logs in with a name and a password, neither empty and of
  -- at most 1023 bytes together, which the manager of sessions accepts. The login succeeds, and
  -- the client has the session's token and a channel with its keys. For as long as the session
  -- lives, and where the token is not empty, has at most 65535 bytes and is not one of an open
  -- channel, the first request behind it, with a message of at most 1012 bytes and neither a
  -- login nor a logout, is served: where the router answers with at most 1012 bytes, the client
  -- gets that answer, the service is as the router leaves it, and the two are in step.
  pub login-InStep :
      (later : Env) (type : FrameType) (plain : Bytes) (api : ApiService) (out : Frame)
      → 0 < length s.token
      → find s.token h.channel_states ≡ none
      → env.now ≤ later.now
      → later.now - env.now ≤ sm.ttl
      → IsProper type
      → type_code type ≢ 1
      → type_code type ≢ 2
      → IsSmall plain
      → handle
          (with_manager h (get_keys sm' s.token later.now).0).api
          (record { type = type; payload = plain })
          s.token
          later
        ≡ done (api, some out)
      → IsSmall out.payload
      → (let c' = entered c (with_manager h sm') s username password in
          (login tcp c w env username password ≡ done (c', w, true))
          × IsActive c'
          × (serving (with_manager h sm') s.token later.now
              ≡ some (with_manager h (get_keys sm' s.token later.now).0, mirror c'))
          × (h' : ConnectionHandler) × (process_encrypted tcp c' w later type plain
              ≡ done (answered c' h', w, some out.payload))
          × (h'.api ≡ api)
          × InStep (answered c' h') h')
  login-InStep later type plain api out pos fresh le alive p ne ne₂ small made' fits =
      let c' = entered c (with_manager h sm') s username password in
      let active =
        entered-IsActive tcp c w env h sm sm' s username password local lh there hu hp short made ht
          pos in
      let up =
        serving-entered tcp c w env h sm sm' s username password local lh there hu hp short made ht
          later.now fresh le alive in
      let (h', asked, kept, still) =
        process_encrypted-answered tcp c' w later (with_manager h sm')
          (with_manager h (get_keys sm' s.token later.now).0) type plain active refl up p ne small
          api out ne₂ made' fits in
      (
        login-entered tcp c w env h sm sm' s username password local lh there hu hp short made ht,
        active,
        up,
        h',
        asked,
        kept,
        still,
      )
