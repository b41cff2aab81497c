-- ===== src/Client/Talking.antt =====
-- client_core.cpp with connection_handler.cpp and frame_router.cpp: a whole conversation over the
-- channel is the one that the router would have without it.
use e2ee_windows.Common.{
  ℕ, suc, ◌+◌, ◌^◌, ◌≤◌, ◌<◌, ◌≡◌, ◌≢◌, refl, ap, ◌∙◌, false, Bytes, All, some, none, done,
  >>=-eq-done, ◌>>=◌, Run, arith, List, [], ◌∷◌, Option, length,
}
use e2ee_windows.Frame.{Frame, FrameType, type_code}
use e2ee_windows.Frame.RoundTrip.{IsProper}
use e2ee_windows.Channel.Keys.{IsChannel}
use e2ee_windows.Api.{ApiService}
use e2ee_windows.Router.{Env, handle}
use e2ee_windows.Connection.{ConnectionHandler}
use e2ee_windows.Client.{ClientCore, process_encrypted}
use e2ee_windows.Client.Exchange.{IsActive, IsSmall, asked, answered}
use e2ee_windows.Client.InStep.{InStep, process_encrypted-answered, process_encrypted_dropped}

-- A request, with what the server sees of the world while it handles it.
pub record Request : Type 0 where
  pub env : Env
  pub type : FrameType
  pub plain : Bytes

-- The payload of an answer.
abbrev pub payload_of : Option Frame → Option Bytes
payload_of none = none
payload_of (some f) = some f.payload

-- What the router answers to one request after the other.
unfoldable pub direct : ApiService → Bytes → List Request → Run (ApiService × List (Option Bytes))
direct api token [] = done (api, [])
direct api token (q ∷ qs) = do
  (api', out) ← handle api (record { type = q.type; payload = q.plain }) token q.env
  (api'', outs) ← direct api' token qs
  done (api'', payload_of out ∷ outs)

-- A request that is neither a login nor a logout, and that one sealed message has room for.
pub record IsRequest (q : Request) : Type 0 where
  pub proper : IsProper q.type
  pub no_login : type_code q.type ≢ 1
  pub no_logout : type_code q.type ≢ 2
  pub small : IsSmall q.plain

abbrev pub SmallReply : Option Bytes → Type 0
SmallReply none = Unit
SmallReply (some bs) = IsSmall bs

-- A client with numbers for `n` more requests.
pub record HasRoom (c : ClientCore) (n : ℕ) : Type 0 where
  pub local : c.remote_mode ≡ false
  pub channel : IsChannel c.channel
  pub token : 0 < length c.token
  pub token_fits : length c.token ≤ 0xffff
  pub send : c.send_seq + n < 2 ^ 64
  pub recv : c.recv_seq + n < 2 ^ 64

HasRoom-IsActive : (c : ClientCore) (n : ℕ) → HasRoom c (suc n) → IsActive c
HasRoom-IsActive c n v = record {
  local = v.local;
  channel = v.channel;
  token = v.token;
  token_fits = v.token_fits;
  send = omega (arith, v.send);
  recv = omega (arith, v.recv);
}

asked-HasRoom :
    (c : ClientCore) (h : ConnectionHandler) (n : ℕ) → HasRoom c (suc n) → HasRoom (asked c h) n
asked-HasRoom c h n v = record {
  local = v.local;
  channel = v.channel;
  token = v.token;
  token_fits = v.token_fits;
  send = omega (arith, v.send);
  recv = omega (arith, v.recv);
}

answered-HasRoom :
    (c : ClientCore) (h : ConnectionHandler) (n : ℕ) → HasRoom c (suc n) → HasRoom (answered c h) n
answered-HasRoom c h n v = record {
  local = v.local;
  channel = v.channel;
  token = v.token;
  token_fits = v.token_fits;
  send = omega (arith, v.send);
  recv = omega (arith, v.recv);
}

direct_parts :
    (api : ApiService) (token : Bytes) (q : Request) (qs : List Request) (api' : ApiService)
    (rs : List (Option Bytes))
    → direct api token (q ∷ qs) ≡ done (api', rs)
    → (api₁ : ApiService) × (out : Option Frame) × (rest : List (Option Bytes)) × (handle api
          (record { type = q.type; payload = q.plain })
          token
          q.env
        ≡ done (api₁, out))
      × (direct api₁ token qs ≡ done (api', rest))
      × (payload_of out ∷ rest ≡ rs)
unfolding direct
direct_parts api token q qs api' rs e =
    let ((api₁, out), e₁, k) =
      >>=-eq-done (handle api (record { type = q.type; payload = q.plain }) token q.env) _ e in
    let ((api₂, rest), e₂, k₂) = >>=-eq-done (direct api₁ token qs) _ k in
    let same_api : api₂ ≡ api' = ground (arith, k₂) in
    (api₁, out, rest, e₁, e₂ ∙ ap (λ (a : ApiService). done (a, rest)) same_api, ground (arith, k₂))

module _ {W : Type 0} (tcp : W → Bytes → ℕ → Bytes → W × Option Bytes) where
  -- The client makes one request after the other.
  unfoldable pub talk : ClientCore → W → List Request → Run (ClientCore × W × List (Option Bytes))
  talk c w [] = done (c, w, [])
  talk c w (q ∷ qs) = do
    (c', w', r) ← process_encrypted tcp c w q.env q.type q.plain
    (c'', w'', rs) ← talk c' w' qs
    done (c'', w'', r ∷ rs)

  -- One request, by what the router answers to it.
  step :
      (c : ClientCore) (w : W) (h : ConnectionHandler) (q : Request) (api : ApiService)
      (out : Option Frame) (n : ℕ)
      → HasRoom c (suc n)
      → c.local_handle ≡ some h
      → InStep c h
      → IsRequest q
      → handle h.api (record { type = q.type; payload = q.plain }) c.token q.env ≡ done (api, out)
      → SmallReply (payload_of out)
      → (c' : ClientCore) × (h' : ConnectionHandler) × (process_encrypted tcp c w q.env q.type
            q.plain
          ≡ done (c', w, payload_of out))
        × HasRoom c' n
        × (c'.token ≡ c.token)
        × (c'.local_handle ≡ some h')
        × (h'.api ≡ api)
        × InStep c' h'
  step c w h q api none n v lh up r made fits =
      let (h', e, kept, still) =
        process_encrypted_dropped tcp c w q.env h h q.type q.plain (HasRoom-IsActive c n v) lh
          (up q.env.now) r.proper r.no_login r.small api made in
      (asked c h', h', e, asked-HasRoom c h' n v, refl, refl, kept, still)
  step c w h q api (some out) n v lh up r made fits =
      let (h', e, kept, still) =
        process_encrypted-answered tcp c w q.env h h q.type q.plain (HasRoom-IsActive c n v) lh
          (up q.env.now) r.proper r.no_login r.small api out r.no_logout made fits in
      (answered c h', h', e, answered-HasRoom c h' n v, refl, refl, kept, still)

  -- A client that is in step with the server in its process gets, for any list of requests that one
  -- sealed message each has room for, exactly the answers that the router gives to the same requests
  -- without the channel, and leaves the server's service as the router leaves it, where the answers
  -- have room too and neither side runs out of numbers; the two stay in step.
  pub talk-direct :
      (qs : List Request) (c : ClientCore) (w : W) (h : ConnectionHandler) (api : ApiService)
      (rs : List (Option Bytes))
      → HasRoom c (length qs)
      → c.local_handle ≡ some h
      → InStep c h
      → All IsRequest qs
      → direct h.api c.token qs ≡ done (api, rs)
      → All SmallReply rs
      → (c' : ClientCore) × (h' : ConnectionHandler) × (talk c w qs ≡ done (c', w, rs))
        × (c'.local_handle ≡ some h')
        × (h'.api ≡ api)
        × InStep c' h'
  unfolding talk direct
  talk-direct [] c w h api rs v lh up rq e small =
      let same_api : h.api ≡ api = ground (arith, e) in
      let none_left : [] ≡ rs = ground (arith, e) in (c, h, rw (← none_left) refl, lh, same_api, up)
  talk-direct (q ∷ qs) c w h api rs v lh up rq e small =
      let (api₁, out, rest, e₁, e₂, shape) = direct_parts h.api c.token q qs api rs e in
      let fits : All SmallReply (payload_of out ∷ rest) = rw (← shape) at small in
      let (c', h', got, v', same_token, lh', kept, still) =
        step c w h q api₁ out (length qs) v lh up rq.0 e₁ fits.0 in
      let behind : direct h'.api c'.token qs ≡ done (api, rest) = rw (kept, same_token) e₂ in
      let (c'', h'', more, lh'', kept', still') =
        talk-direct qs c' w h' api rest v' lh' still rq.1 behind fits.1 in
      let whole = ap (λ (l : List (Option Bytes)). done (c'', w, l)) shape in
      (c'', h'', rw (talk, got, more) whole, lh'', kept', still')
