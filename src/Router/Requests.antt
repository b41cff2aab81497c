-- ===== src/Router/Requests.antt =====
-- frame_router.cpp: which requests are answered, and what an unanswered one leaves behind.
use e2ee_windows.Common.{
  ◌+◌, ◌≤◌, ◌≡◌, refl, Option, none, some, [], ◌∷◌, ◌++◌, Bytes, done, ◌>>=◌, >>=-eq-done, length,
  arith, append-nil, length-append, take_all,
}
use e2ee_windows.Common.Word.{to_le, length-to_le}
use e2ee_windows.Protocol.{write_string, read_string}
use e2ee_windows.Protocol.RoundTrip.{read_string-write_string}
use e2ee_windows.Frame.{Frame, FrameType}
use e2ee_windows.Api.{ApiService}
use e2ee_windows.Api.Calls.{login}
use e2ee_windows.Router.Encoding.{encode_login_resp}
use e2ee_windows.Router.Reading.{read_two}
use e2ee_windows.Router.{
  Env, Answer, answer, with_fields, with_token, handle_login, handle_type, handle,
}

-- What is to hold of a call: an answer has the type of the request, and without one nothing changed.
abbrev pub IsAnswer : ApiService → FrameType → Answer → Type 0
IsAnswer api type (api', none) = api' ≡ api
IsAnswer api type (api', some out) = out.type ≡ type

answer-IsAnswer :
    {R : Type 0} (api : ApiService) (type : FrameType) (encode : R → Bytes) (r : ApiService × R)
    → IsAnswer api type (answer type encode r)
unfolding answer
answer-IsAnswer api type encode r = refl

with_fields-IsAnswer :
    {A : Type 0} (api : ApiService) (type : FrameType) (o : Option A) (act : A → Answer)
    → ((a : A) → IsAnswer api type (act a))
    → IsAnswer api type (with_fields api o act)
unfolding with_fields
with_fields-IsAnswer api type none act k = refl
with_fields-IsAnswer api type (some a) act k = k a

with_token-IsAnswer :
    (api : ApiService) (type : FrameType) (token : Bytes) (act : Answer)
    → IsAnswer api type act
    → IsAnswer api type (with_token api token act)
unfolding with_token
with_token-IsAnswer api type [] act v = refl
with_token-IsAnswer api type (b ∷ token) act v = v

done-IsAnswer :
    (api : ApiService) (type : FrameType) (r a : Answer)
    → IsAnswer api type r
    → done r ≡ done a
    → IsAnswer api type a
done-IsAnswer api type r a v h = let e : a ≡ r = cc in rw e v

handle_login-IsAnswer :
    (api : ApiService) (env : Env) (o : Option (Bytes × Bytes)) (a : Answer)
    → handle_login api env o ≡ done a
    → IsAnswer api FrameType.login a
unfolding handle_login
handle_login-IsAnswer api env none a h = done-IsAnswer api FrameType.login (api, none) a refl h
handle_login-IsAnswer api env (some (username, password)) a h =
    let (r, e, q) = >>=-eq-done (login api username password env.now env.random) _ h in
    done-IsAnswer api FrameType.login (answer FrameType.login encode_login_resp r) a
      (answer-IsAnswer api FrameType.login encode_login_resp r) q

handle_type-IsAnswer :
    (type : FrameType) (api : ApiService) (bs token : Bytes) (env : Env) (a : Answer)
    → handle_type type api bs token env ≡ done a
    → IsAnswer api type a
unfolding handle_type
handle_type-IsAnswer FrameType.login api bs token env a h =
    handle_login-IsAnswer api env (read_two bs) a h
handle_type-IsAnswer FrameType.logout api bs token env a h =
    done-IsAnswer api _ _ a (with_token-IsAnswer api _ token _ (answer-IsAnswer api _ _ _)) h
handle_type-IsAnswer FrameType.group_event api bs token env a h =
    done-IsAnswer api _ _ a (with_fields-IsAnswer api _ _ _ (λ x. answer-IsAnswer api _ _ _)) h
handle_type-IsAnswer FrameType.message api bs token env a h =
    done-IsAnswer api _ _ a (with_fields-IsAnswer api _ _ _ (λ x. answer-IsAnswer api _ _ _)) h
handle_type-IsAnswer FrameType.heartbeat api bs token env a h = done-IsAnswer api _ _ a refl h
handle_type-IsAnswer FrameType.offline_push api bs token env a h =
    done-IsAnswer api _ _ a (with_fields-IsAnswer api _ _ _ (λ x. answer-IsAnswer api _ _ _)) h
handle_type-IsAnswer FrameType.offline_pull api bs token env a h =
    done-IsAnswer api _ _ a (answer-IsAnswer api _ _ _) h
handle_type-IsAnswer FrameType.friend_list api bs token env a h =
    done-IsAnswer api _ _ a (with_token-IsAnswer api _ token _ (answer-IsAnswer api _ _ _)) h
handle_type-IsAnswer FrameType.friend_add api bs token env a h =
    done-IsAnswer api _ _ a
      (with_token-IsAnswer api _ token _
        (with_fields-IsAnswer api _ _ _ (λ x. answer-IsAnswer api _ _ _)))
      h
handle_type-IsAnswer FrameType.friend_remark_set api bs token env a h =
    done-IsAnswer api _ _ a
      (with_token-IsAnswer api _ token _
        (with_fields-IsAnswer api _ _ _ (λ x. answer-IsAnswer api _ _ _)))
      h
handle_type-IsAnswer (FrameType.other n) api bs token env a h = done-IsAnswer api _ _ a refl h

-- An answer has the type of its request. A request that is not answered has changed nothing.
pub handle-IsAnswer :
    (api : ApiService) (f : Frame) (token : Bytes) (env : Env) (a : Answer)
    → handle api f token env ≡ done a
    → IsAnswer api f.type a
unfolding handle
handle-IsAnswer api f token env a h = handle_type-IsAnswer f.type api f.payload token env a h

pub write_string_behind : (s out : Bytes) → (write_string s out).0 ≡ out ++ (write_string s []).0
unfolding write_string
write_string_behind s out = refl

pub length-write_string :
    (s : Bytes) → length s ≤ 0xffff → length (write_string s []).0 ≡ 2 + length s
unfolding write_string
length-write_string s h =
    ground (arith, length-to_le 2 (length s), take_all s, length-append (to_le 2 (length s)) s)

pub read_two-write_string :
    (one two : Bytes)
    → length one ≤ 0xffff
    → length two ≤ 0xffff
    → read_two (write_string two (write_string one []).0).0 ≡ some (one, two)
unfolding read_two
read_two-write_string one two h k =
    let front = (write_string one []).0 in
    let first : read_string (write_string two front).0 0 ≡ some (one, 2 + length one) =
      rw (write_string_behind two front)
        (ground (arith, (read_string-write_string [] one (write_string two []).0 h).0)) in
    let second : read_string (write_string two front).0 (2 + length one)
        ≡ some (two, 2 + length one + (2 + length two)) =
      ground (
        arith,
        (read_string-write_string front two [] k).0,
        append-nil (write_string two front).0,
        length-write_string one h,
      ) in
    rw (first, second) refl

-- A login request that a client writes, with a name and a password of at most 65535 bytes each,
-- is a login with exactly that name and password, and the answer is what the login returns.
pub handle_login_lem :
    (api : ApiService) (username password token : Bytes) (env : Env)
    → length username ≤ 0xffff
    → length password ≤ 0xffff
    → handle api
        (record {
          type = FrameType.login;
          payload = (write_string password (write_string username []).0).0;
        })
        token
        env
      ≡ (do
        (api', r) ← login api username password env.now env.random
        done (api', some (record { type = FrameType.login; payload = encode_login_resp r })))
unfolding handle handle_type handle_login answer
handle_login_lem api username password token env hu hp =
    rw (handle_login, read_two-write_string username password hu hp) refl
