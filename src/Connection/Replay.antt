-- ===== src/Connection/Replay.antt =====
-- connection_handler.cpp: a sealed request that was answered is never answered again.
use e2ee_windows.Common.{
  ℕ, ◌+◌, ◌%◌, ◌^◌, ◌≡◌, ◌≢◌, Option, none, some, Bytes, done, ◌>>=◌, >>=-eq-done, take, length,
  arith, same_refl, Bool-cases, Option-cases, inl, inr, ltb, ltb_false→le,
}
use e2ee_windows.Common.Dict.{find, or_default, find-put}
use e2ee_windows.Common.Word.{from_le}
use e2ee_windows.Frame.{FrameType, type_code}
use e2ee_windows.Channel.{
  SecureChannel, make_channel, derive_per_message_keys, open_input, decrypt, encrypt,
}
use e2ee_windows.Channel.Accepts.{open_input_accepts}
use e2ee_windows.Pake.{DerivedKeys}
use e2ee_windows.Api.{ApiService}
use e2ee_windows.Router.{Env, Answer, handle}
use e2ee_windows.Router.Requests.{IsAnswer, handle-IsAnswer}
use e2ee_windows.Connection.{
  ChannelState, new_state, ConnectionHandler, keys_of, with_state, reply, dispatch, receive,
  open_channel, on_sealed,
}

-- What is accepted carries the number that was expected.
decrypt_numbered :
    (ch : SecureChannel) (input plain : Bytes) (seq : ℕ)
    → decrypt ch input seq ≡ done (some plain)
    → from_le (take 8 input) ≡ seq
unfolding decrypt
decrypt_numbered ch input plain seq h = elim (Bool-cases (ltb (length input) 44)) [
  | inl e ↦ ground (arith, e)
  | inr e ↦
      let r : (derive_per_message_keys ch seq >>= (λ (enc, auth). open_input enc auth input seq))
          ≡ done (some plain) =
        ground (arith, e) in
      let (k, ek, q) = >>=-eq-done (derive_per_message_keys ch seq) _ r in
      (open_input_accepts k.0 k.1 input plain seq (ltb_false→le (length input) 44 e) q).0
]

-- The number that a handler expects next under a token.
unfoldable pub expected : ConnectionHandler → Bytes → ℕ
expected h token = (or_default new_state (find token h.channel_states)).recv_seq

-- A request that was answered, by its parts.
reply_parts :
    (h h' : ConnectionHandler) (token out : Bytes) (state : ChannelState) (a : Answer)
    (type : FrameType)
    → IsAnswer h.api type a
    → type_code type ≢ 2
    → reply h token state a ≡ done (h', some out)
    → expected h' token ≡ state.recv_seq
unfolding reply expected
reply_parts h h' token out state (api, none) type v ne e = cc
reply_parts h h' token out state (api, some o) type v ne e =
    let (cipher, ec, q) = >>=-eq-done (encrypt state.channel state.send_seq o.payload) _ e in
    let next : ChannelState = record state { send_seq = (state.send_seq + 1) % 2 ^ 64 } in
    ground (arith, v, find-put token token next h.channel_states, same_refl token)

receive_parts :
    (h h' : ConnectionHandler) (type : FrameType) (token cipher out : Bytes) (state : ChannelState)
    (env : Env)
    → type_code type ≢ 2
    → receive h type token cipher state env ≡ done (h', some out)
    → (from_le (take 8 cipher) ≡ state.recv_seq)
      × (expected h' token ≡ (state.recv_seq + 1) % 2 ^ 64)
unfolding receive dispatch
receive_parts h h' type token cipher out state env ne e =
    let (o, eo, q) = >>=-eq-done (decrypt state.channel cipher state.recv_seq) _ e in
    elim (Option-cases o) [
      | inl n ↦ absurd (ground (arith, n, q))
      | inr (plain, p) ↦
          let next : ChannelState = record state { recv_seq = (state.recv_seq + 1) % 2 ^ 64 } in
          let r : (handle h.api (record { type = type; payload = plain }) token env
                >>= (λ a. reply (with_state h token next) token next a))
              ≡ done (h', some out) =
            ground (arith, p, q) in
          let (a, ea, ra) =
            >>=-eq-done (handle h.api (record { type = type; payload = plain }) token env) _ r in
          (
            decrypt_numbered state.channel cipher plain state.recv_seq (ground (arith, eo, p)),
            reply_parts (with_state h token next) h' token out next a type
                (handle-IsAnswer h.api (record { type = type; payload = plain }) token env a ea) ne
                ra,
          )
    ]

open_channel_parts :
    (h h' : ConnectionHandler) (type : FrameType) (token cipher out : Bytes) (state : ChannelState)
    (env : Env) (k : ApiService × Option DerivedKeys)
    → type_code type ≢ 2
    → open_channel h type token cipher state env k ≡ done (h', some out)
    → (from_le (take 8 cipher) ≡ state.recv_seq)
      × (expected h' token ≡ (state.recv_seq + 1) % 2 ^ 64)
unfolding open_channel
open_channel_parts h h' type token cipher out state env (api, none) ne e = absurd (ground arith)
open_channel_parts h h' type token cipher out state env (api, some keys) ne e =
    receive_parts (record h { api = api }) h' type token cipher out
      (record state { channel = make_channel keys }) env ne e

-- A sealed request that is answered, and is no logout, carries the number that was expected under
-- its token, and the next number is expected from then on.
pub on_sealed_answered :
    (h h' : ConnectionHandler) (type : FrameType) (token cipher out : Bytes) (env : Env)
    → type_code type ≢ 2
    → on_sealed h type token cipher env ≡ done (h', some out)
    → (from_le (take 8 cipher) ≡ expected h token)
      × (expected h' token ≡ (expected h token + 1) % 2 ^ 64)
unfolding on_sealed expected
on_sealed_answered h h' type token cipher out env ne e =
    let state = or_default new_state (find token h.channel_states) in
    ground (
      arith,
      open_channel_parts h h' type token cipher out state env (keys_of h.api token env.now) ne,
      receive_parts h h' type token cipher out state env ne,
    )

-- Once a sealed request that is no logout was answered, the same bytes under the same token are
-- never answered again by the handler in its new state, under any type but that of a logout.
pub no_replay :
    (h h' h'' : ConnectionHandler) (type type' : FrameType) (token cipher out out' : Bytes)
    (env env' : Env)
    → type_code type ≢ 2
    → type_code type' ≢ 2
    → on_sealed h type token cipher env ≡ done (h', some out)
    → ¬ (on_sealed h' type' token cipher env' ≡ done (h'', some out'))
no_replay h h' h'' type type' token cipher out out' env env' ne ne' e e' =
    let (one, next) = on_sealed_answered h h' type token cipher out env ne e in
    let (two, last) = on_sealed_answered h' h'' type' token cipher out' env' ne' e' in omega arith
