-- ===== src/Client/Requests.antt =====
-- client_core.cpp with frame_router.cpp: the router reads the fields that a client wrote.
use e2ee_windows.Common.{
  ℕ, ◌+◌, ◌^◌, ◌%◌, ◌≤◌, ◌<◌, ◌≡◌, refl, ap, Bytes, Option, Bool-cases, inl, inr, ltb→lt, take,
  some, arith, [], ◌∷◌, ◌++◌, length, length-append, append-nil, append_assoc, take_all,
  length-take, ltb, lt→ltb,
}
use e2ee_windows.Common.Options.{◌>>=◌}
use e2ee_windows.Common.Word.{IsU32, to_le, length-to_le}
use e2ee_windows.Protocol.{
  write_string, read_string, write_uint32, read_uint32, write_bytes, read_bytes,
}
use e2ee_windows.Protocol.RoundTrip.{
  read_string-write_string, read_uint32-write_uint32, read_bytes-write_bytes,
}
use e2ee_windows.Router.Requests.{write_string_behind}
use e2ee_windows.Router.Reading.{read_event, read_push, read_friend, read_message}

-- A buffer that ends in a string and is not long holds the whole string.
pub short_string :
    (s out : Bytes) → length (write_string s out).0 ≤ 1012 → length out + length s ≤ 1012
unfolding write_string
short_string s out h = elim (Bool-cases (ltb 0xffff (length s))) [
  | inl long ↦
      (let size = rw long at h in
        absurd (
          omega (
            arith,
            size,
            length-append out (to_le 2 0xffff ++ take 0xffff s),
            length-append (to_le 2 0xffff) (take 0xffff s),
            length-take 0xffff s,
            ltb→lt 0xffff (length s) long,
          )))
  | inr short ↦
      (let size = rw short at h in
        omega (
          arith,
          size,
          length-append out (to_le 2 (length s) ++ take (length s) s),
          length-append (to_le 2 (length s)) (take (length s) s),
          length-take (length s) s,
        ))
]

pub length-write_string_behind :
    (s out : Bytes)
    → length s ≤ 0xffff
    → length (write_string s out).0 ≡ length out + (2 + length s)
unfolding write_string
length-write_string_behind s out h = ground (
  arith,
  take_all s,
  length-append out (to_le 2 (length s) ++ s),
  length-append (to_le 2 (length s)) s,
  length-to_le 2 (length s),
)

-- The string at the end of a buffer.
pub read_string_last :
    (s out : Bytes)
    → length s ≤ 0xffff
    → read_string (write_string s out).0 (length out) ≡ some (s, length out + (2 + length s))
read_string_last s out h =
    rw (← append-nil (write_string s out).0) (read_string-write_string out s [] h).0

pub read_event-write_string :
    (action : ℕ) (group_id : Bytes)
    → length group_id ≤ 0xffff
    → read_event (write_string group_id (action ∷ [])).0 ≡ some (action, group_id)
unfolding read_event write_string
read_event-write_string action group_id h =
    let e = read_string_last group_id (action ∷ []) h in
    ap (λ (o : Option (Bytes × ℕ)). o >>= (λ x. some (action, x.0))) e

pub read_push-write_bytes :
    (recipient payload : Bytes)
    → length recipient ≤ 0xffff
    → length payload < 2 ^ 32
    → read_push (write_bytes payload (write_string recipient []).0) ≡ some (recipient, payload)
unfolding read_push write_bytes write_uint32
read_push-write_bytes recipient payload h k =
    let front = (write_string recipient []).0 in
    let first : read_string (write_bytes payload front) 0 ≡ some (recipient, length front) =
      rw
        (
          length-write_string_behind recipient [] h,
          append_assoc front (to_le 4 (length payload % 2 ^ 32)) payload,
        )
        (read_string-write_string [] recipient (to_le 4 (length payload % 2 ^ 32) ++ payload)
          h).0 in
    let second : read_bytes (write_bytes payload front) (length front)
        ≡ some (payload, length front + (4 + length payload)) =
      rw (← append-nil (write_bytes payload front)) (read_bytes-write_bytes front payload [] k) in
    rw (first, second) refl

pub read_friend-write_string :
    (name remark : Bytes)
    → length name ≤ 0xffff
    → length remark ≤ 0xffff
    → read_friend (write_string remark (write_string name []).0).0 ≡ some (name, remark)
unfolding read_friend
read_friend-write_string name remark h k =
    let front = (write_string name []).0 in
    let size = length-write_string_behind remark front k in
    let first : read_string (write_string remark front).0 0 ≡ some (name, length front) =
      rw (length-write_string_behind name [] h, write_string_behind remark front)
        (read_string-write_string [] name (write_string remark []).0 h).0 in
    let second = read_string_last remark front k in
    rw
      (
        first,
        lt→ltb (length front) (length (write_string remark front).0) (omega (arith, size)),
        second,
      )
      refl

pub read_message-write_uint32 :
    (default_threshold threshold : ℕ) (group_id : Bytes)
    → length group_id ≤ 0xffff
    → IsU32 threshold
    → read_message default_threshold (write_uint32 threshold (write_string group_id []).0)
      ≡ some (group_id, threshold)
unfolding read_message write_uint32
read_message-write_uint32 default_threshold threshold group_id h k =
    let front = (write_string group_id []).0 in
    let first : read_string (write_uint32 threshold front) 0 ≡ some (group_id, length front) =
      rw (length-write_string_behind group_id [] h)
        (read_string-write_string [] group_id (to_le 4 threshold) h).0 in
    let second : read_uint32 (write_uint32 threshold front) (length front)
        ≡ some (threshold, length front + 4) =
      rw (← append-nil (write_uint32 threshold front))
        (read_uint32-write_uint32 front [] threshold k) in
    rw (first, second) refl
