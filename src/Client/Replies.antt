-- ===== src/Client/Replies.antt =====
-- client_core.cpp with frame_router.cpp: a client reads back the lists that the router wrote.
use e2ee_windows.Common.{
  ℕ, ◌+◌, ◌^◌, ◌%◌, ◌≤◌, ◌<◌, ◌≡◌, refl, sym, ap, ◌∙◌, Bytes, All, some, ok, arith, List, [], ◌∷◌,
  ◌++◌, length, length-append, append-nil, append_assoc, lt→ltb, map, take_all,
}
use e2ee_windows.Common.Word.{to_le, length-to_le}
use e2ee_windows.Protocol.{write_string, read_string, write_uint32, write_bytes, read_bytes}
use e2ee_windows.Protocol.RoundTrip.{
  read_string-write_string, read_uint32-write_uint32, read_bytes-write_bytes,
}
use e2ee_windows.Api.Friends.{Entry}
use e2ee_windows.Router.Encoding.{
  write_all, encode_offline_pull_resp, write_entries, encode_friend_list_resp,
}
use e2ee_windows.Client.Calls.{
  read_messages, FriendEntry, read_remark, read_entry, read_friends, counted,
}

pub length-write_bytes :
    (buf out : Bytes) → length (write_bytes buf out) ≡ length out + (4 + length buf)
unfolding write_bytes write_uint32
length-write_bytes buf out = omega (
  arith,
  length-append (out ++ to_le 4 (length buf % 2 ^ 32)) buf,
  length-append out (to_le 4 (length buf % 2 ^ 32)),
  length-to_le 4 (length buf % 2 ^ 32),
)

-- The messages are appended to what is there.
write_all_behind :
    (ms : List Bytes) (out : Bytes) → (rest : Bytes) × (write_all ms out ≡ out ++ rest)
unfolding write_all write_bytes write_uint32
write_all_behind [] out = ([], sym (append-nil out))
write_all_behind (m ∷ ms) out =
    let (rest, e) = write_all_behind ms (write_bytes m out) in
    (
      to_le 4 (length m % 2 ^ 32) ++ (m ++ rest),
      e
          ∙ (append_assoc (out ++ to_le 4 (length m % 2 ^ 32)) m rest
              ∙ append_assoc out (to_le 4 (length m % 2 ^ 32)) (m ++ rest)),
    )

read_messages-write_all :
    (ms : List Bytes) (out : Bytes)
    → All (λ m. length m < 2 ^ 32) ms
    → read_messages (length ms) (write_all ms out) (length out) ≡ ms
unfolding read_messages write_all
read_messages-write_all [] out h = refl
read_messages-write_all (m ∷ ms) out h =
    let (rest, e) = write_all_behind ms (write_bytes m out) in
    let first : read_bytes (write_all ms (write_bytes m out)) (length out)
        ≡ some (m, length (write_bytes m out)) =
      rw e (rw (length-write_bytes m out) (read_bytes-write_bytes out m rest h.0)) in
    rw (read_messages, first) (ap (λ t. m ∷ t) (read_messages-write_all ms (write_bytes m out) h.1))

pub write_string_fits :
    (s out : Bytes)
    → length s ≤ 0xffff
    → ((write_string s out).0 ≡ out ++ (to_le 2 (length s) ++ s))
      × (length (write_string s out).0 ≡ length out + (2 + length s))
unfolding write_string
write_string_fits s out h = ground (
  arith,
  take_all s,
  length-append out (to_le 2 (length s) ++ s),
  length-append (to_le 2 (length s)) s,
  length-to_le 2 (length s),
)

-- A name and a remark that `WriteString` does not cut off.
abbrev pub FitsEntry : Entry → Type 0
FitsEntry e = (length e.username ≤ 0xffff) × (length e.remark ≤ 0xffff)

-- An entry as the client keeps it.
abbrev pub kept : Entry → FriendEntry
kept e = record { username = e.username; remark = e.remark }

-- The entry behind `out`.
abbrev pub put_entry : Entry → Bytes → Bytes
put_entry e out = (write_string e.remark (write_string e.username out).0).0

write_entries_behind :
    (es : List Entry) (out : Bytes)
    → All FitsEntry es
    → (rest : Bytes) × (write_entries es out ≡ out ++ rest)
unfolding write_entries
write_entries_behind [] out h = ([], sym (append-nil out))
write_entries_behind (e ∷ es) out h =
    let (rest, eq) = write_entries_behind es (put_entry e out) h.1 in
    let name = to_le 2 (length e.username) ++ e.username in
    let remark = to_le 2 (length e.remark) ++ e.remark in
    (
      name ++ (remark ++ rest),
      eq
          ∙ rw
              (
                (write_string_fits e.remark (write_string e.username out).0 h.0.1).0,
                (write_string_fits e.username out h.0.0).0,
              )
              (simp append_assoc),
    )

read_entry-put_entry :
    (e : Entry) (out rest : Bytes)
    → FitsEntry e
    → read_entry (put_entry e out ++ rest) (length out) ≡ some (kept e, length (put_entry e out))
unfolding read_entry read_remark
read_entry-put_entry e out rest h =
    let front = (write_string e.username out).0 in
    let remark = to_le 2 (length e.remark) ++ e.remark in
    let whole : put_entry e out ++ rest ≡ front ++ (remark ++ rest) =
      rw ((write_string_fits e.remark front h.1).0) (append_assoc front remark rest) in
    let name : read_string (put_entry e out ++ rest) (length out)
        ≡ some (e.username, length front) =
      rw whole (
        rw ((write_string_fits e.username out h.0).1)
          (read_string-write_string out e.username (remark ++ rest) h.0).0) in
    let second : read_string (put_entry e out ++ rest) (length front)
        ≡ some (e.remark, length (put_entry e out)) =
      rw ((write_string_fits e.remark front h.1).1)
        (read_string-write_string front e.remark rest h.1).0 in
    let more : length front < length (put_entry e out ++ rest) =
      omega
        (arith, length-append (put_entry e out) rest, (write_string_fits e.remark front h.1).1) in
    rw
      (
        read_entry,
        name,
        read_remark,
        lt→ltb (length front) (length (put_entry e out ++ rest)) more,
        second,
      )
      refl

read_friends-write_entries :
    (es : List Entry) (out : Bytes)
    → All FitsEntry es
    → read_friends (length es) (write_entries es out) (length out) ≡ map kept es
unfolding read_friends write_entries
read_friends-write_entries [] out h = refl
read_friends-write_entries (e ∷ es) out h =
    let (rest, eq) = write_entries_behind es (put_entry e out) h.1 in
    let first : read_entry (write_entries es (put_entry e out)) (length out)
        ≡ some (kept e, length (put_entry e out)) =
      rw eq (read_entry-put_entry e out rest h.0) in
    rw (read_friends, first)
      (ap (λ t. kept e ∷ t) (read_friends-write_entries es (put_entry e out) h.1))

length-write_uint32 : (n : ℕ) → length (write_uint32 n (1 ∷ [])) ≡ 5
unfolding write_uint32
length-write_uint32 n = omega (arith, length-append (1 ∷ []) (to_le 4 n), length-to_le 4 n)

-- Behind the mark of success and the count, the client finds the list.
counted_lem :
    {B : Type 0} (read : ℕ → Bytes → ℕ → List B) (n : ℕ) (rest : Bytes)
    → n < 2 ^ 32
    → counted read (some (write_uint32 n (1 ∷ []) ++ rest))
      ≡ read n (write_uint32 n (1 ∷ []) ++ rest) 5
unfolding counted write_uint32
counted_lem read n rest h = rw (counted, read_uint32-write_uint32 (1 ∷ []) rest n h) refl

-- A list that `write` appends, and `read` reads back.
counted-write :
    {B : Type 0} (read : ℕ → Bytes → ℕ → List B) (n : ℕ) (bs rest : Bytes) (xs : List B)
    → n < 2 ^ 32
    → bs ≡ write_uint32 n (1 ∷ []) ++ rest
    → read n bs (length (write_uint32 n (1 ∷ []))) ≡ xs
    → counted read (some bs) ≡ xs
counted-write read n bs rest xs h e got =
    let size = length-write_uint32 n in let lem = counted_lem read n rest h in cc

-- A client reads from the reply to `OfflinePull` exactly the messages that the router wrote there,
-- in their order, where there are fewer than 2 ^ 32 of fewer than 2 ^ 32 bytes each.
pub counted-encode_offline_pull_resp :
    (ms : List Bytes)
    → length ms < 2 ^ 32
    → All (λ m. length m < 2 ^ 32) ms
    → counted read_messages (some (encode_offline_pull_resp (ok ms))) ≡ ms
unfolding encode_offline_pull_resp
counted-encode_offline_pull_resp ms h fits =
    let wrap : length ms % 2 ^ 32 ≡ length ms = omega (arith, h) in
    let front = write_uint32 (length ms) (1 ∷ []) in
    let (rest, e) = write_all_behind ms front in
    rw wrap (
      counted-write read_messages (length ms) _ rest ms h e (read_messages-write_all ms front fits))

-- A client reads from the reply to `FriendList` exactly the friends and remarks that the router
-- wrote there, in their order, where there are fewer than 2 ^ 32 and no name or remark has more
-- than 65535 bytes.
pub counted-encode_friend_list_resp :
    (es : List Entry)
    → length es < 2 ^ 32
    → All FitsEntry es
    → counted read_friends (some (encode_friend_list_resp (ok es))) ≡ map kept es
unfolding encode_friend_list_resp
counted-encode_friend_list_resp es h fits =
    let wrap : length es % 2 ^ 32 ≡ length es = omega (arith, h) in
    let front = write_uint32 (length es) (1 ∷ []) in
    let (rest, e) = write_entries_behind es front fits in
    rw wrap (
      counted-write read_friends (length es) _ rest (map kept es) h e
        (read_friends-write_entries es front fits))
