-- ===== src/Client/Fits.antt =====
-- client_core.cpp with frame_router.cpp: what a client makes of the lists in a reply that is not long.
use e2ee_windows.Common.{
  ◌+◌, ◌*◌, ◌^◌, ◌%◌, ◌≤◌, ◌<◌, ◌≡◌, refl, Bytes, All, some, Result, ok, err, arith, List, [], ◌∷◌,
  length, map,
}
use e2ee_windows.Protocol.{write_string, write_uint32, write_bytes}
use e2ee_windows.Api.Friends.{Entry}
use e2ee_windows.Router.Encoding.{
  write_all, encode_offline_pull_resp, write_entries, encode_friend_list_resp,
}
use e2ee_windows.Client.Requests.{short_string}
use e2ee_windows.Client.Calls.{read_messages, read_friends, counted}
use e2ee_windows.Client.Replies.{
  length-write_bytes, write_string_fits, FitsEntry, kept, put_entry,
  counted-encode_offline_pull_resp, counted-encode_friend_list_resp,
}

-- The list of a successful call.
unfoldable pub or_empty : {A : Type 0} → Result (List A) → List A
or_empty (ok xs) = xs
or_empty (err e) = []

small_messages :
    (ms : List Bytes) (out : Bytes)
    → length (write_all ms out) ≤ 1012
    → (length out + 4 * length ms ≤ 1012) × All (λ m. length m < 2 ^ 32) ms
unfolding write_all
small_messages [] out h = (omega (arith, h), tt)
small_messages (m ∷ ms) out h =
    let (size, all) = small_messages ms (write_bytes m out) h in
    (
      omega (arith, size, length-write_bytes m out),
      (omega (arith, size, length-write_bytes m out), all),
    )

small_entries :
    (es : List Entry) (out : Bytes)
    → length (write_entries es out) ≤ 1012
    → (length out + 4 * length es ≤ 1012) × All FitsEntry es
unfolding write_entries
small_entries [] out h = (omega (arith, h), tt)
small_entries (e ∷ es) out h =
    let (size, all) = small_entries es (put_entry e out) h in
    let front = (write_string e.username out).0 in
    let remark = short_string e.remark front (omega (arith, size)) in
    let name = short_string e.username out (omega (arith, remark)) in
    let size' = (write_string_fits e.remark front (omega (arith, remark))).1 in
    let size'' = (write_string_fits e.username out (omega (arith, name))).1 in
    (omega (arith, size, size', size''), ((omega (arith, name), omega (arith, remark)), all))

-- The messages of a reply that one sealed message has room for.
pub pulled :
    (r : Result (List Bytes))
    → length (encode_offline_pull_resp r) ≤ 1012
    → counted read_messages (some (encode_offline_pull_resp r)) ≡ or_empty r
unfolding counted encode_offline_pull_resp or_empty write_string write_uint32
pulled (err e) h = refl
pulled (ok ms) h =
    let (size, all) = small_messages ms (write_uint32 (length ms % 2 ^ 32) (1 ∷ [])) h in
    counted-encode_offline_pull_resp ms (omega (arith, size)) all

-- The friends of such a reply.
pub listed :
    (r : Result (List Entry))
    → length (encode_friend_list_resp r) ≤ 1012
    → counted read_friends (some (encode_friend_list_resp r)) ≡ map kept (or_empty r)
unfolding counted encode_friend_list_resp or_empty write_string write_uint32
listed (err e) h = refl
listed (ok es) h =
    let (size, all) = small_entries es (write_uint32 (length es % 2 ^ 32) (1 ∷ [])) h in
    counted-encode_friend_list_resp es (omega (arith, size)) all
