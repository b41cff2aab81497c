-- ===== src/Api/Friends.antt =====
-- api_service.cpp: `ListFriends`, `AddFriend` and `SetFriendRemark` on the friendships in memory. Those
-- in a database are Api/Tables.
pub mod Mutual
pub mod Listing
pub mod History
use e2ee_windows.Common.{
  ℕ, ◌==◌, Bool, true, false, ◌&&◌, ◌||◌, Option, none, some, List, [], ◌∷◌, Bytes, text, same,
  Result, ok, err, if◌then◌else◌, length, ltb, is_empty, map,
}
use e2ee_windows.Common.Dict.{Dict, find, put, erase, or_default}
use e2ee_windows.Session.{Session, SessionManager, get_session, user_exists}
use e2ee_windows.Directory.{contains, insert}
use e2ee_windows.Api.{ApiService, with_session}

-- `FriendListResponse::Entry`
pub record Entry : Type 0 where
  pub username : Bytes
  pub remark : Bytes

-- `a < b` on `std::string`.
unfoldable pub name_lt : Bytes → Bytes → Bool
name_lt as' [] = false
name_lt [] (b ∷ bs) = true
name_lt (a ∷ as') (b ∷ bs) = ltb a b || (a == b && name_lt as' bs)

-- `std::sort` by the names. The names of the friends of a user are distinct, so that every sorting
-- algorithm gives this order.
unfoldable pub insert_entry : Entry → List Entry → List Entry
insert_entry e [] = e ∷ []
insert_entry e (f ∷ fs) =
    let rest = insert_entry e fs in if name_lt f.username e.username then f ∷ rest else e ∷ f ∷ fs

unfoldable pub sort_entries : List Entry → List Entry
sort_entries [] = []
sort_entries (e ∷ es) = insert_entry e (sort_entries es)

-- The entries of a list of friends; a friend without a remark has an empty one.
unfoldable pub entries : Dict Bytes → List Bytes → List Entry
entries remarks [] = []
entries remarks (f ∷ fs) =
    record { username = f; remark = or_default [] (find f remarks) } ∷ entries remarks fs

unfoldable pub list_friends : ApiService → Bytes → ℕ → ApiService × Result (List Entry)
list_friends api token now =
    with_session (text "session manager unavailable") token now api api.sessions api.sessions
      (λ api' sm s. (
        api',
        ok (
            sort_entries (
              entries (or_default [] (find s.username api'.friend_remarks))
                (or_default [] (find s.username api'.friends)))),
      ))

-- The block of `AddFriend` under the lock.
unfoldable pub befriend : ApiService → Bytes → Bytes → Bytes → ApiService
befriend api user friend remark =
    let one = put user (insert friend (or_default [] (find user api.friends))) api.friends in
    let both = put friend (insert user (or_default [] (find friend one))) one in
    record api {
      friends = both;
      friend_remarks =
          if is_empty remark
          then api.friend_remarks
          else put user (put friend remark (or_default [] (find user api.friend_remarks)))
              api.friend_remarks;
    }

-- The answer where `UserExists` is false; an empty message is replaced.
unfoldable pub absent_error : Bytes → Bytes
absent_error e = if is_empty e then text "friend not found" else e

-- The checks of `AddFriend` behind the session, in their order, and what follows them.
unfoldable pub add_checked :
    ApiService → SessionManager → Session → Bytes → Bytes → ApiService × Result {0} Unit
add_checked api sm s friend remark =
    if is_empty friend
    then (api, err (text "friend username empty"))
    else if same friend s.username
    then (api, err (text "cannot add self"))
    else if ltb 128 (length remark)
    then (api, err (text "remark too long"))
    else elim (user_exists sm friend) [
      | some e ↦ (api, err (absent_error e))
      | none ↦ (befriend api s.username friend remark, ok tt)
    ]

unfoldable pub add_friend : ApiService → Bytes → Bytes → Bytes → ℕ → ApiService × Result {0} Unit
add_friend api token friend remark now =
    with_session (text "session manager unavailable") token now api api.sessions api.sessions
      (λ api' sm s. add_checked api' sm s friend remark)

-- An empty remark erases the one that is there.
unfoldable pub store_remark : Dict (Dict Bytes) → Bytes → Bytes → Bytes → Dict (Dict Bytes)
store_remark all user friend remark =
    if is_empty remark
    then elim (find user all) [ none ↦ all | some own ↦ put user (erase friend own) all ]
    else put user (put friend remark (or_default [] (find user all))) all

unfoldable pub remark_checked : ApiService → Session → Bytes → Bytes → ApiService × Result {0} Unit
remark_checked api s friend remark =
    if is_empty friend
    then (api, err (text "friend username empty"))
    else if ltb 128 (length remark)
    then (api, err (text "remark too long"))
    else if contains friend (or_default [] (find s.username api.friends))
    then (
      record api { friend_remarks = store_remark api.friend_remarks s.username friend remark },
      ok tt,
    )
    else (api, err (text "not friends"))

unfoldable pub set_friend_remark :
    ApiService → Bytes → Bytes → Bytes → ℕ → ApiService × Result {0} Unit
set_friend_remark api token friend remark now =
    with_session (text "session manager unavailable") token now api api.sessions api.sessions
      (λ api' sm s. remark_checked api' s friend remark)
