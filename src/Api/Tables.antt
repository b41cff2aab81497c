-- ===== src/Api/Tables.antt =====
-- server/src/api_service.cpp, built with MI_E2EE_ENABLE_MYSQL: the friendships in a table of a
-- database. The field `friend_mysql_` is an argument, with the password that `get` returns; so are
-- the library and the calls that were made of it before.
pub mod Listing
pub mod Inserting
pub mod Closing
pub mod Stored
pub mod Rows
pub mod Agreeing
pub mod Calling
pub mod Fetching
pub mod Again
use e2ee_windows.Common.{
  ℕ, Bool, true, false, ◌&&◌, Option, none, some, List, [], ◌∷◌, ◌++◌, Bytes, text, same, Result,
  ok, err, if◌then◌else◌, length, ltb, is_empty,
}
use e2ee_windows.Config.{MySqlConfig}
use e2ee_windows.Database.{
  Call, Calls, Fetched, Library, Action, ◌>>=◌, ◌>>◌, returned, issue, perform, attempt, close_both,
  free_both, connected, prepared, executed, stored, column,
}
use e2ee_windows.Database.Call.{query, bind_param, execute, fetch, free_result, stmt_close, close}
use e2ee_windows.Session.{Session, SessionManager, user_exists}
use e2ee_windows.Api.{ApiService, with_session}
use e2ee_windows.Api.Friends.{Entry, sort_entries, absent_error}
use e2ee_windows.Api.Friends

abbrev pub create_table : Bytes
create_table =
    text "CREATE TABLE IF NOT EXISTS user_friend (username VARCHAR(64) NOT NULL,"
    ++ (text "friend_username VARCHAR(64) NOT NULL,remark VARCHAR(128) NOT NULL DEFAULT '',"
        ++ (text "created_at TIMESTAMP NOT NULL DEFAULT CURRENT_TIMESTAMP,"
            ++ (text
                  "PRIMARY KEY(username, friend_username),INDEX idx_friend_username(friend_username)"
                ++ text ") ENGINE=InnoDB DEFAULT CHARSET=utf8mb4 COLLATE=utf8mb4_bin")))

abbrev pub add_column : Bytes
add_column = text "ALTER TABLE user_friend ADD COLUMN remark VARCHAR(128) NOT NULL DEFAULT ''"

abbrev pub select_friends : Bytes
select_friends =
    text "SELECT friend_username, remark FROM user_friend WHERE username=? "
    ++ text "ORDER BY friend_username"

abbrev pub insert_friend : Bytes
insert_friend =
    text "INSERT IGNORE INTO user_friend(username, friend_username, remark) VALUES(?, ?, ?)"

abbrev pub select_one : Bytes
select_one = text "SELECT 1 FROM user_friend WHERE username=? AND friend_username=? LIMIT 1"

abbrev pub update_remark : Bytes
update_remark = text "UPDATE user_friend SET remark=? WHERE username=? AND friend_username=?"

-- The connection, and the table. Whether the column is there already is not looked at.
unfoldable pub opened_table : Library → MySqlConfig → Action (Unit {0})
opened_table lib cfg = do
  connected lib cfg
  attempt lib (query create_table) (text "mysql_schema_failed") (close ∷ [])
  perform (query add_column ∷ [])

-- A row of the list. `ok none` is a row that is passed over, since its name is null.
unfoldable pub read_row : Option Bytes → Option Bytes → Result (Option Entry)
read_row none remark = ok none
read_row (some name) none =
    if ltb 255 (length name)
    then err (text "friend name too long")
    else ok (some (record { username = name; remark = [] }))
read_row (some name) (some remark) =
    if ltb 255 (length name)
    then err (text "friend name too long")
    else if ltb 255 (length remark)
    then err (text "remark too long")
    else ok (some (record { username = name; remark = remark }))

abbrev pub prepend : Option Entry → Result (List Entry) → Result (List Entry)
prepend none r = r
prepend (some e) (ok es) = ok (e ∷ es)
prepend (some e) (err m) = err m

-- What the loop does with the row that it has fetched; `rest` is the loop from there on.
unfoldable pub take_row :
    Result (Option Entry) → Calls → Result (List Entry) × Calls → Result (List Entry) × Calls
take_row (err e) h rest = (err e, issue free_both h)
take_row (ok entry) h (r, h') = (prepend entry r, h')

-- `while (true) { … mysql_stmt_fetch … }`
unfoldable pub fetch_entries : List Fetched → Action (List Entry)
unfolding take_row
fetch_entries [] h = (ok [], fetch ∷ h)
fetch_entries (Fetched.failed ∷ rs) h =
    (err (text "mysql_stmt_fetch failed"), issue free_both (fetch ∷ h))
fetch_entries (Fetched.row cs ∷ rs) h =
    take_row (read_row (column 0 cs) (column 1 cs)) (fetch ∷ h) (fetch_entries rs (fetch ∷ h))

-- `ListFriends` behind the session. The names are distinct, by the key of the table.
unfoldable pub fetch_friends : Library → MySqlConfig → Bytes → Action (List Entry)
fetch_friends lib cfg user = do
  opened_table lib cfg
  prepared lib select_friends
  executed lib (user ∷ [])
  found ← stored lib free_both
  out ← fetch_entries found
  perform free_both
  returned (sort_entries out)

-- `bind_and_exec`
unfoldable pub bind_and_exec : Library → Bytes → Bytes → Bytes → Action Bool
bind_and_exec lib u f r h =
    let h' = bind_param (u ∷ f ∷ r ∷ []) ∷ h in
    if lib.succeeds h' then (ok (lib.succeeds (execute ∷ h')), execute ∷ h') else (ok false, h')

abbrev pub inserted : Bool → Action (Unit {0})
inserted true h = (ok tt, h)
inserted false h = (err (text "mysql insert failed"), h)

-- `AddFriend` behind its checks.
unfoldable pub insert_friends : Library → MySqlConfig → Bytes → Bytes → Bytes → Action (Unit {0})
insert_friends lib cfg user friend remark = do
  opened_table lib cfg
  prepared lib insert_friend
  ok1 ← bind_and_exec lib user friend remark
  ok2 ← bind_and_exec lib friend user []
  perform close_both
  inserted (ok1 && ok2)

-- Whether the friendship is there: what the first fetch finds, once everything of the statement is
-- closed.
unfoldable pub judged : List Fetched → Action (Unit {0})
judged [] h = (err (text "not friends"), close ∷ h)
judged (Fetched.failed ∷ rs) h = (err (text "mysql_stmt_fetch failed"), close ∷ h)
judged (Fetched.row cs ∷ rs) h = elim (column 0 cs) [
  | none ↦ (err (text "not friends"), close ∷ h)
  | some one ↦ (ok tt, h)
]

-- `SetFriendRemark` behind its checks.
unfoldable pub write_remark : Library → MySqlConfig → Bytes → Bytes → Bytes → Action (Unit {0})
write_remark lib cfg user friend remark = do
  opened_table lib cfg
  prepared lib select_one
  executed lib (user ∷ friend ∷ [])
  found ← stored lib free_both
  perform (fetch ∷ free_result ∷ stmt_close ∷ [])
  judged found
  prepared lib update_remark
  executed lib (remark ∷ user ∷ friend ∷ [])
  perform close_both

-- The first steps of the three operations: the manager, and the session of the token.
unfoldable pub with_user : ApiService → Bytes → ℕ → ApiService × Result (SessionManager × Session)
with_user api token now =
    with_session (text "session manager unavailable") token now api api.sessions api.sessions
      (λ api' sm s. (api', ok (sm, s)))

-- The checks of `AddFriend` behind the session, in their order.
unfoldable pub add_refused : SessionManager → Session → Bytes → Bytes → Option Bytes
add_refused sm s friend remark =
    if is_empty friend
    then some (text "friend username empty")
    else if same friend s.username
    then some (text "cannot add self")
    else if ltb 128 (length remark)
    then some (text "remark too long")
    else elim (user_exists sm friend) [ none ↦ none | some e ↦ some (absent_error e) ]

unfoldable pub remark_refused : Bytes → Bytes → Option Bytes
remark_refused friend remark =
    if is_empty friend
    then some (text "friend username empty")
    else if ltb 128 (length remark)
    then some (text "remark too long")
    else none

-- What an operation does for a user: it is refused, or works on the table.
abbrev pub unless : {A : Type 0} → Option Bytes → Action A → Action A
unless none m h = m h
unless (some e) m h = (err e, h)

-- The rest of an operation behind `with_user`.
unfoldable pub for_user :
    {A : Type 0}
    → ApiService × Result (SessionManager × Session)
    → (SessionManager → Session → Action A)
    → Calls
    → (ApiService × Result A) × Calls
for_user (api, err e) act h = ((api, err e), h)
for_user (api, ok (sm, s)) act h = let (r, h') = act sm s h in ((api, r), h')

module _ (lib : Library) (friend_mysql : Option MySqlConfig) (api : ApiService)
    (token : Bytes) where
  unfoldable pub list_friends : ℕ → Calls → (ApiService × Result (List Entry)) × Calls
  unfolding with_user for_user
  list_friends now h = elim friend_mysql [
    | none ↦ (Friends.list_friends api token now, h)
    | some cfg ↦ for_user (with_user api token now) (λ sm s. fetch_friends lib cfg s.username) h
  ]

  unfoldable pub add_friend : Bytes → Bytes → ℕ → Calls → (ApiService × Result {0} Unit) × Calls
  unfolding with_user for_user add_refused
  add_friend friend remark now h = elim friend_mysql [
    | none ↦ (Friends.add_friend api token friend remark now, h)
    | some cfg ↦
        for_user (with_user api token now)
          (λ sm s.
            unless (add_refused sm s friend remark)
              (insert_friends lib cfg s.username friend remark))
          h
  ]

  unfoldable pub set_friend_remark :
      Bytes → Bytes → ℕ → Calls → (ApiService × Result {0} Unit) × Calls
  unfolding with_user for_user remark_refused
  set_friend_remark friend remark now h = elim friend_mysql [
    | none ↦ (Friends.set_friend_remark api token friend remark now, h)
    | some cfg ↦
        for_user (with_user api token now)
          (λ sm s.
            unless (remark_refused friend remark) (write_remark lib cfg s.username friend remark))
          h
  ]
