-- ===== src/Runs/Tables.antt =====
-- Runs of the operations on friendships in a database.
use e2ee_windows.Common.{
  ◌≡◌, refl, true, List, same_iff, none, some, [], ◌∷◌, Bytes, arith, text, map, ok, if◌then◌else◌,
}
use e2ee_windows.Common.Text.{same}
use e2ee_windows.Common.Dict.{find, put}
use e2ee_windows.Auth.{AuthProvider}
use e2ee_windows.Database.{Calls}
use e2ee_windows.Database.Handles.{shut, after}
use e2ee_windows.Session
use e2ee_windows.Session.{Session, SessionManager}
use e2ee_windows.Directory.{contains}
use e2ee_windows.Api.{ApiService, with_session}
use e2ee_windows.Api.Friends
use e2ee_windows.Api.Friends.{Entry, sort_entries}
use e2ee_windows.Api.Friends.Listing.{occurrences, in_order}
use e2ee_windows.Api.Friends.Mutual.{is_friend}
use e2ee_windows.Api.Tables
use e2ee_windows.Api.Tables.{
  insert_friend, select_one, select_friends, update_remark, with_user, add_refused,
}
use e2ee_windows.Api.Tables.Stored.{
  is_name, is_remark, IsPlain, insert_ignore-IsPlain, Table, last_text,
}
use e2ee_windows.Api.Tables.Rows.{insert_friends_lem}
use e2ee_windows.Api.Tables.Closing.{calls_closed}
use e2ee_windows.Api.Tables.Listing.{texts}
use e2ee_windows.Api.Tables.Agreeing.{remark_of, Agrees}
use e2ee_windows.Api.Tables.Calling.{add_friend-Agrees, set_friend_remark-Agrees}
use e2ee_windows.Api.Tables.Fetching.{as_row, seeking, list_friends-rows}
use e2ee_windows.Api.Tables.Again.{add_friend_again}
use e2ee_windows.Runs.Keeping.{
  adds_column, working, cfg, no_rows, table_of, answers, some_entries, working-HasTable,
}

abbrev anybody : AuthProvider
anybody = record { validate = λ u p. none; user_exists = λ u. none }

abbrev ann : Session
ann = record {
  token = text "ta";
  username = text "ann";
  keys = record { root_key = []; header_key = []; kcp_key = []; ratchet_root = [] };
  created_at = 3;
}

abbrev manager : SessionManager
manager = record { auth = some anybody; ttl = 10; sessions = (text "ta", ann) ∷ [] }

abbrev service : ApiService
service = record {
  sessions = some manager;
  groups = none;
  directory = none;
  storage = none;
  queue = none;
  group_threshold = 10000;
  friends = [];
  friend_remarks = [];
}

-- Ann has Ben as a friend.
abbrev ben_row : Table
ben_row a b =
    if same (text "ann") a then (if same (text "ben") b then some (text "old") else none) else none

ann_found : with_user service (text "ta") 5 ≡ (service, ok (manager, ann))
unfolding with_user with_session Session.get_session Session.checked Session.is_expired find same
ann_found = refl

start_shut : after texts (working no_rows) [] ≡ some shut
unfolding after
start_shut = refl

start_Agrees : Agrees service (table_of no_rows [])
unfolding table_of is_friend contains find
start_Agrees = record { friends = λ a b. refl; remarks = λ a b. refl }

calls_closed_example :
    (after texts
        (working no_rows)
        (Tables.list_friends (working no_rows) (some cfg) service (text "ta") 5 []).1
      ≡ some shut)
    × (after texts
          (working no_rows)
          (Tables.add_friend (working no_rows) (some cfg) service (text "ta") (text "cy") [] 5 []).1
        ≡ some shut)
    × (after texts
          (working no_rows)
          (Tables.set_friend_remark
            (working no_rows)
            (some cfg)
            service
            (text "ta")
            (text "cy")
            []
            5
            []).1
        ≡ some shut)
calls_closed_example =
    calls_closed (working no_rows) service (text "ta") 5 [] (some cfg) (text "cy") [] start_shut

start_empty : (a b : Bytes) → table_of no_rows [] a b ≡ none
unfolding table_of
start_empty a b = refl

ann_name : is_name (text "ann") ≡ true
unfolding is_name
ann_name = refl

ben_name : is_name (text "ben") ≡ true
unfolding is_name
ben_name = refl

b_remark : is_remark (text "B") ≡ true
unfolding is_remark
b_remark = refl

c_remark : is_remark (text "C") ≡ true
unfolding is_remark
c_remark = refl

start_IsPlain : IsPlain (table_of no_rows [])
unfolding table_of
start_IsPlain a b e = cc

ben_row-IsPlain : IsPlain (table_of ben_row [])
unfolding table_of
ben_row-IsPlain a b e =
    ground (arith, same_iff (text "ann") a, same_iff (text "ben") b, ann_name, ben_name)

add_friend-Agrees_example :
    (let (m, r) = Friends.add_friend service (text "ta") (text "ben") (text "B") 5 in
      let (x, h') =
        Tables.add_friend
          (working no_rows)
          (some cfg)
          service
          (text "ta")
          (text "ben")
          (text "B")
          5
          [] in
      (x.1 ≡ r) × Agrees m (table_of no_rows h'))
add_friend-Agrees_example =
    add_friend-Agrees (working no_rows) (table_of no_rows) (working-HasTable no_rows) cfg service
      (text "ta") (text "ben") (text "B") 5 [] start_Agrees ann_found start_IsPlain ann_name
      ben_name b_remark (start_empty (text "ann") (text "ben"))
      (start_empty (text "ben") (text "ann"))

-- After Ben was added.
abbrev later : Calls
later =
    (Tables.add_friend (working no_rows) (some cfg) service (text "ta") (text "ben") (text "B") 5
      []).1

abbrev added : ApiService
added = (Friends.add_friend service (text "ta") (text "ben") (text "B") 5).0

added_found : with_user added (text "ta") 6 ≡ (added, ok (manager, ann))
unfolding Friends.add_friend Friends.add_checked Friends.befriend Session.user_exists with_user
    with_session Session.get_session Session.checked Session.is_expired find same put
added_found = refl

later_IsPlain : IsPlain (table_of no_rows later)
unfolding table_of is_name Tables.add_friend with_session Session.get_session Session.checked find
    same Session.is_expired Session.user_exists
later_IsPlain =
    rw
      (insert_friends_lem (working no_rows) (table_of no_rows) (working-HasTable no_rows) cfg
        (text "ann") (text "ben") (text "B") [] start_IsPlain ann_name ben_name b_remark).1
      (insert_ignore-IsPlain _ _ _ _ ben_name ann_name
        (insert_ignore-IsPlain _ _ _ _ ann_name ben_name start_IsPlain))

set_friend_remark-Agrees_example :
    (let (m, r) = Friends.set_friend_remark added (text "ta") (text "ben") (text "C") 6 in
      let (x, h') =
        Tables.set_friend_remark
          (working no_rows)
          (some cfg)
          added
          (text "ta")
          (text "ben")
          (text "C")
          6
          later in
      (x.1 ≡ r) × Agrees m (table_of no_rows h'))
set_friend_remark-Agrees_example =
    set_friend_remark-Agrees (working no_rows) (table_of no_rows) (working-HasTable no_rows) cfg
      added (text "ta") (text "ben") (text "C") 6 later add_friend-Agrees_example.1 added_found
      later_IsPlain ann_name ben_name c_remark

entries_found :
    (working no_rows).results
      (seeking (working no_rows) (working-HasTable no_rows).works cfg (text "ann") [])
    ≡ map as_row some_entries
unfolding answers last_text same
entries_found = refl

list_friends-rows_example :
    (out : List Entry) × ((Tables.list_friends
        (working no_rows)
        (some cfg)
        service
        (text "ta")
        5
        []).0
      ≡ (service, ok out))
    × ((name remark : Bytes) → occurrences name remark out ≡ occurrences name remark some_entries)
    × (in_order out ≡ true)
unfolding adds_column same
list_friends-rows_example =
    list_friends-rows (working no_rows) (working-HasTable no_rows).works cfg service (text "ta") 5
      [] some_entries refl ann_found entries_found
      ((omega arith, omega arith), ((omega arith, omega arith), tt))

ben_there : table_of ben_row [] (text "ann") (text "ben") ≡ some (text "old")
unfolding table_of same
ben_there = refl

ben_passes : add_refused manager ann (text "ben") (text "B") ≡ none
unfolding add_refused Session.user_exists same
ben_passes = refl

add_friend_again_example :
    (let (m, r) = Friends.add_friend service (text "ta") (text "ben") (text "B") 5 in
      let (x, h') =
        Tables.add_friend
          (working ben_row)
          (some cfg)
          service
          (text "ta")
          (text "ben")
          (text "B")
          5
          [] in
      (r ≡ ok tt)
      × (x.1 ≡ ok tt)
      × (remark_of m.friend_remarks (text "ann") (text "ben") ≡ text "B")
      × (table_of ben_row h' (text "ann") (text "ben") ≡ some (text "old")))
add_friend_again_example =
    add_friend_again (working ben_row) (table_of ben_row) (working-HasTable ben_row) cfg service
      (text "ta") (text "ben") (text "B") 5 [] ann_found ben_passes ben_row-IsPlain ann_name
      ben_name b_remark (text "old") ben_there refl
