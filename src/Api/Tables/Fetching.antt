-- ===== src/Api/Tables/Fetching.antt =====
-- api_service.cpp with a database: `ListFriends` on the rows that the database finds, and `AddFriend`
-- on a friendship that is there already.
use e2ee_windows.Common.{
  ℕ, ◌≡◌, ◌≤◌, refl, true, some, List, [], ◌∷◌, Bytes, All, map, ok, length, le→ltb_false,
}
use e2ee_windows.Config.{MySqlConfig}
use e2ee_windows.Database.{Calls, Fetched, Library, issue, perform, free_both, column}
use e2ee_windows.Database.Call.{
  query, connect, init, stmt_init, prepare, bind_param, execute, bind_result, store_result, fetch,
}
use e2ee_windows.Database.Working.{Works, prepared_lem, executed_lem, stored_lem}
use e2ee_windows.Session.{Session, SessionManager}
use e2ee_windows.Api.{ApiService}
use e2ee_windows.Api.Friends.{Entry, sort_entries}
use e2ee_windows.Api.Friends.Listing.{
  occurrences, in_order, occurrences-sort_entries, in_order-sort_entries,
}
use e2ee_windows.Api.Tables
use e2ee_windows.Api.Tables.{
  create_table, add_column, select_friends, opened_table, read_row, prepend, take_row,
  fetch_entries, fetch_friends, with_user, for_user,
}
use e2ee_windows.Api.Tables.Rows.{opening, opened_table_lem}

abbrev pub as_row : Entry → Fetched
as_row e = Fetched.row (some e.username ∷ some e.remark ∷ [])

-- The entry has room in the buffers of the program.
abbrev pub Fits : Entry → Type 0
Fits e = (length e.username ≤ 255) × (length e.remark ≤ 255)

read_row-Fits : (e : Entry) → Fits e → read_row (some e.username) (some e.remark) ≡ ok (some e)
unfolding read_row
read_row-Fits e f =
    rw (le→ltb_false 255 (length e.username) f.0, le→ltb_false 255 (length e.remark) f.1) refl

fetches : List Entry → Calls → Calls
fetches [] h = fetch ∷ h
fetches (e ∷ es) h = fetches es (fetch ∷ h)

fetch_entries-rows :
    (es : List Entry) (h : Calls)
    → All Fits es
    → fetch_entries (map as_row es) h ≡ (ok es, fetches es h)
unfolding fetch_entries take_row fetches column
fetch_entries-rows [] h f = refl
fetch_entries-rows (e ∷ es) h f =
    rw (read_row-Fits e f.0, fetch_entries-rows es (fetch ∷ h) f.1) refl

module _ (lib : Library) (works : Works lib) (cfg : MySqlConfig) where
  -- The history of the statement that looks for the friends of a user.
  abbrev pub seeking : Bytes → Calls → Calls
  seeking user h =
      store_result
      ∷ bind_result
      ∷ execute
      ∷ bind_param (user ∷ [])
      ∷ prepare select_friends
      ∷ stmt_init
      ∷ opening cfg h

  fetch_friends_lem :
      (user : Bytes) (es : List Entry) (h : Calls)
      → lib.succeeds (query create_table ∷ connect cfg ∷ init ∷ h) ≡ true
      → lib.results (seeking user h) ≡ map as_row es
      → All Fits es
      → fetch_friends lib cfg user h
        ≡ (ok (sort_entries es), issue free_both (fetches es (seeking user h)))
  unfolding fetch_friends perform
  fetch_friends_lem user es h creates rows f =
      let ready : Calls = prepare select_friends ∷ stmt_init ∷ opening cfg h in
      rw (fetch_friends, opened_table_lem lib works cfg h creates)
        (rw (prepared_lem lib works select_friends (opening cfg h)) (
          rw (executed_lem lib works (user ∷ []) ready) (
            rw (stored_lem lib works free_both (execute ∷ bind_param (user ∷ []) ∷ ready), rows)
              (rw (fetch_entries-rows es (seeking user h) f) refl))))

  -- On a database where no call fails, but that it is left open whether the column `remark` is added
  -- anew: `ListFriends` of a user with a session returns exactly the rows that the database finds
  -- for the user, in whatever order, each with its remark, where each name and each remark has at
  -- most 255 bytes. The entries are in the order of the names.
  pub list_friends-rows :
      (api : ApiService) (token : Bytes) (now : ℕ) (h : Calls) (es : List Entry) {api' : ApiService}
      {sm : SessionManager} {s : Session}
      → lib.succeeds (query create_table ∷ connect cfg ∷ init ∷ h) ≡ true
      → with_user api token now ≡ (api', ok (sm, s))
      → lib.results (seeking s.username h) ≡ map as_row es
      → All Fits es
      → (out : List Entry) × ((Tables.list_friends lib (some cfg) api token now h).0
          ≡ (api', ok out))
        × ((name remark : Bytes) → occurrences name remark out ≡ occurrences name remark es)
        × (in_order out ≡ true)
  unfolding Tables.list_friends for_user
  list_friends-rows api token now h es {s} creates e rows f = (
    sort_entries es,
    rw (e, fetch_friends_lem s.username es h creates rows f) refl,
    λ name remark. occurrences-sort_entries name remark es,
    in_order-sort_entries es,
  )
