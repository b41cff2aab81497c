-- ===== src/Auth/Tables.antt =====
-- server/src/auth_provider.cpp, built with MI_E2EE_ENABLE_MYSQL: the accounts in a table of a database.
-- The library and the calls that were made of it before are arguments; the configuration has the
-- password that `ScrambledString::get` returns.
pub mod Checking
pub mod Letting
use e2ee_windows.Common.{
  Bool, Option, none, some, List, [], ◌∷◌, Bytes, text, Run, done, fault, Result, ok, err,
  if◌then◌else◌, length, ltb,
}
use e2ee_windows.Config.{MySqlConfig}
use e2ee_windows.Database.{
  Call, Calls, Fetched, Library, Action, ◌>>=◌, ◌>>◌, issue, perform, close_both, free_both,
  connected, prepared, executed, stored, column,
}
use e2ee_windows.Database.Call.{fetch}
use e2ee_windows.Auth.Password.{verify_password}

abbrev pub select_password : Bytes
select_password = text "SELECT password FROM user_auth WHERE username=? LIMIT 1"

abbrev pub select_user : Bytes
select_user = text "SELECT 1 FROM user_auth WHERE username=? LIMIT 1"

-- The one fetch, as far as the first column is concerned; a row with null is no row.
unfoldable pub first_column : List Fetched → Result Bytes
first_column [] = err (text "user not found")
first_column (Fetched.failed ∷ rs) = err (text "mysql_stmt_fetch failed")
first_column (Fetched.row cs ∷ rs) = elim (column 0 cs) [
  | none ↦ err (text "user not found")
  | some c ↦ ok c
]

-- `Validate` up to the fetch.
unfoldable pub fetch_password : Library → MySqlConfig → Bytes → Action (List Fetched)
fetch_password lib cfg username = do
  connected lib cfg
  prepared lib select_password
  executed lib (username ∷ [])
  stored lib close_both

abbrev pub verdict : Bool → Option Bytes
verdict ok' = if ok' then none else some (text "invalid credentials")

-- Behind the fetch: `pass_buf[pass_len] = '\0'` in a buffer of 256 bytes, where `pass_len` is the
-- length of the column, whatever fitted into the buffer.
unfoldable pub compare_password : Bytes → Result Bytes → Calls → Run (Option Bytes × Calls)
compare_password password (err e) h = done (some e, issue free_both h)
compare_password password (ok pass) h =
    if ltb 255 (length pass)
    then fault
    else done (verdict (verify_password password pass), issue free_both h)

unfoldable pub fetch_once : Bytes → Result (List Fetched) × Calls → Run (Option Bytes × Calls)
unfolding first_column
fetch_once password (err e, h) = done (some e, h)
fetch_once password (ok found, h) = compare_password password (first_column found) (fetch ∷ h)

-- `MySqlAuthProvider::Validate`
unfoldable pub validate : Library → MySqlConfig → Bytes → Bytes → Calls → Run (Option Bytes × Calls)
unfolding fetch_password fetch_once compare_password
validate lib cfg username password h = fetch_once password (fetch_password lib cfg username h)

-- `MySqlAuthProvider::UserExists`, which returns its errors last.
unfoldable pub fetch_user : Library → MySqlConfig → Bytes → Action (List Fetched)
fetch_user lib cfg username = do
  connected lib cfg
  prepared lib select_user
  executed lib (username ∷ [])
  stored lib free_both

abbrev pub found_user : Result (List Fetched) × Calls → Option Bytes × Calls
found_user (err e, h) = (some e, h)
found_user (ok found, h) =
    (elim (first_column found) [ err e ↦ some e | ok c ↦ none ], issue free_both (fetch ∷ h))

unfoldable pub user_exists : Library → MySqlConfig → Bytes → Calls → Option Bytes × Calls
unfolding fetch_user first_column
user_exists lib cfg username h = found_user (fetch_user lib cfg username h)
