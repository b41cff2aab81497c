-- ===== src/Runs/Keeping.antt =====
-- A library of the database that works, and keeps its tables in the history of its calls.
use e2ee_windows.Common.{
  ◌≡◌, refl, Bool, not, false, none, List, [], ◌∷◌, Bytes, text, map, if◌then◌else◌,
}
use e2ee_windows.Common.Text.{same}
use e2ee_windows.Common.Dict.{Dict, find}
use e2ee_windows.Config.{MySqlConfig, default_config}
use e2ee_windows.Auth.Tables.{select_password, select_user}
use e2ee_windows.Auth.Tables.Checking.{HasAccounts, one_row, one_if}
use e2ee_windows.Database.{Call, Calls, Fetched, Library}
use e2ee_windows.Database.Call.{query, bind_param, execute, bind_result, store_result}
use e2ee_windows.Database.Working.{Works, is_query}
use e2ee_windows.Api.Friends.{Entry}
use e2ee_windows.Api.Tables.{add_column, insert_friend, update_remark}
use e2ee_windows.Api.Tables.Stored.{
  Table, insert_ignore, update, last_text, is_execute, one_of, HasTable,
}
use e2ee_windows.Api.Tables.Fetching.{as_row}

-- The values of the statement that is executed next.
abbrev pub last_values : Calls → List Bytes
last_values [] = []
last_values (bind_param ps ∷ h) = ps
last_values (c ∷ h) = last_values h

abbrev pub ran : Bytes → List Bytes → Table → Table
ran t (x ∷ y ∷ z ∷ []) rows =
    if same t insert_friend
    then insert_ignore x y z rows
    else if same t update_remark
    then update x y z rows
    else rows
ran t ps rows = rows

-- The table, which has the rows `start` at first.
unfoldable pub table_of : Table → Calls → Table
table_of start [] = start
table_of start (execute ∷ h) = ran (last_text h) (last_values h) (table_of start h)
table_of start (c ∷ h) = table_of start h

abbrev pub accounts : Dict Bytes
accounts = (text "ann", text "secret") ∷ (text "ben", text "word") ∷ []

abbrev pub some_entries : List Entry
some_entries =
    record { username = text "cy"; remark = [] }
    ∷ record { username = text "ben"; remark = text "B" }
    ∷ []

-- The rows that are found for one value.
abbrev pub found_for : Bytes → Bytes → List Fetched
found_for t u =
    if same t select_password
    then one_row (find u accounts)
    else if same t select_user
    then one_row (one_if (find u accounts))
    else map as_row some_entries

unfoldable pub answers : Table → Calls → List Fetched
answers start (store_result ∷ bind_result ∷ execute ∷ bind_param (u ∷ f ∷ []) ∷ h) =
    one_of (table_of start h u f)
answers start (store_result ∷ bind_result ∷ execute ∷ bind_param (u ∷ []) ∷ h) =
    found_for (last_text h) u
answers start h = []

-- The column `remark` is there already: the statement that adds it fails.
unfoldable pub adds_column : Calls → Bool
adds_column (query t ∷ h) = same t add_column
adds_column h = false

abbrev pub working : Table → Library
working start = record { succeeds = λ h. not (adds_column h); results = answers start }

working-Works : (start : Table) → Works (working start)
unfolding is_query adds_column
working-Works start (query t) h e = cc
working-Works start c h e = refl

others_lem :
    (start : Table) (c : Call) (h : Calls)
    → is_execute c ≡ false
    → table_of start (c ∷ h) ≡ table_of start h
unfolding table_of is_execute
others_lem start execute h e = cc
others_lem start c h e = refl

pub working-HasTable : (start : Table) → HasTable (working start) (table_of start)
unfolding table_of answers same last_text adds_column
working-HasTable start = record {
  works = working-Works start;
  creates = λ h. refl;
  others = others_lem start;
  inserts = λ u f r h e plain nu nf nr. rw e refl;
  updates = λ r u f h e plain nu nf nr. rw e refl;
  selects = λ u f h e plain nu nf. (refl, refl);
}

pub working-HasAccounts : (start : Table) → HasAccounts (working start) accounts
unfolding answers last_text same
working-HasAccounts start = record {
  works = working-Works start;
  password_rows = λ u h. refl;
  user_rows = λ u h. refl;
}

abbrev pub cfg : MySqlConfig
cfg = default_config.mysql

abbrev pub no_rows : Table
no_rows a b = none
