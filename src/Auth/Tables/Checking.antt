-- ===== src/Auth/Tables/Checking.antt =====
-- auth_provider.cpp with a database: who is let in, and what is closed.
use e2ee_windows.Common.{
  ◌≡◌, refl, Option, none, some, List, [], ◌∷◌, Bytes, text, Run, done, fault, ok, length, ltb,
  if◌then◌else◌,
}
use e2ee_windows.Common.Dict.{Dict, find}
use e2ee_windows.Config.{MySqlConfig}
use e2ee_windows.Database.{Calls, Fetched, Library, issue, free_both, close_both, column}
use e2ee_windows.Database.Call.{
  init, connect, stmt_init, prepare, bind_param, execute, bind_result, store_result, fetch,
  free_result, stmt_close, close,
}
use e2ee_windows.Database.Working.{Works, connected_lem, prepared_lem, executed_lem, stored_lem}
use e2ee_windows.Auth.Password.{verify_password}
use e2ee_windows.Auth.Tables.{
  select_password, select_user, first_column, fetch_password, verdict, compare_password, fetch_once,
  validate, fetch_user, found_user, user_exists,
}

-- The history of a statement with one value, up to its result.
abbrev pub asked : Bytes → Bytes → Calls → Calls
asked t u h = store_result ∷ bind_result ∷ execute ∷ bind_param (u ∷ []) ∷ prepare t ∷ stmt_init ∷ h

-- A row with one column, or no row.
abbrev pub one_row : Option Bytes → List Fetched
one_row none = []
one_row (some c) = Fetched.row (some c ∷ []) ∷ []

abbrev pub one_if : Option Bytes → Option Bytes
one_if none = none
one_if (some c) = some (text "1")

-- The server of the database works, and has the accounts of the program in its table.
pub record HasAccounts (lib : Library) (accounts : Dict Bytes) : Type 0 where
  pub works : Works lib
  pub password_rows :
      (u : Bytes) (h : Calls) → lib.results (asked select_password u h) ≡ one_row (find u accounts)
  pub user_rows :
      (u : Bytes) (h : Calls)
      → lib.results (asked select_user u h) ≡ one_row (one_if (find u accounts))

-- What the table says of a user and a password.
abbrev pub judgement : Option Bytes → Bytes → Option Bytes
judgement none password = some (text "user not found")
judgement (some pass) password = verdict (verify_password password pass)

abbrev pub absence : Option Bytes → Option Bytes
absence none = some (text "user not found")
absence (some pass) = none

-- What `Validate` makes of the entry of a user in the table.
abbrev pub outcome : Option Bytes → Bytes → Calls → Run (Option Bytes × Calls)
outcome none password h = done (some (text "user not found"), h)
outcome (some pass) password h =
    if ltb 255 (length pass) then fault else done (verdict (verify_password password pass), h)

-- The history of a lookup that has come to its end.
abbrev pub all_calls : MySqlConfig → Bytes → Bytes → Calls → Calls
all_calls cfg t u h = close ∷ stmt_close ∷ free_result ∷ fetch ∷ asked t u (connect cfg ∷ init ∷ h)

module _ (lib : Library) (accounts : Dict Bytes) (s : HasAccounts lib accounts) where
  fetch_password_lem :
      (cfg : MySqlConfig) (u : Bytes) (h : Calls)
      → fetch_password lib cfg u h
        ≡ (ok (one_row (find u accounts)), asked select_password u (connect cfg ∷ init ∷ h))
  unfolding fetch_password
  fetch_password_lem cfg u h =
      let opened : Calls = connect cfg ∷ init ∷ h in
      rw (fetch_password, connected_lem lib s.works cfg h)
        (rw (prepared_lem lib s.works select_password opened) (
          rw (executed_lem lib s.works (u ∷ []) (prepare select_password ∷ stmt_init ∷ opened)) (
            rw
              (
                stored_lem lib s.works close_both
                    (execute ∷ bind_param (u ∷ []) ∷ prepare select_password ∷ stmt_init ∷ opened),
                s.password_rows u opened,
              )
              refl)))

  fetch_user_lem :
      (cfg : MySqlConfig) (u : Bytes) (h : Calls)
      → fetch_user lib cfg u h
        ≡ (ok (one_row (one_if (find u accounts))), asked select_user u (connect cfg ∷ init ∷ h))
  unfolding fetch_user
  fetch_user_lem cfg u h =
      let opened : Calls = connect cfg ∷ init ∷ h in
      rw (fetch_user, connected_lem lib s.works cfg h)
        (rw (prepared_lem lib s.works select_user opened) (
          rw (executed_lem lib s.works (u ∷ []) (prepare select_user ∷ stmt_init ∷ opened)) (
            rw
              (
                stored_lem lib s.works free_both
                    (execute ∷ bind_param (u ∷ []) ∷ prepare select_user ∷ stmt_init ∷ opened),
                s.user_rows u opened,
              )
              refl)))

  compare_one_row :
      (o : Option Bytes) (password : Bytes) (h : Calls)
      → compare_password password (first_column (one_row o)) (fetch ∷ h)
        ≡ outcome o password (issue free_both (fetch ∷ h))
  unfolding compare_password first_column column
  compare_one_row none password h = refl
  compare_one_row (some pass) password h = refl

  found_one :
      (o : Option Bytes) (h : Calls)
      → found_user (ok (one_row (one_if o)), h) ≡ (absence o, issue free_both (fetch ∷ h))
  unfolding first_column column
  found_one none h = refl
  found_one (some pass) h = refl

  pub validate_lem :
      (cfg : MySqlConfig) (u password : Bytes) (h : Calls)
      → (validate lib cfg u password h
          ≡ outcome (find u accounts) password (all_calls cfg select_password u h))
        × (user_exists lib cfg u h ≡ (absence (find u accounts), all_calls cfg select_user u h))
  unfolding validate fetch_once user_exists issue
  validate_lem cfg u password h = (
    rw (validate, fetch_password_lem cfg u h)
        (compare_one_row (find u accounts) password
          (asked select_password u (connect cfg ∷ init ∷ h))),
    rw (user_exists, fetch_user_lem cfg u h)
        (found_one (find u accounts) (asked select_user u (connect cfg ∷ init ∷ h))),
  )
