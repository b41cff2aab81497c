-- ===== src/Runs/Accounts.antt =====
-- Runs of the operations on accounts in a database.
use e2ee_windows.Common.{◌≡◌, ◌∙◌, refl, none, [], ◌∷◌, text, done}
use e2ee_windows.Common.Text.{same}
use e2ee_windows.Common.Dict.{find}
use e2ee_windows.Auth.Password.{verify_password}
use e2ee_windows.Auth.Tables.{select_password, select_user, validate, user_exists}
use e2ee_windows.Auth.Tables.Checking.{asked, outcome, absence, all_calls, validate_lem}
use e2ee_windows.Auth.Tables.Letting.{HasPassword, validate-HasPassword}
use e2ee_windows.Database.Call.{init, connect}
use e2ee_windows.Runs.Keeping.{working, cfg, no_rows, accounts, working-HasAccounts}

validate_lem_example :
    (validate (working no_rows) cfg (text "ann") (text "secret") []
      ≡ outcome
          (find (text "ann") accounts)
          (text "secret")
          (all_calls cfg select_password (text "ann") []))
    × (user_exists (working no_rows) cfg (text "ann") []
        ≡ (absence (find (text "ann") accounts), all_calls cfg select_user (text "ann") []))
validate_lem_example =
    validate_lem (working no_rows) accounts (working-HasAccounts no_rows) cfg (text "ann")
      (text "secret") []

let_in :
    validate (working no_rows) cfg (text "ann") (text "secret") []
    ≡ done (none, all_calls cfg select_password (text "ann") [])
unfolding find same verify_password
let_in = validate_lem_example.0 ∙ refl

validate-HasPassword_example :
    HasPassword
      ((working no_rows).results (asked select_password (text "ann") (connect cfg ∷ init ∷ [])))
      (text "secret")
validate-HasPassword_example =
    validate-HasPassword (working no_rows) cfg (text "ann") [] (text "secret")
      (all_calls cfg select_password (text "ann") []) let_in
