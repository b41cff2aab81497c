-- ===== src/Auth/Tables/Letting.antt =====
-- auth_provider.cpp with any library of the database: no failure lets anybody in, and every lookup
-- closes what it opens.
use e2ee_windows.Common.{
  ◌≡◌, ◌≤◌, refl, true, Option, none, some, List, [], ◌∷◌, Bytes, done, Result, ok, err, length,
  arith,
}
use e2ee_windows.Common.Text.{same}
use e2ee_windows.Config.{MySqlConfig}
use e2ee_windows.Database.{
  Calls, Fetched, Library, issue, free_both, close_both, stored, connected, prepared, executed,
}
use e2ee_windows.Database.Call.{init, connect, fetch}
use e2ee_windows.Auth.Password.{verify_password}
use e2ee_windows.Auth.Tables.{
  select_password, select_user, first_column, fetch_password, compare_password, fetch_once,
  validate, fetch_user, found_user, user_exists,
}
use e2ee_windows.Database.Handles.{
  shut, online, ready, ran, kept, move, after, goal, Takes, Leads, mem, issue-Leads, >>-Takes,
}
use e2ee_windows.Database.Parts.{
  freed, freed_kept, unbound, connected-Takes, prepared-Takes, executed-Takes, stored-Takes,
}
use e2ee_windows.Auth.Tables.Checking.{asked}

-- What the first row has to be for a login.
abbrev pub HasPassword : List Fetched → Bytes → Type 0
HasPassword found password =
    (pass : Bytes) × (first_column found ≡ ok pass)
    × (length pass ≤ 255)
    × (verify_password password pass ≡ true)

module _ (lib : Library) (cfg : MySqlConfig) (u : Bytes) (h : Calls) where
  fetch_password-eq-ok :
      (h' : Calls) (found : List Fetched)
      → fetch_password lib cfg u h ≡ (ok found, h')
      → found ≡ lib.results (asked select_password u (connect cfg ∷ init ∷ h))
  unfolding fetch_password connected prepared executed stored
  fetch_password-eq-ok h' found e = ground arith

  compare_password-eq-none :
      (password : Bytes) (found : List Fetched) (r : Result Bytes) (h' : Calls) {h'' : Calls}
      → first_column found ≡ r
      → compare_password password r h' ≡ done (none, h'')
      → HasPassword found password
  unfolding compare_password
  compare_password-eq-none password found (err e') h' c e = cc
  compare_password-eq-none password found (ok pass) h' c e = (pass, c, ground arith, ground arith)

  fetch_once-eq-none :
      (password : Bytes) (r : Result (List Fetched) × Calls) {h'' : Calls}
      → fetch_password lib cfg u h ≡ r
      → fetch_once password r ≡ done (none, h'')
      → HasPassword (lib.results (asked select_password u (connect cfg ∷ init ∷ h))) password
  unfolding fetch_once
  fetch_once-eq-none password (err e', h') q e = cc
  fetch_once-eq-none password (ok found, h') q e =
      rw (← fetch_password-eq-ok h' found q)
        (compare_password-eq-none password found (first_column found) (fetch ∷ h') refl e)

  -- Whatever the library answers, and wherever it fails: who is let in has given a password that
  -- verifies against a string of at most 255 bytes, which the first row has that was found for
  -- exactly this user's name.
  pub validate-HasPassword :
      (password : Bytes) (h' : Calls)
      → validate lib cfg u password h ≡ done (none, h')
      → HasPassword (lib.results (asked select_password u (connect cfg ∷ init ∷ h))) password
  unfolding validate
  validate-HasPassword password h' e =
      fetch_once-eq-none password (fetch_password lib cfg u h) refl e

-- All the texts of the program's statements on accounts.
abbrev pub account_texts : List Bytes
account_texts = select_password ∷ select_user ∷ []

listed : (mem select_password account_texts ≡ true) × (mem select_user account_texts ≡ true)
unfolding same
listed = (refl, refl)

module _ (lib : Library) (cfg : MySqlConfig) (u : Bytes) where
  ended : Leads account_texts lib kept (fetch ∷ free_both) shut
  unfolding move
  ended = (kept, refl, refl, freed_kept account_texts lib)

  fetch_password-Takes : Takes account_texts lib shut (fetch_password lib cfg u) kept
  unfolding fetch_password
  fetch_password-Takes =
      >>-Takes account_texts lib shut online kept _ _ (connected-Takes account_texts lib cfg) (
        >>-Takes account_texts lib online (ready 1) kept _ _
          (prepared-Takes account_texts lib select_password listed.0)
          (>>-Takes account_texts lib (ready 1) (ran 1) kept _ _
            (executed-Takes account_texts lib 1 (u ∷ []) refl)
            (stored-Takes account_texts lib 1 close_both (unbound account_texts lib))))

  fetch_user-Takes : Takes account_texts lib shut (fetch_user lib cfg u) kept
  unfolding fetch_user
  fetch_user-Takes =
      >>-Takes account_texts lib shut online kept _ _ (connected-Takes account_texts lib cfg) (
        >>-Takes account_texts lib online (ready 1) kept _ _
          (prepared-Takes account_texts lib select_user listed.1)
          (>>-Takes account_texts lib (ready 1) (ran 1) kept _ _
            (executed-Takes account_texts lib 1 (u ∷ []) refl)
            (stored-Takes account_texts lib 1 free_both (freed account_texts lib))))

  closed_end :
      (h : Calls)
      → after account_texts lib h ≡ some kept
      → after account_texts lib (issue free_both (fetch ∷ h)) ≡ some shut
  unfolding issue
  closed_end h e = issue-Leads account_texts lib kept shut (fetch ∷ free_both) h ended e

  found_user-shut :
      (r : Result (List Fetched) × Calls)
      → after account_texts lib r.1 ≡ some (goal r.0 kept)
      → after account_texts lib (found_user r).1 ≡ some shut
  found_user-shut (ok found, h) e = closed_end h e
  found_user-shut (err e', h) e = e

  compare_password-eq-done :
      (password : Bytes) (r : Result Bytes) (h : Calls) {o : Option Bytes} {h' : Calls}
      → compare_password password r h ≡ done (o, h')
      → issue free_both h ≡ h'
  unfolding compare_password
  compare_password-eq-done password (err e') h e = cc
  compare_password-eq-done password (ok pass) h e = ground arith

  fetch_once-shut :
      (password : Bytes) (r : Result (List Fetched) × Calls) {o : Option Bytes} {h' : Calls}
      → after account_texts lib r.1 ≡ some (goal r.0 kept)
      → fetch_once password r ≡ done (o, h')
      → after account_texts lib h' ≡ some shut
  unfolding fetch_once
  fetch_once-shut password (err e', h) k e = cc
  fetch_once-shut password (ok found, h) k e =
      rw (← compare_password-eq-done password (first_column found) (fetch ∷ h) e) (closed_end h k)

  -- Whatever the library answers: each lookup of an account that starts with nothing open closes
  -- what it opens, and sends no text but the two of the program, where it does not write outside
  -- of its buffer.
  pub lookups_closed :
      (password : Bytes) (h : Calls)
      → after account_texts lib h ≡ some shut
      → (after account_texts lib (user_exists lib cfg u h).1 ≡ some shut)
        × ((o : Option Bytes) (h' : Calls)
            → validate lib cfg u password h ≡ done (o, h')
            → after account_texts lib h' ≡ some shut)
  unfolding user_exists validate
  lookups_closed password h e = (
    found_user-shut (fetch_user lib cfg u h) (fetch_user-Takes h e),
    λ o h'. fetch_once-shut password (fetch_password lib cfg u h) (fetch_password-Takes h e),
  )
