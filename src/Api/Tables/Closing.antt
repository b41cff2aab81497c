-- ===== src/Api/Tables/Closing.antt =====
-- api_service.cpp: the calls of the friendships in a table. What is opened is closed, and what a
-- user writes is never a part of a statement's text.
use e2ee_windows.Common.{
  text, ℕ, ◌≡◌, ◌∙◌, ap, refl, Option, none, some, List, [], ◌∷◌, Bytes, Result, ok, err,
}
use e2ee_windows.Config.{MySqlConfig}
use e2ee_windows.Database.{column, Calls, Fetched, Library, Action, free_both, close_both, perform}
use e2ee_windows.Database.Call.{fetch, free_result, stmt_close, close}
use e2ee_windows.Database.Handles.{
  shut, online, ready, ran, ran_bound, kept, move, after, goal, Takes, Leads, after-call,
  perform-Takes, >>-Takes, >>=-Takes,
}
use e2ee_windows.Database.Parts.{freed, prepared-Takes, executed-Takes, stored-Takes}
use e2ee_windows.Session.{Session, SessionManager}
use e2ee_windows.Api.{ApiService}
use e2ee_windows.Api.Tables.{
  select_one, update_remark, fetch_friends, insert_friends, judged, write_remark, with_user,
  add_refused, remark_refused, unless, for_user, list_friends, add_friend, set_friend_remark,
}
use e2ee_windows.Api.Tables.Listing.{texts, listed, opened_table-Takes}
use e2ee_windows.Api.Tables.Listing.{fetch_friends-Takes}
use e2ee_windows.Api.Tables.Inserting.{insert_friends-Takes}

module _ (lib : Library) (cfg : MySqlConfig) where
  seen : Leads texts lib kept (fetch ∷ free_result ∷ stmt_close ∷ []) online
  unfolding move
  seen = (kept, refl, refl, (ran_bound, refl, refl, (online, refl, refl, refl)))

  closed : (h : Calls) → after texts lib h ≡ some online → after texts lib (close ∷ h) ≡ some shut
  unfolding move
  closed h e = after-call texts lib online close h e

  judged_row :
      (c : Option Bytes) (h : Calls)
      → after texts lib h ≡ some online
      → (let r : Result {0} Unit × Calls = elim c [
        | none ↦ (err (text "not friends"), close ∷ h)
        | some one ↦ (ok tt, h)
      ] in
          after texts lib r.1 ≡ some (goal r.0 online))
  judged_row none h e = closed h e
  judged_row (some one) h e = e

  judged-Takes : (rs : List Fetched) → Takes texts lib online (judged rs) online
  unfolding judged
  judged-Takes [] h e = closed h e
  judged-Takes (Fetched.failed ∷ rs) h e = closed h e
  judged-Takes (Fetched.row cs ∷ rs) h e = judged_row (column 0 cs) h e

  closed_ran : Leads texts lib (ran 3) close_both shut
  unfolding move
  closed_ran = (online, refl, refl, (shut, refl, refl, refl))

  write_remark-Takes :
      (user friend remark : Bytes)
      → Takes texts lib shut (write_remark lib cfg user friend remark) shut
  unfolding write_remark
  write_remark-Takes user friend remark =
      >>-Takes texts lib shut online shut _ _ (opened_table-Takes lib cfg) (
        >>-Takes texts lib online (ready 2) shut _ _ (prepared-Takes texts lib select_one listed.4)
          (>>-Takes texts lib (ready 2) (ran 2) shut _ _
            (executed-Takes texts lib 2 (user ∷ friend ∷ []) refl)
            (>>=-Takes texts lib (ran 2) kept shut _ _
              (stored-Takes texts lib 2 free_both (freed texts lib))
              (λ found.
                >>-Takes texts lib kept online shut
                  (perform (fetch ∷ free_result ∷ stmt_close ∷ [])) _
                  (perform-Takes texts lib kept online (fetch ∷ free_result ∷ stmt_close ∷ []) seen)
                  (>>-Takes texts lib online online shut (judged found) _ (judged-Takes found) (
                    >>-Takes texts lib online (ready 3) shut _ _
                      (prepared-Takes texts lib update_remark listed.5)
                      (>>-Takes texts lib (ready 3) (ran 3) shut _ _
                        (executed-Takes texts lib 3 (remark ∷ user ∷ friend ∷ []) refl)
                        (perform-Takes texts lib (ran 3) shut close_both closed_ran))))))))

module _ (lib : Library) where
  goal_shut : {A : Type 0} (r : Result A) → goal r shut ≡ shut
  goal_shut (ok a) = refl
  goal_shut (err e) = refl

  -- Once a part has run from where nothing is open, nothing is open.
  Takes-shut :
      {A : Type 0} (m : Action A) (h : Calls)
      → Takes texts lib shut m shut
      → after texts lib h ≡ some shut
      → after texts lib (m h).1 ≡ some shut
  Takes-shut m h k e = k h e ∙ ap some (goal_shut (m h).0)

  unless-shut :
      {A : Type 0} (r : Option Bytes) (m : Action A) (h : Calls)
      → Takes texts lib shut m shut
      → after texts lib h ≡ some shut
      → after texts lib (unless r m h).1 ≡ some shut
  unless-shut none m h k e = Takes-shut m h k e
  unless-shut (some x) m h k e = e

  for_user-shut :
      {A : Type 0} (x : ApiService × Result (SessionManager × Session))
      (act : SessionManager → Session → Action A) (h : Calls)
      → ((sm : SessionManager) (s : Session) → after texts lib (act sm s h).1 ≡ some shut)
      → after texts lib h ≡ some shut
      → after texts lib (for_user x act h).1 ≡ some shut
  unfolding for_user
  for_user-shut (api, err e') act h k e = e
  for_user-shut (api, ok (sm, s)) act h k e = k sm s

module _ (lib : Library) (api : ApiService) (token : Bytes) (now : ℕ) (h : Calls) where
  -- Whatever the library of the database answers, and wherever it fails: each operation on
  -- friendships that starts with nothing open calls every function of the library where its handle
  -- is open, closes each statement and connection that it opens, sends no text but the six of the
  -- program, and gives each statement as many values as it has marks.
  pub calls_closed :
      (friend_mysql : Option MySqlConfig) (friend remark : Bytes)
      → after texts lib h ≡ some shut
      → (after texts lib (list_friends lib friend_mysql api token now h).1 ≡ some shut)
        × (after texts lib (add_friend lib friend_mysql api token friend remark now h).1
            ≡ some shut)
        × (after texts lib (set_friend_remark lib friend_mysql api token friend remark now h).1
            ≡ some shut)
  unfolding list_friends add_friend set_friend_remark
  calls_closed none friend remark e = (e, e, e)
  calls_closed (some cfg) friend remark e = (
    for_user-shut lib (with_user api token now) (λ sm s. fetch_friends lib cfg s.username) h
        (λ sm s. Takes-shut lib _ h (fetch_friends-Takes lib cfg s.username) e) e,
    for_user-shut lib (with_user api token now)
        (λ sm s.
          unless (add_refused sm s friend remark) (insert_friends lib cfg s.username friend remark))
        h
        (λ sm s.
          unless-shut lib (add_refused sm s friend remark) _ h
            (insert_friends-Takes lib cfg s.username friend remark) e)
        e,
    for_user-shut lib (with_user api token now)
        (λ sm s.
          unless (remark_refused friend remark) (write_remark lib cfg s.username friend remark))
        h
        (λ sm s.
          unless-shut lib (remark_refused friend remark) _ h
            (write_remark-Takes lib cfg s.username friend remark) e)
        e,
  )
