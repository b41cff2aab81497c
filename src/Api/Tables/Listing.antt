-- ===== src/Api/Tables/Listing.antt =====
-- api_service.cpp, `ListFriends` on a table: its calls of the library of the database.
use e2ee_windows.Common.{◌≡◌, refl, true, Option, none, some, List, [], ◌∷◌, Bytes, Result, ok, err}
use e2ee_windows.Common.Text.{same}
use e2ee_windows.Config.{MySqlConfig}
use e2ee_windows.Database.{Calls, Fetched, Library, free_both, perform, returned}
use e2ee_windows.Database.Call.{query, fetch}
use e2ee_windows.Database.Handles.{
  Handles, shut, online, ready, ran, kept, move, after, goal, Takes, mem, after-call, issue-Leads,
  perform-Takes, >>-Takes, >>=-Takes,
}
use e2ee_windows.Database.Parts.{
  freed, freed_kept, connected-Takes, query-Takes, prepared-Takes, executed-Takes, stored-Takes,
}
use e2ee_windows.Api.Friends.{Entry, sort_entries}
use e2ee_windows.Api.Tables.{
  create_table, add_column, select_friends, insert_friend, select_one, update_remark, opened_table,
  prepend, take_row, fetch_entries, fetch_friends,
}

-- All the texts of the program's statements on friendships.
abbrev pub texts : List Bytes
texts = create_table ∷ add_column ∷ select_friends ∷ insert_friend ∷ select_one ∷ update_remark ∷ []

pub listed :
    (mem create_table texts ≡ true)
    × (mem add_column texts ≡ true)
    × (mem select_friends texts ≡ true)
    × (mem insert_friend texts ≡ true)
    × (mem select_one texts ≡ true)
    × (mem update_remark texts ≡ true)
unfolding same
listed = (refl, refl, refl, refl, refl, refl)

module _ (lib : Library) (cfg : MySqlConfig) where
  pub opened_table-Takes : Takes texts lib shut (opened_table lib cfg) online
  unfolding opened_table move same
  opened_table-Takes = >>-Takes texts lib shut online online _ _ (connected-Takes texts lib cfg) (
      >>-Takes texts lib online online online _ _ (query-Takes texts lib create_table _ listed.0)
        (perform-Takes texts lib online online (query add_column ∷ []) (online, refl, refl, refl)))

  prepend-goal :
      (e : Option Entry) (r : Result (List Entry)) (t : Handles) → goal (prepend e r) t ≡ goal r t
  prepend-goal none r t = refl
  prepend-goal (some e) (ok es) t = refl
  prepend-goal (some e) (err m) t = refl

  take_row_lem :
      (r : Result (Option Entry)) (h : Calls) (rest : Result (List Entry) × Calls)
      → after texts lib h ≡ some kept
      → after texts lib rest.1 ≡ some (goal rest.0 kept)
      → after texts lib (take_row r h rest).1 ≡ some (goal (take_row r h rest).0 kept)
  unfolding take_row
  take_row_lem (err e) h rest p q =
      issue-Leads texts lib kept shut free_both h (freed_kept texts lib) p
  take_row_lem (ok entry) h (r, h') p q = rw (prepend-goal entry r kept) q

  pub fetched :
      (h : Calls) → after texts lib h ≡ some kept → after texts lib (fetch ∷ h) ≡ some kept
  unfolding move
  fetched h e = after-call texts lib kept fetch h e

  fetch_entries-Takes : (rs : List Fetched) → Takes texts lib kept (fetch_entries rs) kept
  unfolding fetch_entries
  fetch_entries-Takes [] h e = fetched h e
  fetch_entries-Takes (Fetched.failed ∷ rs) h e =
      issue-Leads texts lib kept shut free_both (fetch ∷ h) (freed_kept texts lib) (fetched h e)
  fetch_entries-Takes (Fetched.row cs ∷ rs) h e =
      take_row_lem _ (fetch ∷ h) _ (fetched h e) (fetch_entries-Takes rs (fetch ∷ h) (fetched h e))

  pub fetch_friends-Takes : (user : Bytes) → Takes texts lib shut (fetch_friends lib cfg user) shut
  unfolding fetch_friends
  fetch_friends-Takes user = >>-Takes texts lib shut online shut _ _ opened_table-Takes (
      >>-Takes texts lib online (ready 1) shut _ _
        (prepared-Takes texts lib select_friends listed.2)
        (>>-Takes texts lib (ready 1) (ran 1) shut _ _ (executed-Takes texts lib 1 (user ∷ []) refl)
          (>>=-Takes texts lib (ran 1) kept shut _ _
            (stored-Takes texts lib 1 free_both (freed texts lib))
            (λ found. >>=-Takes texts lib kept kept shut _ _ (fetch_entries-Takes found) (λ out.
              >>-Takes texts lib kept shut shut (perform free_both) (returned (sort_entries out))
                (perform-Takes texts lib kept shut free_both (freed_kept texts lib)) (λ h e. e))))))
