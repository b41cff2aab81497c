-- ===== src/Database/Working.antt =====
-- The groups of calls where no call fails but for queries: what they make of the history.
use e2ee_windows.Common.{◌≡◌, refl, Bool, true, false, List, ◌∷◌, Bytes, ok}
use e2ee_windows.Config.{MySqlConfig}
use e2ee_windows.Database.{
  Call, Calls, Library, attempt, connected, prepared, executed, all_results, stored,
}
use e2ee_windows.Database.Call.{
  init, connect, query, stmt_init, prepare, bind_param, execute, bind_result, store_result,
}

unfoldable pub is_query : Call → Bool
is_query (query t) = true
is_query c = false

-- Every call succeeds, but for the queries, of which nothing is said: `ALTER TABLE` fails where the
-- column is there.
abbrev pub Works : Library → Type 0
Works lib = (c : Call) (h : Calls) → is_query c ≡ false → lib.succeeds (c ∷ h) ≡ true

module _ (lib : Library) (works : Works lib) where
  pub attempt_lem :
      (c : Call) (e : Bytes) (cleanup : List Call) (h : Calls)
      → lib.succeeds (c ∷ h) ≡ true
      → attempt lib c e cleanup h ≡ (ok tt, c ∷ h)
  unfolding attempt
  attempt_lem c e cleanup h good = rw (attempt, good) refl

  pub connected_lem :
      (cfg : MySqlConfig) (h : Calls) → connected lib cfg h ≡ (ok tt, connect cfg ∷ init ∷ h)
  unfolding connected attempt is_query
  connected_lem cfg h = rw (connected, works init h refl, works (connect cfg) (init ∷ h) refl) refl

  pub prepared_lem : (t : Bytes) (h : Calls) → prepared lib t h ≡ (ok tt, prepare t ∷ stmt_init ∷ h)
  unfolding prepared attempt is_query
  prepared_lem t h =
      rw (prepared, works stmt_init h refl, works (prepare t) (stmt_init ∷ h) refl) refl

  pub executed_lem :
      (ps : List Bytes) (h : Calls) → executed lib ps h ≡ (ok tt, execute ∷ bind_param ps ∷ h)
  unfolding executed attempt is_query
  executed_lem ps h =
      rw (executed, works (bind_param ps) h refl, works execute (bind_param ps ∷ h) refl) refl

  pub stored_lem :
      (cleanup : List Call) (h : Calls)
      → stored lib cleanup h
        ≡ (ok (lib.results (store_result ∷ bind_result ∷ h)), store_result ∷ bind_result ∷ h)
  unfolding stored attempt all_results is_query
  stored_lem cleanup h =
      rw (stored, works bind_result h refl, works store_result (bind_result ∷ h) refl) refl
