-- ===== src/Database/Parts.antt =====
-- What the groups of calls open and close.
use e2ee_windows.Common.{ℕ, ◌≡◌, ◌==◌, refl, true, List, [], ◌∷◌, Bytes, length}
use e2ee_windows.Config.{MySqlConfig}
use e2ee_windows.Database.{
  Call, Library, attempt, close_both, free_both, connected, prepared, executed, all_results, stored,
}
use e2ee_windows.Database.Call.{
  init, connect, query, stmt_init, prepare, bind_param, execute, bind_result, store_result, close,
}
use e2ee_windows.Database.Handles.{
  shut, opened, online, blank, ready, bound, ran, ran_bound, kept, marks, mem, move, Takes, Leads,
  attempt-Takes, >>-Takes,
}

module _ (texts : List Bytes) (lib : Library) where
  -- The ways in which a statement and its connection are closed.
  pub freed : Leads texts lib ran_bound free_both shut
  unfolding move
  freed = (ran_bound, refl, refl, (online, refl, refl, (shut, refl, refl, refl)))

  pub freed_kept : Leads texts lib kept free_both shut
  unfolding move
  freed_kept = (ran_bound, refl, refl, (online, refl, refl, (shut, refl, refl, refl)))

  pub unbound : Leads texts lib ran_bound close_both shut
  unfolding move
  unbound = (online, refl, refl, (shut, refl, refl, refl))

  pub connected-Takes : (cfg : MySqlConfig) → Takes texts lib shut (connected lib cfg) online
  unfolding connected move
  connected-Takes cfg =
      >>-Takes texts lib shut opened online _ _
        (attempt-Takes texts lib shut opened shut init _ [] refl refl refl)
        (attempt-Takes texts lib opened online opened (connect cfg) _ (close ∷ []) refl refl
          (shut, refl, refl, refl))

  pub query-Takes :
      (t e : Bytes)
      → mem t texts ≡ true
      → Takes texts lib online (attempt lib (query t) e (close ∷ [])) online
  unfolding move
  query-Takes t e m =
      attempt-Takes texts lib online online online (query t) e (close ∷ []) (rw (move, m) refl)
        (rw (move, m) refl) (shut, refl, refl, refl)

  pub prepared-Takes :
      (t : Bytes) → mem t texts ≡ true → Takes texts lib online (prepared lib t) (ready (marks t))
  unfolding prepared move
  prepared-Takes t m =
      >>-Takes texts lib online blank (ready (marks t)) _ _
        (attempt-Takes texts lib online blank online stmt_init _ (close ∷ []) refl refl
          (shut, refl, refl, refl))
        (attempt-Takes texts lib blank (ready (marks t)) blank (prepare t) _ close_both
          (rw (move, m) refl) (rw (move, m) refl) (online, refl, refl, (shut, refl, refl, refl)))

  pub executed-Takes :
      (n : ℕ) (ps : List Bytes)
      → (length ps == n) ≡ true
      → Takes texts lib (ready n) (executed lib ps) (ran n)
  unfolding executed move
  executed-Takes n ps m =
      >>-Takes texts lib (ready n) (bound n) (ran n) _ _
        (attempt-Takes texts lib (ready n) (bound n) (ready n) (bind_param ps) _ close_both
          (rw (move, m) refl) (rw (move, m) refl) (online, refl, refl, (shut, refl, refl, refl)))
        (attempt-Takes texts lib (bound n) (ran n) (bound n) execute _ close_both refl refl
          (online, refl, refl, (shut, refl, refl, refl)))

  pub stored-Takes :
      (n : ℕ) (cleanup : List Call)
      → Leads texts lib ran_bound cleanup shut
      → Takes texts lib (ran n) (stored lib cleanup) kept
  unfolding stored all_results move
  stored-Takes n cleanup l =
      >>-Takes texts lib (ran n) ran_bound kept _ _
        (attempt-Takes texts lib (ran n) ran_bound (ran n) bind_result _ close_both refl refl
          (online, refl, refl, (shut, refl, refl, refl)))
        (>>-Takes texts lib ran_bound kept kept _ _
          (attempt-Takes texts lib ran_bound kept ran_bound store_result _ cleanup refl refl l)
          (λ h e. e))
