-- ===== src/Api/Tables/Inserting.antt =====
-- api_service.cpp, `AddFriend` on a table: its calls of the library of the database.
use e2ee_windows.Common.{◌≡◌, ◌∙◌, refl, Bool, true, false, ◌&&◌, some, [], ◌∷◌, Bytes}
use e2ee_windows.Config.{MySqlConfig}
use e2ee_windows.Database.{Calls, Library, Action, ◌>>=◌, close_both, perform}
use e2ee_windows.Database.Call.{bind_param, execute}
use e2ee_windows.Database.Handles.{
  Handles, shut, online, ready, bound, ran, move, after, goal, Takes, Leads, after-call,
  perform-Takes, >>-Takes,
}
use e2ee_windows.Database.Parts.{prepared-Takes}
use e2ee_windows.Api.Tables.{insert_friend, bind_and_exec, inserted, insert_friends}
use e2ee_windows.Api.Tables.Listing.{texts, listed, opened_table-Takes}

module _ (lib : Library) (cfg : MySqlConfig) where
  -- A statement with three parameters, prepared, with values or executed.
  abbrev IsLive : Handles → Type 0
  IsLive (ready n) = n ≡ 3
  IsLive (bound n) = n ≡ 3
  IsLive (ran n) = n ≡ 3
  IsLive s = ⊥

  bind_well :
      (s : Handles) (u f r : Bytes)
      → IsLive s
      → (move texts s (bind_param (u ∷ f ∷ r ∷ [])) true ≡ some (bound 3))
        × (move texts s (bind_param (u ∷ f ∷ r ∷ [])) false ≡ some (ready 3))
  unfolding move
  bind_well (ready n) u f r e = rw e (refl, refl)
  bind_well (bound n) u f r e = rw e (refl, refl)
  bind_well (ran n) u f r e = rw e (refl, refl)
  bind_well s u f r e = absurd e

  closed_live : (s : Handles) → IsLive s → Leads texts lib s close_both shut
  unfolding move
  closed_live (ready n) e = (online, refl, refl, (shut, refl, refl, refl))
  closed_live (bound n) e = (online, refl, refl, (shut, refl, refl, refl))
  closed_live (ran n) e = (online, refl, refl, (shut, refl, refl, refl))
  closed_live s e = absurd e

  bind_cases :
      (s : Handles) (u f r : Bytes) (k : Bool → Action (Unit {0})) (h : Calls) (good well : Bool)
      → lib.succeeds (bind_param (u ∷ f ∷ r ∷ []) ∷ h) ≡ good
      → lib.succeeds (execute ∷ bind_param (u ∷ f ∷ r ∷ []) ∷ h) ≡ well
      → IsLive s
      → ((b : Bool) (t : Handles) → IsLive t → Takes texts lib t (k b) shut)
      → after texts lib h ≡ some s
      → (let r' = (bind_and_exec lib u f r >>= k) h in after texts lib r'.1 ≡ some (goal r'.0 shut))
  unfolding bind_and_exec move
  bind_cases s u f r k h false well g w live rest e =
      rw (bind_and_exec, g)
        (rest false (ready 3) refl (bind_param (u ∷ f ∷ r ∷ []) ∷ h) (
          after-call texts lib s (bind_param (u ∷ f ∷ r ∷ [])) h e
          ∙ rw g (bind_well s u f r live).1))
  bind_cases s u f r k h true false g w live rest e =
      let now : after texts lib (bind_param (u ∷ f ∷ r ∷ []) ∷ h) ≡ some (bound 3) =
        after-call texts lib s (bind_param (u ∷ f ∷ r ∷ [])) h e
        ∙ rw g (bind_well s u f r live).0 in
      rw (bind_and_exec, g, w)
        (rest false (bound 3) refl (execute ∷ bind_param (u ∷ f ∷ r ∷ []) ∷ h) (
          after-call texts lib (bound 3) execute (bind_param (u ∷ f ∷ r ∷ []) ∷ h) now ∙ rw w refl))
  bind_cases s u f r k h true true g w live rest e =
      let now : after texts lib (bind_param (u ∷ f ∷ r ∷ []) ∷ h) ≡ some (bound 3) =
        after-call texts lib s (bind_param (u ∷ f ∷ r ∷ [])) h e
        ∙ rw g (bind_well s u f r live).0 in
      rw (bind_and_exec, g, w)
        (rest true (ran 3) refl (execute ∷ bind_param (u ∷ f ∷ r ∷ []) ∷ h) (
          after-call texts lib (bound 3) execute (bind_param (u ∷ f ∷ r ∷ []) ∷ h) now ∙ rw w refl))

  bind_then :
      (s : Handles) (u f r : Bytes) (k : Bool → Action (Unit {0}))
      → IsLive s
      → ((b : Bool) (t : Handles) → IsLive t → Takes texts lib t (k b) shut)
      → Takes texts lib s (bind_and_exec lib u f r >>= k) shut
  bind_then s u f r k live rest h =
      bind_cases s u f r k h (lib.succeeds (bind_param (u ∷ f ∷ r ∷ []) ∷ h))
        (lib.succeeds (execute ∷ bind_param (u ∷ f ∷ r ∷ []) ∷ h)) refl refl live rest

  pub inserted-Takes : (b : Bool) → Takes texts lib shut (inserted b) shut
  inserted-Takes true h e = e
  inserted-Takes false h e = e

  pub insert_friends-Takes :
      (user friend remark : Bytes)
      → Takes texts lib shut (insert_friends lib cfg user friend remark) shut
  unfolding insert_friends
  insert_friends-Takes user friend remark =
      >>-Takes texts lib shut online shut _ _ (opened_table-Takes lib cfg) (
        >>-Takes texts lib online (ready 3) shut _ _
          (prepared-Takes texts lib insert_friend listed.3)
          (bind_then (ready 3) user friend remark _ refl (λ ok1 s live.
            bind_then s friend user [] _ live (λ ok2 t live'.
              >>-Takes texts lib t shut shut (perform close_both) (inserted (ok1 && ok2))
                (perform-Takes texts lib t shut close_both (closed_live t live'))
                (inserted-Takes (ok1 && ok2))))))
