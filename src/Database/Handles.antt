-- ===== src/Database/Handles.antt =====
-- What the documentation of the library asks of its caller: a call stands where its handle is open,
-- and what is opened is closed.
use e2ee_windows.Common.{
  ℕ, ◌≡◌, ◌==◌, ◌+◌, refl, ap, ◌∙◌, Bool, true, false, Option, none, some, List, [], ◌∷◌, Bytes,
  Result, ok, err, if◌then◌else◌, length, ◌||◌,
}
use e2ee_windows.Common.Text.{same}
use e2ee_windows.Database.{
  Call, Calls, Library, Action, and_then, ◌>>=◌, ◌>>◌, issue, perform, attempt,
}
use e2ee_windows.Database.Call.{
  init, connect, query, stmt_init, prepare, bind_param, execute, bind_result, store_result, fetch,
  free_result, stmt_close, close,
}

-- What is open: nothing, a connection that is not yet made, a connection, or also a statement: new,
-- prepared with a number of parameters, with values for all of them, executed, with buffers for the
-- columns, or with a result in the client.
pub data Handles : Type 0 where
  shut opened online blank : Handles
  ready : ℕ → Handles
  bound : ℕ → Handles
  ran : ℕ → Handles
  ran_bound : Handles
  kept : Handles

abbrev pub marks : Bytes → ℕ
marks [] = 0
marks (c ∷ cs) = (if c == b'?' then 1 else 0) + marks cs

abbrev pub mem : Bytes → List Bytes → Bool
mem s [] = false
mem s (t ∷ ts) = same s t || mem s ts

-- Values for `n` parameters.
abbrev supply : ℕ → List Bytes → Bool → Option Handles
supply n ps good =
    if length ps == n then (if good then some (bound n) else some (ready n)) else none

-- The step of a call that succeeds, or does not. `none` is a misuse: a call in a wrong place, a text
-- that is not one of `texts`, or values that are not as many as the parameters.
unfoldable pub move : List Bytes → Handles → Call → Bool → Option Handles
unfolding same
move texts shut init good = if good then some opened else some shut
move texts opened (connect cfg) good = if good then some online else some opened
move texts opened close good = some shut
move texts online (query t) good = if mem t texts then some online else none
move texts online stmt_init good = if good then some blank else some online
move texts online close good = some shut
move texts blank (prepare t) good =
    if mem t texts then (if good then some (ready (marks t)) else some blank) else none
move texts blank stmt_close good = some online
move texts (ready n) (bind_param ps) good = supply n ps good
move texts (ready n) stmt_close good = some online
move texts (bound n) (bind_param ps) good = supply n ps good
move texts (bound n) execute good = if good then some (ran n) else some (bound n)
move texts (bound n) stmt_close good = some online
move texts (ran n) (bind_param ps) good = supply n ps good
move texts (ran n) bind_result good = if good then some ran_bound else some (ran n)
move texts (ran n) stmt_close good = some online
move texts ran_bound store_result good = if good then some kept else some ran_bound
move texts ran_bound free_result good = some ran_bound
move texts ran_bound stmt_close good = some online
move texts kept fetch good = some kept
move texts kept free_result good = some ran_bound
move texts kept stmt_close good = some online
move texts s c good = none

-- What is open after a history, if all its calls stand where they may.
unfoldable pub after : List Bytes → Library → Calls → Option Handles
after texts lib [] = some shut
after texts lib (c ∷ h) = elim (after texts lib h) [
  | none ↦ none
  | some s ↦ move texts s c (lib.succeeds (c ∷ h))
]

-- A part takes `s` to `t` where it goes on, and closes everything where it returns with an error.
abbrev pub goal : {A : Type 0} → Result A → Handles → Handles
goal (ok a) t = t
goal (err e) t = shut

module _ (texts : List Bytes) (lib : Library) where
  abbrev pub Takes : {A : Type 0} → Handles → Action A → Handles → Type 0
  Takes s m t =
      (h : Calls) → after texts lib h ≡ some s → after texts lib (m h).1 ≡ some (goal (m h).0 t)

  pub and_then_lem :
      {A B : Type 0} (s t u : Handles) (r : Result A × Calls) (f : A → Action B)
      → after texts lib r.1 ≡ some (goal r.0 t)
      → ((a : A) → Takes t (f a) u)
      → after texts lib (and_then r f).1 ≡ some (goal (and_then r f).0 u)
  and_then_lem s t u (ok a, h) f e k = k a h e
  and_then_lem s t u (err e', h) f e k = e

  pub >>=-Takes :
      {A B : Type 0} (s t u : Handles) (m : Action A) (f : A → Action B)
      → Takes s m t
      → ((a : A) → Takes t (f a) u)
      → Takes s (m >>= f) u
  >>=-Takes s t u m f p q h e = and_then_lem s t u (m h) f (p h e) q

  pub >>-Takes :
      {A B : Type 0} (s t u : Handles) (m : Action A) (n : Action B)
      → Takes s m t
      → Takes t n u
      → Takes s (m >> n) u
  >>-Takes s t u m n p q h e = and_then_lem s t u (m h) (λ _. n) (p h e) (λ _. q)

  -- A call that moves a state `s`, known to be there, whether it succeeds or not.
  pub after-call :
      (s : Handles) (c : Call) (h : Calls)
      → after texts lib h ≡ some s
      → after texts lib (c ∷ h) ≡ move texts s c (lib.succeeds (c ∷ h))
  unfolding after
  after-call s c h e = rw (after, e) refl

  -- Where calls lead whose results do not matter.
  abbrev pub Leads : Handles → List Call → Handles → Type 0
  Leads s [] t = s ≡ t
  Leads s (c ∷ cs) t =
      (u : Handles) × (move texts s c true ≡ some u)
      × (move texts s c false ≡ some u)
      × Leads u cs t

  move-eq :
      (s u : Handles) (c : Call) (b : Bool)
      → move texts s c true ≡ some u
      → move texts s c false ≡ some u
      → move texts s c b ≡ some u
  move-eq s u c true p q = p
  move-eq s u c false p q = q

  pub issue-Leads :
      (s t : Handles) (cs : List Call) (h : Calls)
      → Leads s cs t
      → after texts lib h ≡ some s
      → after texts lib (issue cs h) ≡ some t
  unfolding issue
  issue-Leads s t [] h l e = e ∙ ap some l
  issue-Leads s t (c ∷ cs) h (u, p, q, l) e =
      issue-Leads u t cs (c ∷ h) l (after-call s c h e ∙ move-eq s u c (lib.succeeds (c ∷ h)) p q)

  pub perform-Takes : (s t : Handles) (cs : List Call) → Leads s cs t → Takes s (perform cs) t
  unfolding perform
  perform-Takes s t cs l h e = issue-Leads s t cs h l e

  attempt-branch :
      (s t u : Handles) (c : Call) (e : Bytes) (cleanup : List Call) (h : Calls) (good : Bool)
      → lib.succeeds (c ∷ h) ≡ good
      → move texts s c true ≡ some t
      → move texts s c false ≡ some u
      → Leads u cleanup shut
      → after texts lib h ≡ some s
      → (let r = attempt lib c e cleanup h in after texts lib r.1 ≡ some (goal r.0 t))
  unfolding attempt
  attempt-branch s t u c e cleanup h true g p q l k = rw (attempt, g) (after-call s c h k ∙ rw g p)
  attempt-branch s t u c e cleanup h false g p q l k =
      rw (attempt, g) (issue-Leads u shut cleanup (c ∷ h) l (after-call s c h k ∙ rw g q))

  pub attempt-Takes :
      (s t u : Handles) (c : Call) (e : Bytes) (cleanup : List Call)
      → move texts s c true ≡ some t
      → move texts s c false ≡ some u
      → Leads u cleanup shut
      → Takes s (attempt lib c e cleanup) t
  attempt-Takes s t u c e cleanup p q l h =
      attempt-branch s t u c e cleanup h (lib.succeeds (c ∷ h)) refl p q l
