-- ===== src/Database.antt =====
-- The C library of MySQL, as server/src/auth_provider.cpp and server/src/api_service.cpp call it where
-- they are built with MI_E2EE_ENABLE_MYSQL, and the groups of calls that their functions share.
--
-- The library is a parameter: what a call returns depends on all the calls before it. No history
-- of calls comes twice in a run, so this covers a library that chooses freely.
-- A function of the program has one connection and at most one statement at a time, so that the
-- handles are left out of the calls.
pub mod Handles
pub mod Parts
pub mod Working
use e2ee_windows.Common.{
  ℕ, zero, suc, Bool, true, false, Option, none, some, List, [], ◌∷◌, Bytes, text, Result, ok, err,
  if◌then◌else◌,
}
use e2ee_windows.Config.{MySqlConfig}

-- The functions of the library, with the arguments that say what is asked of the server. The
-- parameters of a statement are strings; `connect` has the password that `ScrambledString::get`
-- returns.
pub data Call : Type 0 where
  init : Call
  connect : MySqlConfig → Call
  query : Bytes → Call
  stmt_init : Call
  prepare : Bytes → Call
  bind_param : List Bytes → Call
  execute : Call
  bind_result : Call
  store_result : Call
  fetch : Call
  free_result : Call
  stmt_close : Call
  close : Call

-- The calls so far, the last one first.
abbrev pub Calls : Type 0
Calls = List Call

-- What a fetch finds: a row, whose columns are null or strings, or an error. The program takes
-- `MYSQL_DATA_TRUNCATED` as a row.
pub data Fetched : Type 0 where
  row : List (Option Bytes) → Fetched
  failed : Fetched

-- Whether the last call of a history succeeds. After a `store_result` the client has the whole
-- result, and `results` is what the fetches find, one after the other; behind its end there is
-- `MYSQL_NO_DATA`.
pub record Library : Type 0 where
  pub succeeds : Calls → Bool
  pub results : Calls → List Fetched

-- A column of a row; it is null where the row has fewer.
unfoldable pub column : ℕ → List (Option Bytes) → Option Bytes
column i [] = none
column zero (c ∷ cs) = c
column (suc i) (c ∷ cs) = column i cs

-- A part of a function of the program: it goes on with a value, or has returned with an error.
abbrev pub Action : Type 0 → Type 0
Action A = Calls → Result A × Calls

module _ {A B : Type 0} where
  abbrev pub and_then : Result A × Calls → (A → Action B) → Result B × Calls
  and_then (ok a, h) f = f a h
  and_then (err e, h) f = (err e, h)

  infixl 5 ◌>>=◌ ◌>>◌
  abbrev pub ◌>>=◌ : Action A → (A → Action B) → Action B
  ◌>>=◌ m f h = and_then (m h) f

  abbrev pub ◌>>◌ : Action A → Action B → Action B
  ◌>>◌ m n h = and_then (m h) (λ _. n)

abbrev pub returned : {A : Type 0} → A → Action A
returned a h = (ok a, h)

-- Calls whose results are not looked at.
unfoldable pub issue : List Call → Calls → Calls
issue [] h = h
issue (c ∷ cs) h = issue cs (c ∷ h)

unfoldable pub perform : List Call → Action (Unit {0})
perform cs h = (ok tt, issue cs h)

-- A call, and the return with `error` after the calls of `cleanup` if it fails.
unfoldable pub attempt : Library → Call → Bytes → List Call → Action (Unit {0})
attempt lib c error cleanup h =
    if lib.succeeds (c ∷ h) then (ok tt, c ∷ h) else (err error, issue cleanup (c ∷ h))

abbrev pub close_both : List Call
close_both = stmt_close ∷ close ∷ []

abbrev pub free_both : List Call
free_both = free_result ∷ stmt_close ∷ close ∷ []

unfoldable pub connected : Library → MySqlConfig → Action (Unit {0})
unfolding attempt
connected lib cfg = do
  attempt lib init (text "mysql_init failed") []
  attempt lib (connect cfg) (text "mysql_connect failed") (close ∷ [])

unfoldable pub prepared : Library → Bytes → Action (Unit {0})
unfolding attempt
prepared lib sql = do
  attempt lib stmt_init (text "mysql_stmt_init failed") (close ∷ [])
  attempt lib (prepare sql) (text "mysql_stmt_prepare failed") close_both

unfoldable pub executed : Library → List Bytes → Action (Unit {0})
unfolding attempt
executed lib params = do
  attempt lib (bind_param params) (text "mysql_stmt_bind_param failed") close_both
  attempt lib execute (text "mysql_stmt_execute failed") close_both

unfoldable pub all_results : Library → Action (List Fetched)
all_results lib h = (ok (lib.results h), h)

-- `cleanup` is what is called where the result cannot be stored.
unfoldable pub stored : Library → List Call → Action (List Fetched)
unfolding attempt all_results
stored lib cleanup = do
  attempt lib bind_result (text "mysql_stmt_bind_result failed") close_both
  attempt lib store_result (text "mysql_stmt_store_result failed") cleanup
  all_results lib
