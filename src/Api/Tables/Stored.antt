-- ===== src/Api/Tables/Stored.antt =====
-- The table `user_friend` of the database: what the library promises of its rows.
use e2ee_windows.Common.{
  ℕ, leb, length, arith, same_iff, ◌≡◌, Bool, true, false, ◌&&◌, Option, none, some, List, [], ◌∷◌,
  Bytes, text, if◌then◌else◌,
}
use e2ee_windows.Common.Text.{same}
use e2ee_windows.Database.{Call, Calls, Fetched, Library}
use e2ee_windows.Database.Call.{query, prepare, bind_param, execute, bind_result, store_result}
use e2ee_windows.Database.Working.{Works}
use e2ee_windows.Api.Tables.{create_table, insert_friend, select_one, update_remark}

-- The rows of `user_friend`: the remark of a name and the name of a friend, which are its key.
abbrev pub Table : Type 0
Table = Bytes → Bytes → Option Bytes

-- `INSERT IGNORE`: a row that is there stays as it is.
unfoldable pub insert_ignore : Bytes → Bytes → Bytes → Table → Table
insert_ignore u f r t a b =
    if same u a && same f b then elim (t a b) [ none ↦ some r | some old ↦ some old ] else t a b

unfoldable pub update : Bytes → Bytes → Bytes → Table → Table
update r u f t a b =
    if same u a && same f b then elim (t a b) [ none ↦ none | some old ↦ some r ] else t a b

-- The text and the values of the statement that is executed next.
unfoldable pub last_text : Calls → Bytes
last_text [] = []
last_text (prepare t ∷ h) = t
last_text (c ∷ h) = last_text h

unfoldable pub is_execute : Call → Bool
is_execute execute = true
is_execute c = false

-- A row `1` where there is a row.
abbrev pub one_of : Option Bytes → List Fetched
one_of none = []
one_of (some r) = Fetched.row (some (text "1") ∷ []) ∷ []

-- Bytes between two others.
unfoldable pub between : ℕ → ℕ → Bytes → Bool
between low high [] = true
between low high (c ∷ cs) = let rest = between low high cs in leb low c && leb c high && rest

-- A name that the columns keep as it is, and that equals no other name: at most 64 printable ASCII
-- characters, and no blanks, which a comparison does not see at the end.
unfoldable pub is_name : Bytes → Bool
unfolding between
is_name s = leb (length s) 64 && between 0x21 0x7e s

-- A remark that the column keeps as it is.
unfoldable pub is_remark : Bytes → Bool
unfolding between
is_remark s = leb (length s) 128 && between 0 0x7f s

abbrev pub is_some : {A : Type 0} → Option A → Bool
is_some none = false
is_some (some a) = true

-- There are such names alone in the table.
abbrev pub IsPlain : Table → Type 0
IsPlain t = (a b : Bytes) → is_some (t a b) ≡ true → (is_name a ≡ true) × (is_name b ≡ true)

-- The server of the database works and keeps the table, which nobody else writes: no call fails,
-- but that it is left open whether the column `remark` is added anew. Only the statements that write
-- change the table, and on such names and remarks each does so as SQL defines it.
pub record HasTable (lib : Library) (table : Calls → Table) : Type 0 where
  pub works : Works lib
  pub creates : (h : Calls) → lib.succeeds (query create_table ∷ h) ≡ true
  pub others : (c : Call) (h : Calls) → is_execute c ≡ false → table (c ∷ h) ≡ table h
  pub inserts :
      (u f r : Bytes) (h : Calls)
      → last_text h ≡ insert_friend
      → IsPlain (table h)
      → is_name u ≡ true
      → is_name f ≡ true
      → is_remark r ≡ true
      → table (execute ∷ bind_param (u ∷ f ∷ r ∷ []) ∷ h) ≡ insert_ignore u f r (table h)
  pub updates :
      (r u f : Bytes) (h : Calls)
      → last_text h ≡ update_remark
      → IsPlain (table h)
      → is_name u ≡ true
      → is_name f ≡ true
      → is_remark r ≡ true
      → table (execute ∷ bind_param (r ∷ u ∷ f ∷ []) ∷ h) ≡ update r u f (table h)
  pub selects :
      (u f : Bytes) (h : Calls)
      → last_text h ≡ select_one
      → IsPlain (table h)
      → is_name u ≡ true
      → is_name f ≡ true
      → (table (execute ∷ bind_param (u ∷ f ∷ []) ∷ h) ≡ table h)
        × (lib.results (store_result ∷ bind_result ∷ execute ∷ bind_param (u ∷ f ∷ []) ∷ h)
            ≡ one_of (table h u f))

pub insert_ignore-IsPlain :
    (u f r : Bytes) (t : Table)
    → is_name u ≡ true
    → is_name f ≡ true
    → IsPlain t
    → IsPlain (insert_ignore u f r t)
unfolding insert_ignore
insert_ignore-IsPlain u f r t nu nf plain a b =
    ground (arith, same_iff u a, same_iff f b, plain a b)
