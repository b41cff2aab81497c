-- ===== src/Ui.antt =====
-- client/ui: what stands between the client and its windows. `BackendAdapter` is Ui/Adapter, with the
-- form of its messages in Ui/Payload, and
-- `MessageModel` is Ui/Conversation (both in client/ui/qq_main_list).
--
-- What the program uses of Qt is a parameter, with the files that it looks at while it runs: these
-- stay as they are. A `QByteArray` is its bytes.
pub mod Payload
pub mod Adapter
pub mod Conversation
use e2ee_windows.Common.{ℕ, ◌≡◌, Bool, Option, List, [], ◌∷◌, ◌++◌, Bytes, All, ◌==◌, true, false}

pub record Qt : Type 1 where
  pub QString : Type 0
  pub QDateTime : Type 0
  -- `operator==`, `isEmpty`, `trimmed`, `operator+` and `arg` with one argument.
  pub equal : QString → QString → Bool
  pub empty : QString → Bool
  pub trimmed : QString → QString
  pub concat : QString → QString → QString
  pub arg : QString → QString → QString
  -- `QStringLiteral`, by its code points.
  pub literal : Bytes → QString
  pub to_utf8 : QString → Bytes
  pub from_utf8 : Bytes → QString
  -- `QByteArray::split('\n')` and `QByteArray::trimmed`.
  pub split : Bytes → List Bytes
  pub trimmed_bytes : Bytes → Bytes
  -- `QFile::exists`, `QFileInfo::isAbsolute`, `QFileInfo::fileName`, the content of a file that can
  -- be opened, and `applicationDirPath`.
  pub exists : QString → Bool
  pub is_absolute : QString → Bool
  pub file_name : QString → QString
  pub read_file : QString → Option Bytes
  pub application_dir : QString
  -- The seconds of a time, the difference of which is `secsTo`, and `toString("yyyy/MM/dd HH:mm")`.
  pub seconds : QDateTime → ℕ
  pub date_text : QDateTime → QString

-- The lines with a newline between any two.
unfoldable pub joined : List Bytes → Bytes
joined [] = []
joined (l ∷ []) = l
joined (l ∷ m ∷ ls) = l ++ 10 ∷ joined (m ∷ ls)

abbrev pub IsOneLine : Bytes → Type 0
IsOneLine l = All (λ b. (b == 10) ≡ false) l

-- What the documentation says of the functions on text.
pub record IsQt (q : Qt) : Type 0 where
  pub from_utf8-to_utf8 : (s : q.QString) → q.from_utf8 (q.to_utf8 s) ≡ s
  pub trimmed-trimmed : (s : q.QString) → q.trimmed (q.trimmed s) ≡ q.trimmed s
  pub split_first : (l rest : Bytes) → IsOneLine l → q.split (l ++ 10 ∷ rest) ≡ l ∷ q.split rest
  pub equal→eq : (s t : q.QString) → q.equal s t ≡ true → s ≡ t
  pub joined-split : (bs : Bytes) → joined (q.split bs) ≡ bs
