-- ===== src/Ui/Payload.antt =====
-- client/ui/qq_main_list/BackendAdapter.cpp: the bytes of a message, which say who sends it and
-- whether it is a file.
pub mod Reading
use e2ee_windows.Common.{
  Bool, true, false, List, [], ◌∷◌, ◌++◌, Bytes, text, same, if◌then◌else◌, length, take, drop,
}
use e2ee_windows.Ui.{Qt, joined}

-- `startsWith`
abbrev pub starts_with : Bytes → Bytes → Bool
starts_with bs p = same (take (length p) bs) p

module _ (q : Qt) where
  open q use {QString, empty, trimmed, arg, literal, to_utf8, from_utf8, split, trimmed_bytes}

  -- The first line of a payload, with the user who sends it.
  unfoldable pub conv_header : QString → Bytes
  conv_header user = if empty user then [] else (text "CONV:" ++ to_utf8 user) ++ 10 ∷ []

  unfoldable pub text_payload : QString → QString → Bytes
  unfolding conv_header
  text_payload user message = conv_header user ++ to_utf8 message

  unfoldable pub file_payload : QString → QString → Bytes → Bytes
  unfolding conv_header
  file_payload user name content =
      conv_header user ++ ((text "FILE:" ++ to_utf8 name) ++ 10 ∷ content)

  pub record ParsedOffline : Type 0 where
    pub conv_id : QString
    pub text : QString
    pub is_file : Bool

  -- The lines of the body, and the name in the first line where it has one.
  unfoldable pub conv_line : List Bytes → QString × List Bytes
  conv_line [] = (literal [], [])
  conv_line (l ∷ ls) =
      if starts_with l (text "CONV:")
      then (trimmed (from_utf8 (drop 5 l)), ls)
      else (literal [], l ∷ ls)

  unfoldable pub body_shown : QString → Bytes → ParsedOffline
  body_shown conv body =
      if starts_with body (text "FILE:")
      then record {
        conv_id = conv;
        text = arg (literal (text "收到文件：%1")) (from_utf8 (trimmed_bytes (drop 5 body)));
        is_file = true;
      }
      else record { conv_id = conv; text = from_utf8 body; is_file = false }

  unfoldable pub parse_payload : Bytes → ParsedOffline
  parse_payload payload =
      let (conv, body) = conv_line (split payload) in
      body_shown (if empty conv then literal (text "system") else conv) (joined body)
