-- ===== src/Ui/Payload/Reading.antt =====
-- BackendAdapter.cpp: what is shown of a message that was sent.
use e2ee_windows.Common.{
  ◌≡◌, ◌∙◌, refl, true, false, List, [], ◌∷◌, ◌++◌, Bytes, text, if◌then◌else◌, drop, append_assoc,
}
use e2ee_windows.Common.Text.{same}
use e2ee_windows.Ui.{Qt, IsQt, IsOneLine}
use e2ee_windows.Ui.Payload.{
  starts_with, conv_header, text_payload, file_payload, conv_line, body_shown, parse_payload,
}

module _ (q : Qt) (d : IsQt q) (user : q.QString) (named : q.empty user ≡ false)
    (trim : q.trimmed user ≡ user) (line : IsOneLine (q.to_utf8 user)) where
  header_line :
      (rest : Bytes) → conv_header q user ++ rest ≡ (text "CONV:" ++ q.to_utf8 user) ++ 10 ∷ rest
  unfolding conv_header
  header_line rest =
      rw (conv_header, named) (append_assoc (text "CONV:" ++ q.to_utf8 user) (10 ∷ []) rest)

  header_split :
      (rest : Bytes)
      → q.split ((text "CONV:" ++ q.to_utf8 user) ++ 10 ∷ rest)
        ≡ (text "CONV:" ++ q.to_utf8 user) ∷ q.split rest
  header_split rest =
      d.split_first (text "CONV:" ++ q.to_utf8 user) rest
        (refl, (refl, (refl, (refl, (refl, line)))))

  header_read : (ls : List Bytes) → conv_line q ((text "CONV:" ++ q.to_utf8 user) ∷ ls) ≡ (user, ls)
  unfolding conv_line same
  header_read ls = rw (d.from_utf8-to_utf8 user, trim) refl

  -- A payload with a header names the user, and the rest of it is shown as it is.
  parse_payload-header :
      (rest : Bytes) → parse_payload q (conv_header q user ++ rest) ≡ body_shown q user rest
  unfolding parse_payload
  parse_payload-header rest =
      rw
        (
          parse_payload,
          header_line rest,
          header_split rest,
          header_read (q.split rest),
          named,
          d.joined-split rest,
        )
        refl

  -- What is shown of a text: the user who sent it, and the text as it was written; but a text that
  -- begins with `FILE:` is shown as a file.
  pub parse_payload-text_payload :
      (message : q.QString)
      → parse_payload q (text_payload q user message) ≡ (
          if starts_with (q.to_utf8 message) (text "FILE:")
          then record {
            conv_id = user;
            text =
                q.arg
                  (q.literal (text "收到文件：%1"))
                  (q.from_utf8 (q.trimmed_bytes (drop 5 (q.to_utf8 message))));
            is_file = true;
          }
          else record { conv_id = user; text = message; is_file = false })
  unfolding text_payload body_shown
  parse_payload-text_payload message =
      parse_payload-header (q.to_utf8 message) ∙ rw (body_shown, d.from_utf8-to_utf8 message) refl

  -- What is shown of a file: its name and, in the lines behind it, all that is in the file.
  pub parse_payload-file_payload :
      (name : q.QString) (content : Bytes)
      → parse_payload q (file_payload q user name content) ≡ record {
        conv_id = user;
        text =
            q.arg
              (q.literal (text "收到文件：%1"))
              (q.from_utf8 (q.trimmed_bytes (q.to_utf8 name ++ 10 ∷ content)));
        is_file = true;
      }
  unfolding file_payload body_shown same
  parse_payload-file_payload name content =
      parse_payload-header ((text "FILE:" ++ q.to_utf8 name) ++ 10 ∷ content) ∙ refl
