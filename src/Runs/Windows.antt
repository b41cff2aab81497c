-- ===== src/Runs/Windows.antt =====
-- Runs of what stands between the client and its windows, with strings that are their bytes.
use e2ee_windows.Common.{
  ℕ, ◌+◌, ◌<◌, ◌≡◌, ◌∙◌, ap, refl, Bool, true, false, none, some, List, [], ◌∷◌, ◌++◌, Bytes, All,
  text, arith, if◌then◌else◌, ◌==◌, length, ◌⊎◌, is_empty,
}
use e2ee_windows.Common.Text.{same, same→eq}
use e2ee_windows.Ui.{Qt, IsQt, joined, IsOneLine}
use e2ee_windows.Ui.Payload.{starts_with, parse_payload}
use e2ee_windows.Ui.Adapter.{Core, BackendAdapter, init, login, send_text}
use e2ee_windows.Ui.Adapter.Talk.{Step, Reach, send_text-shown}
use e2ee_windows.Ui.Conversation.{new_model, MessageModel, append_text_message}
use e2ee_windows.Ui.Conversation.Rows.{dividers, BelongsTo, Reach-announced}
use e2ee_windows.Ui.Conversation.Rows

-- The first line, and the others.
split_line : Bytes → Bytes × List Bytes
split_line [] = ([], [])
split_line (b ∷ bs) = let (l, ls) = split_line bs in if b == 10 then ([], l ∷ ls) else (b ∷ l, ls)

split_lines : Bytes → List Bytes
unfolding split_line
split_lines bs = let (l, ls) = split_line bs in l ∷ ls

abbrev plain_qt : Qt
plain_qt = record {
  QString = Bytes;
  QDateTime = ℕ;
  equal = same;
  empty = is_empty;
  trimmed = λ s. s;
  concat = λ s t. s ++ t;
  arg = λ s t. s ++ t;
  literal = λ s. s;
  to_utf8 = λ s. s;
  from_utf8 = λ s. s;
  split = split_lines;
  trimmed_bytes = λ s. s;
  exists = λ s. true;
  is_absolute = λ s. true;
  file_name = λ s. s;
  read_file = λ s. none;
  application_dir = [];
  seconds = λ n. n;
  date_text = λ n. [];
}

split_lines-append :
    (l rest : Bytes) → IsOneLine l → split_lines (l ++ 10 ∷ rest) ≡ l ∷ split_lines rest
unfolding split_lines
split_lines-append [] rest h = refl
split_lines-append (b ∷ l) rest h =
    let ih = split_lines-append l rest h.1 in ground (arith, ih, h.0)

joined_first : (b : ℕ) (l : Bytes) (ls : List Bytes) → joined ((b ∷ l) ∷ ls) ≡ b ∷ joined (l ∷ ls)
unfolding joined
joined_first b l [] = refl
joined_first b l (m ∷ ls) = refl

joined_step :
    (t : Bool) (b : ℕ) (l bs : Bytes) (ls : List Bytes)
    → (t ≡ true → 10 ≡ b)
    → joined (l ∷ ls) ≡ bs
    → (let p : Bytes × List Bytes = (if t then ([], l ∷ ls) else (b ∷ l, ls)) in
        joined (p.0 ∷ p.1) ≡ b ∷ bs)
unfolding joined
joined_step true b l bs ls e h =
    ap (λ (n : ℕ). n ∷ joined (l ∷ ls)) (e refl) ∙ ap (λ (r : Bytes). b ∷ r) h
joined_step false b l bs ls e h = joined_first b l ls ∙ ap (λ (r : Bytes). b ∷ r) h

joined-split_lines : (bs : Bytes) → joined (split_lines bs) ≡ bs
unfolding split_lines joined
joined-split_lines [] = refl
joined-split_lines (b ∷ bs) =
    joined_step (b == 10) b (split_line bs).0 bs (split_line bs).1 (λ h. ground arith)
      (joined-split_lines bs)

plain_IsQt : IsQt plain_qt
plain_IsQt = record {
  from_utf8-to_utf8 = λ s. refl;
  trimmed-trimmed = λ s. refl;
  split_first = split_lines-append;
  equal→eq = same→eq;
  joined-split = joined-split_lines;
}

-- A client that keeps what it sends.
abbrev recorder : Core
recorder = record {
  State = List (Bytes × Bytes);
  init = λ path s. (s, true);
  login = λ user password s. (s, true);
  list_friends = λ s. (s, []);
  add_friend = λ user remark s. (s, true);
  set_friend_remark = λ user remark s. (s, true);
  send_offline = λ to bytes s. ((to, bytes) ∷ s, true);
  pull_offline = λ s. ([], []);
}

abbrev first : BackendAdapter plain_qt recorder
first = record {
  core = [];
  inited = false;
  logged_in = false;
  current_user = [];
  config_path = text "client_config.ini";
}

abbrev entered : BackendAdapter plain_qt recorder
entered = (login plain_qt recorder first (text "ann") (text "pw")).0

entered_state :
    (entered.logged_in ≡ true) × (entered.inited ≡ true) × (entered.current_user ≡ text "ann")
unfolding login init
entered_state = (refl, refl, refl)

one_line : IsOneLine (text "ann")
one_line = (refl, (refl, (refl, tt)))

said_plainly : starts_with (text "hello") (text "FILE:") ≡ false
unfolding same
said_plainly = refl

send_text-shown_example :
    (bytes : Bytes) × (parse_payload plain_qt bytes
      ≡ record { conv_id = entered.current_user; text = text "hello"; is_file = false })
    × (let (core', good) = recorder.send_offline (text "ben") bytes entered.core in
        send_text plain_qt recorder entered (text "ben") (text "hello")
        ≡ (record entered { core = core' }, if good then none else some (text "后端发送失败")))
send_text-shown_example =
    send_text-shown plain_qt recorder plain_IsQt first entered (text "ben") (text "hello") refl
      (Reach.next Reach.here (Step.logs_in first (text "ann") (text "pw"))) entered_state.0
      entered_state.1 (rw (entered_state.2) one_line) refl said_plainly

abbrev two_messages : MessageModel plain_qt
two_messages =
    append_text_message plain_qt
      (append_text_message plain_qt (new_model plain_qt) (text "ben") true (text "hi") 5)
      (text "ben") false (text "ho") 9

Reach-announced_example :
    All (BelongsTo plain_qt two_messages.current_conv_id) two_messages.items
    × (length two_messages.items ≡ two_messages.announced + dividers plain_qt two_messages.items)
    × ((two_messages.items ≡ []) ⊎ (two_messages.announced < length two_messages.items))
Reach-announced_example = Reach-announced plain_qt plain_IsQt two_messages (
    Rows.Reach.next
      (Rows.Reach.next Rows.Reach.new
        (Rows.Step.texts (new_model plain_qt) (text "ben") true (text "hi") 5))
      (Rows.Step.texts
        (append_text_message plain_qt (new_model plain_qt) (text "ben") true (text "hi") 5)
        (text "ben") false (text "ho") 9))
