-- ===== src/Ui/Adapter/Talk.antt =====
-- BackendAdapter.cpp: histories of its operations, what it sends, and what it refuses.
use e2ee_windows.Common.{
  arith, ◌≡◌, ◌∙◌, refl, Bool, true, false, Option, none, some, [], Bytes, text, if◌then◌else◌,
}
use e2ee_windows.Ui.{Qt, IsQt, IsOneLine}
use e2ee_windows.Ui.Payload.{starts_with, text_payload, parse_payload}
use e2ee_windows.Ui.Payload.Reading.{parse_payload-text_payload}
use e2ee_windows.Ui.Adapter.{
  Core, BackendAdapter, init, ensure_inited, ask, login, when_logged_in, listed, list_friends,
  add_friend, set_friend_remark, send_text, send_file, polled, poll_offline,
}
use e2ee_windows.Ui.Adapter.Guards.{
  IsNamed, SameUser, SameUser-IsNamed, init-SameUser, ensure_inited-SameUser,
  when_logged_in-SameUser, send_content-SameUser, login-IsNamed, either-SameUser,
}

module _ (q : Qt) (c : Core) where
  -- One operation of a window or of the timer.
  pub data Step : BackendAdapter q c → BackendAdapter q c → Type 0 where
    inits : (a : BackendAdapter q c) (path : q.QString) → Step a (init q c a path).0
    logs_in :
        (a : BackendAdapter q c) (account password : q.QString)
        → Step a (login q c a account password).0
    lists : (a : BackendAdapter q c) → Step a (list_friends q c a).0
    adds :
        (a : BackendAdapter q c) (account remark : q.QString)
        → Step a (add_friend q c a account remark).0
    remarks :
        (a : BackendAdapter q c) (account remark : q.QString)
        → Step a (set_friend_remark q c a account remark).0
    sends : (a : BackendAdapter q c) (target s : q.QString) → Step a (send_text q c a target s).0
    sends_file :
        (a : BackendAdapter q c) (target path : q.QString) → Step a (send_file q c a target path).0
    polls : (a : BackendAdapter q c) → Step a (poll_offline q c a).0

  pub data Reach (start : BackendAdapter q c) : BackendAdapter q c → Type 0 where
    here : Reach start start
    next : {a b : BackendAdapter q c} → Reach start a → Step a b → Reach start b

  checked-SameUser :
      (a : BackendAdapter q c) (b : Bool) (e : q.QString)
      (act : BackendAdapter q c → BackendAdapter q c × Option q.QString)
      → ((x : BackendAdapter q c) → SameUser q c (act x).0 x)
      → SameUser q c (if b then (a, some e) else when_logged_in q c a act).0 a
  checked-SameUser a b e act k =
      either-SameUser q c a b (a, some e) (when_logged_in q c a act) (refl, refl)
        (when_logged_in-SameUser q c a act k)

  listed-SameUser :
      (a : BackendAdapter q c) (r : BackendAdapter q c × Option q.QString)
      → SameUser q c r.0 a
      → SameUser q c (listed q c r).0 a
  unfolding listed
  listed-SameUser a (b, none) s = s
  listed-SameUser a (b, some e) s = s

  polled-SameUser :
      (a : BackendAdapter q c) (r : BackendAdapter q c × Option q.QString)
      → SameUser q c r.0 a
      → SameUser q c (polled q c r).0 a
  unfolding polled
  polled-SameUser a (b, none) s = s
  polled-SameUser a (b, some e) s = s

  lists-SameUser : (a : BackendAdapter q c) → SameUser q c (list_friends q c a).0 a
  unfolding list_friends
  lists-SameUser a = picked a.logged_in
    where
      picked :
          (b : Bool)
          → SameUser q c
              (if b
                then listed q c (ensure_inited q c a)
                else (a, some (q.literal (text "尚未登录")), [])).0
              a
      picked true = listed-SameUser a (ensure_inited q c a) (ensure_inited-SameUser q c a)
      picked false = (refl, refl)

  polls-SameUser : (a : BackendAdapter q c) → SameUser q c (poll_offline q c a).0 a
  unfolding poll_offline
  polls-SameUser a = picked a.logged_in
    where
      picked :
          (b : Bool) → SameUser q c (if b then polled q c (ensure_inited q c a) else (a, [])).0 a
      picked true = polled-SameUser a (ensure_inited q c a) (ensure_inited-SameUser q c a)
      picked false = (refl, refl)

  Step-IsNamed : {a b : BackendAdapter q c} → IsQt q → Step a b → IsNamed q c a → IsNamed q c b
  unfolding add_friend set_friend_remark send_text send_file ask
  Step-IsNamed d (inits a path) v = SameUser-IsNamed q c _ a (init-SameUser q c a path) v
  Step-IsNamed d (logs_in a account password) v = login-IsNamed q c d a account password v
  Step-IsNamed d (lists a) v = SameUser-IsNamed q c _ a (lists-SameUser a) v
  Step-IsNamed d (adds a account remark) v =
      SameUser-IsNamed q c _ a (checked-SameUser a _ _ _ (λ x. (refl, refl))) v
  Step-IsNamed d (remarks a account remark) v =
      SameUser-IsNamed q c _ a (checked-SameUser a _ _ _ (λ x. (refl, refl))) v
  Step-IsNamed d (sends a target s) v =
      SameUser-IsNamed q c _ a (checked-SameUser a _ _ _ (λ x. (refl, refl))) v
  Step-IsNamed d (sends_file a target path) v =
      SameUser-IsNamed q c _ a
        (when_logged_in-SameUser q c a _ (λ x. send_content-SameUser q c x target path _)) v
  Step-IsNamed d (polls a) v = SameUser-IsNamed q c _ a (polls-SameUser a) v

  Reach-IsNamed :
      {start a : BackendAdapter q c} → IsQt q → IsNamed q c start → Reach start a → IsNamed q c a
  Reach-IsNamed d v here = v
  Reach-IsNamed d v (next r s) = Step-IsNamed d s (Reach-IsNamed d v r)

  fresh-IsNamed : (a : BackendAdapter q c) → a.logged_in ≡ false → IsNamed q c a
  fresh-IsNamed a e = record { named = λ t. cc; trim = λ t. cc }

  -- After any operations on an adapter that nobody was logged in at, and on a client that was set
  -- up: a text that is not blank and does not begin with `FILE:` is handed to the client with bytes
  -- from which the adapter that pulls them shows the user who is logged in, as the sender, and the
  -- text as it was written, where the user's name is one line. The answer is the client's.
  pub send_text-shown :
      (d : IsQt q) (start a : BackendAdapter q c) (target message : q.QString)
      → start.logged_in ≡ false
      → Reach start a
      → a.logged_in ≡ true
      → a.inited ≡ true
      → IsOneLine (q.to_utf8 a.current_user)
      → q.empty (q.trimmed message) ≡ false
      → starts_with (q.to_utf8 message) (text "FILE:") ≡ false
      → (bytes : Bytes) × (parse_payload q bytes
          ≡ record { conv_id = a.current_user; text = message; is_file = false })
        × (let (core', good) = c.send_offline (q.to_utf8 target) bytes a.core in
            send_text q c a target message
            ≡ (record a { core = core' }, if good then none else some (q.literal (text "后端发送失败"))))
  unfolding send_text when_logged_in ensure_inited ask
  send_text-shown d start a target message out r there ready line full plain =
      let v = Reach-IsNamed d (fresh-IsNamed start out) r in
      (
        text_payload q a.current_user message,
        parse_payload-text_payload q d a.current_user (v.named there) (v.trim there) line message
            ∙ rw plain refl,
        ground arith,
      )
