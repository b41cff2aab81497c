-- ===== src/Ui/Adapter/Guards.antt =====
-- BackendAdapter.cpp: who is logged in.
use e2ee_windows.Common.{
  ◌≡◌, ◌∙◌, refl, Bool, true, false, Option, none, some, Bytes, arith, if◌then◌else◌, Bool-cases,
  inl, inr,
}
use e2ee_windows.Ui.{Qt, IsQt}
use e2ee_windows.Ui.Adapter.{
  Core, BackendAdapter, init_core, init, failed_init, ensure_inited, and_then, ask, logged, login,
  when_logged_in, send_content,
}

module _ (q : Qt) (c : Core) where
  -- Who is logged in has a name that is not empty and has no space at its ends.
  pub record IsNamed (a : BackendAdapter q c) : Type 0 where
    pub named : a.logged_in ≡ true → q.empty a.current_user ≡ false
    pub trim : a.logged_in ≡ true → q.trimmed a.current_user ≡ a.current_user

  abbrev pub SameUser : BackendAdapter q c → BackendAdapter q c → Type 0
  SameUser a b = (a.logged_in ≡ b.logged_in) × (a.current_user ≡ b.current_user)

  pub SameUser-IsNamed : (a b : BackendAdapter q c) → SameUser a b → IsNamed b → IsNamed a
  SameUser-IsNamed a b (l, u) v = record {
    named = λ e. rw u (v.named (rw (← l) e));
    trim = λ e. rw u (v.trim (rw (← l) e));
  }

  pub init-SameUser : (a : BackendAdapter q c) (path : q.QString) → SameUser (init q c a path).0 a
  unfolding init init_core
  init-SameUser a path = ground arith

  failed_init-SameUser :
      (a : BackendAdapter q c) (r : BackendAdapter q c × Bool)
      → SameUser r.0 a
      → SameUser (failed_init q c r).0 a
  unfolding failed_init
  failed_init-SameUser a (b, true) s = s
  failed_init-SameUser a (b, false) s = s

  pub either-SameUser :
      (a : BackendAdapter q c) (b : Bool) (r s : BackendAdapter q c × Option q.QString)
      → SameUser r.0 a
      → SameUser s.0 a
      → SameUser (if b then r else s).0 a
  either-SameUser a true r s p t = p
  either-SameUser a false r s p t = t

  pub ensure_inited-SameUser : (a : BackendAdapter q c) → SameUser (ensure_inited q c a).0 a
  unfolding ensure_inited
  ensure_inited-SameUser a =
      either-SameUser a a.inited (a, none) (failed_init q c (init q c a a.config_path)) (refl, refl)
        (failed_init-SameUser a (init q c a a.config_path) (init-SameUser a a.config_path))

  -- An operation behind `ensureInited` that leaves the user leaves the user.
  and_then-SameUser :
      (a : BackendAdapter q c) (r : BackendAdapter q c × Option q.QString)
      (act : BackendAdapter q c → BackendAdapter q c × Option q.QString)
      → SameUser r.0 a
      → ((b : BackendAdapter q c) → SameUser (act b).0 b)
      → SameUser (and_then q c r act).0 a
  and_then-SameUser a (b, none) act (l, u) k = ((k b).0 ∙ l, (k b).1 ∙ u)
  and_then-SameUser a (b, some e) act p k = p

  pub when_logged_in-SameUser :
      (a : BackendAdapter q c) (act : BackendAdapter q c → BackendAdapter q c × Option q.QString)
      → ((b : BackendAdapter q c) → SameUser (act b).0 b)
      → SameUser (when_logged_in q c a act).0 a
  unfolding when_logged_in
  when_logged_in-SameUser a act k =
      either-SameUser a a.logged_in _ _
        (and_then-SameUser a (ensure_inited q c a) act (ensure_inited-SameUser a) k) (refl, refl)

  pub ask-SameUser :
      (a : BackendAdapter q c) (r : c.State × Bool) (e : Bytes) → SameUser (ask q c a r e).0 a
  unfolding ask
  ask-SameUser a (core', good) e = (refl, refl)

  pub send_content-SameUser :
      (a : BackendAdapter q c) (target path : q.QString) (o : Option Bytes)
      → SameUser (send_content q c a target path o).0 a
  unfolding send_content
  send_content-SameUser a target path none = (refl, refl)
  send_content-SameUser a target path (some content) = (refl, refl)

  logged-IsNamed :
      (a : BackendAdapter q c) (account : q.QString) (r : c.State × Bool)
      → q.empty account ≡ false
      → q.trimmed account ≡ account
      → IsNamed (logged q c a account r).0
  unfolding logged
  logged-IsNamed a account (core', true) n t = record { named = λ _. n; trim = λ _. t }
  logged-IsNamed a account (core', false) n t = record { named = λ e. cc; trim = λ e. cc }

  login_tried :
      (account password : q.QString) (r : BackendAdapter q c × Option q.QString)
      → q.empty account ≡ false
      → q.trimmed account ≡ account
      → IsNamed r.0
      → IsNamed
          (and_then q c r
            (λ a. logged q c a account (c.login (q.to_utf8 account) (q.to_utf8 password) a.core))).0
  login_tried account password (a, none) n t v =
      logged-IsNamed a account (c.login (q.to_utf8 account) (q.to_utf8 password) a.core) n t
  login_tried account password (a, some e) n t v = v

  pub login-IsNamed :
      (d : IsQt q) (a : BackendAdapter q c) (account password : q.QString)
      → IsNamed a
      → IsNamed (login q c a account password).0
  unfolding login
  login-IsNamed d a account password v = elim (Bool-cases (q.empty (q.trimmed account))) [
    | inl e ↦ rw (login, e) v
    | inr e ↦ elim (Bool-cases (q.empty password)) [
      | inl e' ↦ rw (login, e, e') v
      | inr e' ↦
          rw (login, e, e')
            (login_tried (q.trimmed account) password (ensure_inited q c a) e
              (d.trimmed-trimmed account)
              (SameUser-IsNamed (ensure_inited q c a).0 a (ensure_inited-SameUser a) v))
    ]
  ]
