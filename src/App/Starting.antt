-- ===== src/App/Starting.antt =====
-- server_app.cpp: what a server that is set up holds.
use e2ee_windows.Common.{
  ℕ, ◌*◌, ◌≡◌, refl, sym, ap, ◌∙◌, none, some, [], Bytes, text, Result, ok, err, arith,
  Option-cases, inl, inr, ◌⊎◌,
}
use e2ee_windows.Session.{SessionManager, validate}
use e2ee_windows.Session.Reach.{make_manager}
use e2ee_windows.Ini.{lines}
use e2ee_windows.Auth.{AuthProvider}
use e2ee_windows.Auth.Backends.{demo_provider, make_auth_provider}
use e2ee_windows.Auth.Accounts.{first_account, account_answer, demo_validate-load_demo_users}
use e2ee_windows.Config.{AuthMode, ServerConfig, load_config}
use e2ee_windows.Config.Users.{DemoUserTable, load_demo_users}
use e2ee_windows.Config.Loading.{IsUsable, load_config-IsUsable}
use e2ee_windows.Api.{make_api}
use e2ee_windows.App.{Host, ServerApp, storage_dir, finish, set_up, init}

-- The backend of a server in demo mode.
make_auth_provider_demo :
    (cfg : ServerConfig) (file : Bytes) (auth : AuthProvider)
    → cfg.mode ≡ AuthMode.demo
    → make_auth_provider cfg (some file) ≡ ok auth
    → (users : DemoUserTable) × (load_demo_users (text "test_user.txt") (some file) ≡ (users, none))
      × (auth ≡ demo_provider users)
unfolding make_auth_provider
make_auth_provider_demo cfg file auth m h =
    let loaded = load_demo_users (text "test_user.txt") (some file) in
    (loaded.0, ground (arith, m, h), ground (arith, m, h))

set_up_done :
    (host : Host) (cfg : ServerConfig) (auth : AuthProvider) (now : ℕ) (app : ServerApp)
    → set_up host cfg auth now ≡ (app, none)
    → app ≡ finish host cfg (make_manager auth (30 * 60 * host.second)) (storage_dir host cfg) now
unfolding set_up
set_up_done host cfg auth now app h = ground (arith, h)

Result-cases : {R : Type 0} (r : Result R) → ((e : Bytes) × (r ≡ err e)) ⊎ ((a : R) × (r ≡ ok a))
Result-cases (err e) = inl (e, refl)
Result-cases (ok a) = inr (a, refl)

-- `Init` that succeeds, by its parts.
init_parts :
    (host : Host) (path : Bytes) (now : ℕ) (app : ServerApp)
    → init host path now ≡ (app, none)
    → (cfg : ServerConfig) × (load_config host.ulong_bits path (host.file path) ≡ (cfg, none))
      × (auth : AuthProvider) × (make_auth_provider cfg (host.file (text "test_user.txt"))
          ≡ ok auth)
      × (set_up host cfg auth now ≡ (app, none))
unfolding init
init_parts host path now app h =
    let loaded = load_config host.ulong_bits path (host.file path) in
    elim (Option-cases loaded.1) [
      | inr (e, q) ↦ absurd (ground (arith, q, h))
      | inl q ↦
          elim (Result-cases (make_auth_provider loaded.0 (host.file (text "test_user.txt")))) [
            | inl (e, r) ↦ absurd (ground (arith, q, r, h))
            | inr (auth, r) ↦ (loaded.0, ground (arith, q), auth, r, rw (init, q, r) at h)
          ]
    ]

-- A server that `Init` has set up in demo mode has a usable configuration and no session, and lets
-- a user in exactly with the password on the first line of `test_user.txt` that names the user.
pub init_lem :
    (host : Host) (path : Bytes) (now : ℕ) (app : ServerApp) (users name password : Bytes)
    → init host path now ≡ (app, none)
    → app.config.mode ≡ AuthMode.demo
    → host.file (text "test_user.txt") ≡ some users
    → IsUsable app.config
      × (sm : SessionManager) × (app.api.sessions ≡ some sm)
      × (sm.sessions ≡ [])
      × (validate sm.auth name password
          ≡ account_answer (first_account name (lines users)) password)
unfolding finish make_api make_manager validate demo_provider
init_lem host path now app users name password h demo there =
    let (cfg, e, auth, q, r) = init_parts host path now app h in
    let made = set_up_done host cfg auth now app r in
    let same_config : app.config ≡ cfg = ap (λ (a : ServerApp). a.config) made in
    let (table, l, s) =
      make_auth_provider_demo cfg users auth
        (sym (ap (λ (g : ServerConfig). g.mode) same_config) ∙ demo) (rw there at q) in
    (
      rw same_config (load_config-IsUsable host.ulong_bits path (host.file path) cfg e),
      make_manager auth (30 * 60 * host.second),
      ap (λ (a : ServerApp). a.api.sessions) made,
      refl,
      rw s (demo_validate-load_demo_users (text "test_user.txt") users table name password l),
    )
