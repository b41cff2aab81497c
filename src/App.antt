-- ===== src/App.antt =====
-- server/src/server_app.cpp and server/include/server_app.h: the server is set up once, and cleans up
-- now and then. The parts that the members point to are those of the API service, which keeps no
-- copies of them.
pub mod Cleaning
pub mod Starting
use e2ee_windows.Common.{
  ℕ, ◌+◌, ◌-◌, ◌*◌, ◌==◌, Bool, true, false, not, ◌||◌, Option, none, some, [], ◌∷◌, ◌++◌, Bytes,
  text, Result, ok, err, if◌then◌else◌, is_empty, ltb,
}
use e2ee_windows.Common.Dict.{erase}
use e2ee_windows.Session
use e2ee_windows.Session.{SessionManager}
use e2ee_windows.Session.Reach.{make_manager}
use e2ee_windows.Auth.{AuthProvider}
use e2ee_windows.Auth.Backends.{make_auth_provider}
use e2ee_windows.Config.{ServerConfig, default_config, load_config}
use e2ee_windows.Storage
use e2ee_windows.Storage.{OfflineStorage, FileSystem}
use e2ee_windows.Queue
use e2ee_windows.Queue.{OfflineQueue}
use e2ee_windows.Api.{ApiService, make_api}
use e2ee_windows.Connection.{ConnectionHandler}

-- What the server takes from its surroundings: the width of an `unsigned long`, the ticks of the
-- clock in a second, the files that it reads when it starts, the working directory (which is not
-- the root), whether a directory can be made, and the disk.
pub record Host : Type 0 where
  pub ulong_bits : ℕ
  pub second : ℕ
  pub file : Bytes → Option Bytes
  pub current_path : Bytes
  pub create_directories : Bytes → Bool
  pub disk : FileSystem

-- `ready` tells whether there is a router, which is made together with the service.
pub record ServerApp : Type 0 where
  pub config : ServerConfig
  pub api : ApiService
  pub ready : Bool
  pub last_cleanup : ℕ

-- `ServerApp()`
abbrev pub new_app : ServerApp
new_app = record {
  config = default_config;
  api = make_api none none none none none 0;
  ready = false;
  last_cleanup = 0;
}

unfoldable pub storage_dir : Host → ServerConfig → Bytes
storage_dir host cfg =
    if is_empty cfg.server.offline_dir
    then host.current_path ++ text "/offline_store"
    else cfg.server.offline_dir

-- The file of the writability probe is emptied where it is there, and removed.
unfoldable pub probed : FileSystem → Bytes → FileSystem
probed disk probe = record disk { files = erase probe disk.files; removed = [] ∷ disk.removed }

-- `Init` once the storage can be used.
unfoldable pub finish : Host → ServerConfig → SessionManager → Bytes → ℕ → ServerApp
finish host cfg sm dir now =
    let storage : OfflineStorage = record {
      base_dir = dir;
      ttl = 12 * 3600 * host.second;
      metadata = [];
      disk = probed host.disk (dir ++ text "/.probe");
    } in
    let queue : OfflineQueue = record { default_ttl = 24 * 3600 * host.second; messages = [] } in
    record {
      config = cfg;
      api =
          make_api (some sm) (some []) (some []) (some storage) (some queue)
            cfg.server.group_rotation_threshold;
      ready = true;
      last_cleanup = now;
    }

-- `Init` behind the choice of the backend.
unfoldable pub set_up : Host → ServerConfig → AuthProvider → ℕ → ServerApp × Option Bytes
set_up host cfg auth now =
    let sm = make_manager auth (30 * 60 * host.second) in
    let dir = storage_dir host cfg in
    let started : ServerApp = record new_app {
      config = cfg;
      api = make_api (some sm) (some []) (some []) none none 0;
    } in
    if not (host.create_directories dir)
    then (started, some (text "offline_dir not accessible"))
    else if not (host.disk.writable (dir ++ text "/.probe"))
    then (started, some (text "offline_dir not writable"))
    else (finish host cfg sm dir now, none)

-- `Init` of a new server; `none` stands for `true`.
unfoldable pub init : Host → Bytes → ℕ → ServerApp × Option Bytes
init host config_path now =
    let (cfg, error) = load_config host.ulong_bits config_path (host.file config_path) in
    let loaded : ServerApp = record new_app { config = cfg } in
    elim error [
      | some e ↦ (loaded, some e)
      | none ↦ elim (make_auth_provider cfg (host.file (text "test_user.txt"))) [
        | err e ↦ (loaded, some e)
        | ok auth ↦ set_up host cfg auth now
      ]
    ]

-- The readings of the clock in one call of `RunOnce`, in their order.
pub record Ticks : Type 0 where
  pub now : ℕ
  pub sessions : ℕ
  pub storage : ℕ
  pub queue : ℕ

-- `f` of a part that is there.
abbrev with_part : {A : Type 0} → (A → A) → Option A → Option A
with_part f none = none
with_part f (some a) = some (f a)

unfoldable pub cleaned : ApiService → Ticks → ApiService
cleaned api t = record api {
  sessions = with_part (λ (sm : SessionManager). Session.cleanup sm t.sessions) api.sessions;
  storage = with_part (λ (st : OfflineStorage). Storage.cleanup_expired st t.storage) api.storage;
  queue = with_part (λ (q : OfflineQueue). Queue.cleanup_expired q t.queue) api.queue;
}

abbrev missing : {A : Type 0} → Option A → Bool
missing none = true
missing (some a) = false

-- `RunOnce`; `second` is the ticks in a second, and `none` stands for `true`.
unfoldable pub run_once : ℕ → ServerApp → Ticks → ServerApp × Option Bytes
run_once second app t =
    if missing app.api.sessions || missing app.api.groups
    then (app, some (text "server not initialized"))
    else if ltb (5 * 60 * second) (t.now - app.last_cleanup)
    then (record app { api = cleaned app.api t; last_cleanup = t.now }, none)
    else (app, none)

-- `mi_server_create`: the connection handler of the listener on a server that is set up.
unfoldable pub create : Host → Bytes → ℕ → Option ConnectionHandler
create host config_path now =
    let (app, error) = init host config_path now in
    elim error [ some e ↦ none | none ↦ some (record { api = app.api; channel_states = [] }) ]
