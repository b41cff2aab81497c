-- ===== src/Runs/Settings.antt =====
-- Runs of config.cpp, auth_provider.cpp and server_app.cpp.
use e2ee_windows.Common.{
  ◌≡◌, refl, ◌||◌, true, some, none, [], ◌∷◌, Bytes, arith, text, if◌then◌else◌, ◌++◌,
}
use e2ee_windows.Common.Text.{same}
use e2ee_windows.Common.Dict.{find, put, erase}
use e2ee_windows.Pake.{DerivedKeys}
use e2ee_windows.Session.{Session, SessionManager, validate}
use e2ee_windows.Session.View.{live}
use e2ee_windows.Queue.{OfflineQueue}
use e2ee_windows.Queue.Delivery.{pending}
use e2ee_windows.Ini.{
  is_space, skip_spaces, drop_spaces, trim, before_comment, strip_inline_comment, split_at, lines,
  section_name, read_trimmed, read_line, digits_value, signed_digits, sign_first, scan_number,
  parse_uint16, digits, to_decimal,
}
use e2ee_windows.Config.{
  AuthMode, ServerConfig, default_config, apply_kv, apply_server, apply_mysql, parse_lines,
  parse_ini, check_config, load_config,
}
use e2ee_windows.Config.Loading.{first_invalid, line_error, parse_ini_error, IsUsable}
use e2ee_windows.Config.Users.{
  DemoUserTable, demo_user, emplace, read_credentials, read_user_line, read_users, load_demo_users,
}
use e2ee_windows.Auth.Backends.{make_auth_provider}
use e2ee_windows.Auth.Password.{verify_password, sha256_hex, verify_password_lem}
use e2ee_windows.Auth.Accounts.{first_account, account_answer}
use e2ee_windows.Storage.{FileSystem}
use e2ee_windows.App.{Host, ServerApp, Ticks, new_app, init, set_up, finish, run_once}
use e2ee_windows.App.Starting.{init_lem}
use e2ee_windows.App.Cleaning.{HasTables, run_once_lem}

-- Two sections, a comment, and a line that says nothing.
abbrev bad_file : Bytes
bad_file = text "[mode]\n mode = 1 ; demo\nnonsense\nalso\n"

third_line : (parse_ini 64 (text "c") (some bad_file)).1 ≡ some (text "invalid line 3")
unfolding parse_ini parse_lines lines read_line read_trimmed strip_inline_comment before_comment
    trim drop_spaces skip_spaces is_space section_name split_at to_decimal digits
third_line = refl

parse_ini_error_example :
    (parse_ini 64 (text "c") (some bad_file)).1 ≡ line_error 0 (first_invalid (lines bad_file))
parse_ini_error_example = parse_ini_error 64 (text "c") bad_file

abbrev good_file : Bytes
good_file = text "[mode]\nmode=1\n# port\n[server]\nlist_port = 9000\n"

abbrev good_config : ServerConfig
good_config = record default_config {
  mode = AuthMode.demo;
  server = record default_config.server { listen_port = 9000 };
}

loads : load_config 64 (text "c") (some good_file) ≡ (good_config, none)
unfolding load_config check_config parse_ini parse_lines apply_kv apply_server same lines read_line
    read_trimmed strip_inline_comment before_comment trim drop_spaces skip_spaces is_space
    section_name split_at parse_uint16 scan_number sign_first signed_digits digits_value
loads = refl

abbrev users_file : Bytes
users_file = text "ann:pw\n# twice\nann:other\nben:x\n"

abbrev users : DemoUserTable
users =
    (text "ben", demo_user (text "ben") (text "x"))
    ∷ (text "ann", demo_user (text "ann") (text "pw"))
    ∷ []

read : load_demo_users (text "test_user.txt") (some users_file) ≡ (users, none)
unfolding load_demo_users read_users read_user_line read_credentials emplace find put erase same
    lines strip_inline_comment before_comment trim drop_spaces skip_spaces is_space split_at
read = refl

abbrev disk : FileSystem
disk = record { files = []; writable = λ p. true; removed = [] }

-- The files that the server reads.
abbrev host : Host
host = record {
  ulong_bits = 64;
  second = 1;
  file = λ p. if same p (text "test_user.txt") then some users_file else some good_file;
  current_path = text "/srv";
  create_directories = λ p. true;
  disk = disk;
}

abbrev app : ServerApp
app = (init host (text "config.ini") 100).0

starts : init host (text "config.ini") 100 ≡ (app, none)
unfolding init set_up make_auth_provider load_config check_config parse_ini parse_lines apply_kv
    apply_server same lines read_line read_trimmed strip_inline_comment before_comment trim
    drop_spaces skip_spaces is_space section_name split_at parse_uint16 scan_number sign_first
    signed_digits digits_value load_demo_users read_users read_user_line read_credentials emplace
    find put erase
starts = refl

demo_mode : app.config.mode ≡ AuthMode.demo
unfolding init set_up finish make_auth_provider load_config check_config parse_ini parse_lines
    apply_kv apply_server same lines read_line read_trimmed strip_inline_comment before_comment trim
    drop_spaces skip_spaces is_space section_name split_at parse_uint16 scan_number sign_first
    signed_digits digits_value load_demo_users read_users read_user_line read_credentials emplace
    find put erase
demo_mode = refl

users_there : host.file (text "test_user.txt") ≡ some users_file
unfolding same
users_there = refl

init_lem_example :
    IsUsable app.config
    × (sm : SessionManager) × (app.api.sessions ≡ some sm)
    × (sm.sessions ≡ [])
    × (validate sm.auth (text "ann") (text "pw")
        ≡ account_answer (first_account (text "ann") (lines users_file)) (text "pw"))
init_lem_example =
    init_lem host (text "config.ini") 100 app users_file (text "ann") (text "pw") starts demo_mode
      users_there

abbrev no_keys : DerivedKeys
no_keys = record { root_key = []; header_key = []; kcp_key = []; ratchet_root = [] }

abbrev old_session : Session
old_session = record { token = text "ta"; username = text "ann"; keys = no_keys; created_at = 3 }

abbrev manager : SessionManager
manager = record { auth = none; ttl = 1800; sessions = (text "ta", old_session) ∷ [] }

abbrev queue : OfflineQueue
queue = record { default_ttl = 86400; messages = [] }

abbrev running : ServerApp
running = record new_app {
  api = record new_app.api { sessions = some manager; groups = some []; queue = some queue };
}

abbrev ticks : Ticks
ticks = record { now = 4000; sessions = 4001; storage = 4002; queue = 4003 }

running-HasTables : HasTables running manager [] queue
unfolding find
running-HasTables = record {
  sessions = refl;
  groups = refl;
  queue = refl;
  one_session = (refl, tt);
  one_queue = tt;
}

run_once_lem_example :
    (let r = run_once 1 running ticks in
      (r.1 ≡ none)
      × (sm' : SessionManager) × (q' : OfflineQueue) × (r.0.api.sessions ≡ some sm')
      × (r.0.api.queue ≡ some q')
      × (live sm' (text "ta") 4100 ≡ live manager (text "ta") 4100)
      × (pending q' (text "ann") 4100 ≡ pending queue (text "ann") 4100)
      × (r.0.api.groups ≡ running.api.groups)
      × (r.0.api.directory ≡ running.api.directory)
      × (r.0.api.friends ≡ running.api.friends))
run_once_lem_example =
    run_once_lem 1 running ticks manager [] queue (text "ta") (text "ann") 4100 running-HasTables
      (omega arith) (omega arith)

verify_password_lem_example :
    (let stored = text "s" ++ b':' ∷ sha256_hex (text "s" ++ text "pw") in
      (verify_password (text "pw") stored ≡ true)
      × (verify_password stored stored ≡ true)
      × (verify_password (text "no") stored ≡ (
          same stored (text "no")
          || same (sha256_hex (text "s" ++ text "no")) (sha256_hex (text "s" ++ text "pw")))))
verify_password_lem_example = verify_password_lem (text "s") (text "pw") (text "no") (refl, tt)

-- The file server/config.example.ini.
abbrev example_file : Bytes
example_file =
    text "[mode]\nmode=1  # 0=mysql 1=demo\n[mysql]\nmysql_ip=127.0.0.1\nmysql_port=3306\n"
    ++ text
        "mysql_database=test\nmysql_username=root\nmysql_password=pass\n[server]\nlist_port=9000\n"

example_config : load_config 32 (text "config.ini") (some example_file) ≡ (
  record default_config {
    mode = AuthMode.demo;
    mysql = record {
      host = text "127.0.0.1";
      port = 3306;
      database = text "test";
      username = text "root";
      password = text "pass";
    };
    server = record default_config.server { listen_port = 9000 };
  },
  none,
)
unfolding load_config check_config parse_ini parse_lines apply_kv apply_mysql apply_server same
    lines read_line read_trimmed strip_inline_comment before_comment trim drop_spaces skip_spaces
    is_space section_name split_at parse_uint16 scan_number sign_first signed_digits digits_value
example_config = refl
