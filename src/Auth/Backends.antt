-- ===== src/Auth/Backends.antt =====
-- server/src/auth_provider.cpp: the authentication backends, built without MI_E2EE_ENABLE_MYSQL.
use e2ee_windows.Common.{
  Option, none, some, Bytes, text, same, not, ◌||◌, Result, ok, err, if◌then◌else◌, is_empty,
}
use e2ee_windows.Common.Dict.{find}
use e2ee_windows.Auth.{AuthProvider}
use e2ee_windows.Config.{AuthMode, ServerConfig}
use e2ee_windows.Config.Users.{DemoUserTable, load_demo_users}

-- The strings that a password is compared with: those kept as they are come first.
abbrev stored : Bytes → Bytes → Bytes
stored plain scrambled = if is_empty plain then scrambled else plain

-- `DemoAuthProvider::Validate`
unfoldable pub demo_validate : DemoUserTable → Bytes → Bytes → Option Bytes
demo_validate users username password = elim (find username users) [
  | none ↦ some (text "user not found")
  | some u ↦
      if not (same (stored u.username_plain u.username) username)
        || not (same (stored u.password_plain u.password) password)
      then some (text "invalid credentials")
      else none
]

-- `DemoAuthProvider::UserExists`
unfoldable pub demo_user_exists : DemoUserTable → Bytes → Option Bytes
demo_user_exists users username =
    if is_empty username
    then some (text "username empty")
    else elim (find username users) [ none ↦ some (text "user not found") | some u ↦ none ]

-- `DemoAuthProvider(users)`
unfoldable pub demo_provider : DemoUserTable → AuthProvider
demo_provider users = record {
  validate = demo_validate users;
  user_exists = demo_user_exists users;
}

-- `MySqlAuthProvider`: both operations refuse.
unfoldable pub my_sql_provider : AuthProvider
my_sql_provider = record {
  validate =
      λ username password. some (text "mysql provider not built (enable MI_E2EE_ENABLE_MYSQL)");
  user_exists = λ username. some (text "mysql provider not built (enable MI_E2EE_ENABLE_MYSQL)");
}

-- `users` is the file `test_user.txt`.
unfoldable pub make_auth_provider : ServerConfig → Option Bytes → Result AuthProvider
make_auth_provider cfg users =
    let (table, error) = load_demo_users (text "test_user.txt") users in
    elim cfg.mode [
      | AuthMode.my_sql ↦ ok my_sql_provider
      | AuthMode.demo ↦ elim error [ none ↦ ok (demo_provider table) | some e ↦ err e ]
    ]
