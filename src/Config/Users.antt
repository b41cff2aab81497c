-- ===== src/Config/Users.antt =====
-- config.cpp: the table of demo users. A scrambled name or password is the string that was set; it
-- is looked at only where the plain string beside it is empty.
use e2ee_windows.Common.{
  ℕ, ◌+◌, ◌||◌, Option, none, some, List, [], ◌∷◌, ◌++◌, Bytes, text, if◌then◌else◌, is_empty,
}
use e2ee_windows.Common.Dict.{Dict, find, put}
use e2ee_windows.Ini.{trim, strip_inline_comment, split_at, lines, to_decimal}

pub record DemoUser : Type 0 where
  pub username : Bytes
  pub password : Bytes
  pub username_plain : Bytes
  pub password_plain : Bytes

-- `DemoUserTable`
abbrev pub DemoUserTable : Type 0
DemoUserTable = Dict DemoUser

-- `emplace`: a name that is there already keeps its user.
unfoldable pub emplace : Bytes → DemoUser → DemoUserTable → DemoUserTable
emplace name user users = elim (find name users) [ none ↦ put name user users | some there ↦ users ]

-- What a line of the file says.
pub data UserLine : Type 0 where
  blank invalid : UserLine
  user : Bytes → Bytes → UserLine

-- Neither the name nor the password may be empty.
unfoldable pub read_credentials : Bytes → UserLine
read_credentials t = if is_empty t then blank else elim (split_at b':' t) [
  | none ↦ invalid
  | some (name, password) ↦
      if is_empty name || is_empty password then invalid else user name password
]

unfoldable pub read_user_line : Bytes → UserLine
read_user_line line = read_credentials (strip_inline_comment (trim line))

abbrev pub demo_user : Bytes → Bytes → DemoUser
demo_user name password = record {
  username = name;
  password = password;
  username_plain = name;
  password_plain = password;
}

-- The loop of `LoadDemoUsers` from the line behind `line_no` on.
unfoldable pub read_users : ℕ → DemoUserTable → List Bytes → DemoUserTable × Option Bytes
read_users line_no users [] = (users, none)
read_users line_no users (line ∷ rest) = elim (read_user_line line) [
  | blank ↦ read_users (line_no + 1) users rest
  | invalid ↦ (users, some (text "invalid test user line " ++ to_decimal (line_no + 1)))
  | user name password ↦
      read_users (line_no + 1) (emplace name (demo_user name password) users) rest
]

unfoldable pub load_demo_users : Bytes → Option Bytes → DemoUserTable × Option Bytes
load_demo_users path none = ([], some (text "test_user.txt not found: " ++ path))
load_demo_users path (some file) = read_users 0 [] (lines file)
