-- ===== src/Auth/Accounts.antt =====
-- auth_provider.cpp with config.cpp: the passwords that the demo backend accepts are those of the file.
use e2ee_windows.Common.{
  ℕ, ◌+◌, ◌≡◌, refl, sym, ◌∙◌, Option, none, some, List, [], ◌∷◌, Bytes, text, same, same_iff,
  same_refl, arith, if◌then◌else◌,
}
use e2ee_windows.Common.Dict.{find, find-put}
use e2ee_windows.Ini.{lines}
use e2ee_windows.Config.Users.{
  DemoUser, DemoUserTable, emplace, UserLine, read_user_line, demo_user, read_users,
  load_demo_users,
}
use e2ee_windows.Auth.Backends.{demo_validate}

-- The password on the first line that names the user.
unfoldable pub first_account : Bytes → List Bytes → Option Bytes
first_account name [] = none
first_account name (line ∷ rest) = elim (read_user_line line) [
  | UserLine.blank ↦ first_account name rest
  | UserLine.invalid ↦ first_account name rest
  | UserLine.user other password ↦
      (let later = first_account name rest in if same other name then some password else later)
]

-- The entry of a name: the one that was there, or else one for its first line.
unfoldable pub entry : Bytes → Option DemoUser → Option Bytes → Option DemoUser
entry name (some u) account = some u
entry name none none = none
entry name none (some password) = some (demo_user name password)

find-emplace :
    (other name : Bytes) (password : Bytes) (users : DemoUserTable) (account : Option Bytes)
    → entry name (find name (emplace other (demo_user other password) users)) account
      ≡ entry name (find name users) (if same other name then some password else account)
unfolding emplace entry
find-emplace other name password users account = ground (
  arith,
  find-put other name (demo_user other password) users,
  same_iff other name,
  same_refl other,
)

entry-none : (name : Bytes) (o : Option DemoUser) → entry name o none ≡ o
unfolding entry
entry-none name none = refl
entry-none name (some u) = refl

user_first :
    (n : ℕ) (users table : DemoUserTable) (line : Bytes) (rest : List Bytes) (name : Bytes)
    (l : UserLine)
    → read_user_line line ≡ l
    → read_users n users (line ∷ rest) ≡ (table, none)
    → ((users' : DemoUserTable)
        → read_users (n + 1) users' rest ≡ (table, none)
        → find name table ≡ entry name (find name users') (first_account name rest))
    → find name table ≡ entry name (find name users) (first_account name (line ∷ rest))
unfolding read_users first_account
user_first n users table line rest name UserLine.blank e h ih =
    rw (first_account, e) (ih users (rw (read_users, e) at h))
user_first n users table line rest name UserLine.invalid e h ih = absurd (ground (arith, e, h))
user_first n users table line rest name (UserLine.user other password) e h ih =
    rw (first_account, e)
      (ih (emplace other (demo_user other password) users) (rw (read_users, e) at h)
        ∙ find-emplace other name password users (first_account name rest))

find-read_users :
    (n : ℕ) (users table : DemoUserTable) (ls : List Bytes) (name : Bytes)
    → read_users n users ls ≡ (table, none)
    → find name table ≡ entry name (find name users) (first_account name ls)
unfolding read_users first_account
find-read_users n users table [] name h =
    let e : users ≡ table = ground (arith, h) in
    rw (first_account, ← e) (sym (entry-none name (find name users)))
find-read_users n users table (line ∷ rest) name h =
    user_first n users table line rest name (read_user_line line) refl h
      (λ users' k. find-read_users (n + 1) users' table rest name k)

-- What `Validate` answers, by the password of the first account with the name.
unfoldable pub account_answer : Option Bytes → Bytes → Option Bytes
account_answer none password = some (text "user not found")
account_answer (some p) password =
    if same p password then none else some (text "invalid credentials")

demo_validate-entry :
    (users : DemoUserTable) (name password : Bytes) (account : Option Bytes)
    → find name users ≡ entry name none account
    → demo_validate users name password ≡ account_answer account password
unfolding demo_validate entry account_answer
demo_validate-entry users name password none e = rw (demo_validate, e) refl
demo_validate-entry users name password (some []) e =
    rw (demo_validate, e) (ground (arith, same_refl name))
demo_validate-entry users name password (some (b ∷ p)) e =
    rw (demo_validate, e) (ground (arith, same_refl name))

-- With the users of a file that was read without an error, a login is accepted exactly with the
-- password on the first line that names the user; later lines for the name do not count.
pub demo_validate-load_demo_users :
    (path file : Bytes) (users : DemoUserTable) (name password : Bytes)
    → load_demo_users path (some file) ≡ (users, none)
    → demo_validate users name password ≡ account_answer (first_account name (lines file)) password
unfolding load_demo_users find
demo_validate-load_demo_users path file users name password h =
    demo_validate-entry users name password (first_account name (lines file))
      (find-read_users 0 [] users (lines file) name h)
