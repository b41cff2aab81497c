-- ===== src/Ui/Adapter.antt =====
-- client/ui/qq_main_list/BackendAdapter.cpp: what a window asks of the client. The client is an
-- interface of the operations that the adapter calls. An error message is the result of an operation
-- that fails; `none` stands for success. The timer of the polls is left out.
pub mod Guards
pub mod Talk
use e2ee_windows.Common.{
  ℕ, Bool, true, false, not, ◌&&◌, Option, none, some, List, [], ◌∷◌, ◌++◌, Bytes, text, same,
  if◌then◌else◌, length, take, drop, is_empty, map,
}
use e2ee_windows.Client.Calls.{FriendEntry}
use e2ee_windows.Ui.{Qt}
use e2ee_windows.Ui.Payload.{text_payload, file_payload, ParsedOffline, parse_payload}

-- The operations of `ClientCore`.
pub record Core : Type 1 where
  pub State : Type 0
  pub init : Bytes → State → State × Bool
  pub login : Bytes → Bytes → State → State × Bool
  pub list_friends : State → State × List FriendEntry
  pub add_friend : Bytes → Bytes → State → State × Bool
  pub set_friend_remark : Bytes → Bytes → State → State × Bool
  pub send_offline : Bytes → Bytes → State → State × Bool
  pub pull_offline : State → State × List Bytes

module _ (q : Qt) where
  open q use {QString, empty, concat, literal, exists, is_absolute, application_dir}

  unfoldable pub resolve_config_path : QString → QString
  resolve_config_path name =
      let candidate = concat (concat application_dir (literal (text "/"))) name in
      if empty name
      then literal []
      else if is_absolute name && exists name
      then name
      else if exists name
      then name
      else if exists candidate
      then candidate
      else name

module _ (q : Qt) (c : Core) where
  open q use {
    QString, equal, empty, trimmed, concat, arg, literal, to_utf8, from_utf8, exists, read_file,
    file_name,
  }

  -- `configPath_` is `client_config.ini` at first.
  pub record BackendAdapter : Type 0 where
    pub core : c.State
    pub inited : Bool
    pub logged_in : Bool
    pub current_user : QString
    pub config_path : QString

  unfoldable pub init_core : BackendAdapter → QString → BackendAdapter × Bool
  init_core a path =
      let (core', good) = c.init (to_utf8 path) a.core in
      (record a { core = core'; inited = good; config_path = path }, good)

  -- The path that the first `init` takes.
  unfoldable pub first_path : QString → QString
  unfolding resolve_config_path
  first_path path =
      let client = resolve_config_path q (literal (text "client_config.ini")) in
      if not (empty path)
      then resolve_config_path q path
      else if not (empty client) && exists client
      then client
      else resolve_config_path q (literal (text "config.ini"))

  unfoldable pub init : BackendAdapter → QString → BackendAdapter × Bool
  unfolding init_core first_path
  init a path =
      if a.inited
      then (if not (empty path) && not (equal path a.config_path)
          then init_core a (resolve_config_path q path)
          else (a, true))
      else init_core a (first_path path)

  unfoldable pub failed_init : BackendAdapter × Bool → BackendAdapter × Option QString
  failed_init (a, true) = (a, none)
  failed_init (a, false) = (
    a,
    some (
        arg (literal (text "后端初始化失败（检查 %1）"))
          (if empty a.config_path then literal (text "config.ini") else a.config_path)),
  )

  unfoldable pub ensure_inited : BackendAdapter → BackendAdapter × Option QString
  unfolding failed_init
  ensure_inited a = if a.inited then (a, none) else failed_init (init a a.config_path)

  -- What follows `ensureInited` in an operation.
  abbrev pub and_then :
      BackendAdapter × Option QString
      → (BackendAdapter → BackendAdapter × Option QString)
      → BackendAdapter × Option QString
  and_then (a, none) act = act a
  and_then (a, some e) act = (a, some e)

  -- A call of the client, and the error where it answers `false`.
  unfoldable pub ask : BackendAdapter → c.State × Bool → Bytes → BackendAdapter × Option QString
  ask a (core', good) e = (record a { core = core' }, if good then none else some (literal e))

  -- The polls start with a login that succeeds.
  unfoldable pub logged :
      BackendAdapter → QString → c.State × Bool → BackendAdapter × Option QString
  logged a account (core', true) =
      (record a { core = core'; logged_in = true; current_user = account }, none)
  logged a account (core', false) =
      (record a { core = core'; logged_in = false }, some (literal (text "登录失败：请检查账号/密码或服务器状态")))

  unfoldable pub login : BackendAdapter → QString → QString → BackendAdapter × Option QString
  unfolding ensure_inited logged
  login a account password =
      if empty (trimmed account)
      then (a, some (literal (text "账号或密码为空")))
      else if empty password
      then (a, some (literal (text "账号或密码为空")))
      else and_then (ensure_inited a) (λ a'.
        logged a' (trimmed account)
          (c.login (to_utf8 (trimmed account)) (to_utf8 password) a'.core))

  -- The check of an operation that needs a login, and what follows `ensureInited`.
  unfoldable pub when_logged_in :
      BackendAdapter
      → (BackendAdapter → BackendAdapter × Option QString)
      → BackendAdapter × Option QString
  unfolding ensure_inited
  when_logged_in a act =
      if a.logged_in then and_then (ensure_inited a) act else (a, some (literal (text "尚未登录")))

  pub record FriendShown : Type 0 where
    pub username : QString
    pub remark : QString

  unfoldable pub shown : FriendEntry → FriendShown
  shown f = record { username = from_utf8 f.username; remark = from_utf8 f.remark }

  -- `displayName`
  unfoldable pub display_name : FriendShown → QString
  display_name f = if empty f.remark then f.username else f.remark

  -- The list is empty where there is an error.
  unfoldable pub listed :
      BackendAdapter × Option QString → BackendAdapter × Option QString × List FriendShown
  unfolding shown
  listed (a, some e) = (a, some e, [])
  listed (a, none) =
      let (core', friends) = c.list_friends a.core in
      (record a { core = core' }, none, map shown friends)

  unfoldable pub list_friends : BackendAdapter → BackendAdapter × Option QString × List FriendShown
  unfolding ensure_inited listed
  list_friends a =
      if a.logged_in then listed (ensure_inited a) else (a, some (literal (text "尚未登录")), [])

  unfoldable pub add_friend : BackendAdapter → QString → QString → BackendAdapter × Option QString
  unfolding when_logged_in ask
  add_friend a account remark =
      if empty (trimmed account)
      then (a, some (literal (text "账号为空")))
      else when_logged_in a (λ a'.
        ask a' (c.add_friend (to_utf8 (trimmed account)) (to_utf8 (trimmed remark)) a'.core)
          (text "添加好友失败：账号不存在或服务器异常"))

  unfoldable pub set_friend_remark :
      BackendAdapter → QString → QString → BackendAdapter × Option QString
  unfolding when_logged_in ask
  set_friend_remark a account remark =
      if empty (trimmed account)
      then (a, some (literal (text "账号为空")))
      else when_logged_in a (λ a'.
        ask a' (c.set_friend_remark (to_utf8 (trimmed account)) (to_utf8 (trimmed remark)) a'.core)
          (text "备注更新失败：账号不存在或服务器异常"))

  unfoldable pub send_text : BackendAdapter → QString → QString → BackendAdapter × Option QString
  unfolding when_logged_in ask
  send_text a target message =
      if empty (trimmed message)
      then (a, some (literal (text "发送内容为空")))
      else when_logged_in a (λ a'.
        ask a' (c.send_offline (to_utf8 target) (text_payload q a'.current_user message) a'.core)
          (text "后端发送失败"))

  unfoldable pub send_content :
      BackendAdapter → QString → QString → Option Bytes → BackendAdapter × Option QString
  unfolding ask
  send_content a target path none = (a, some (literal (text "无法读取文件")))
  send_content a target path (some content) =
      ask a
        (c.send_offline (to_utf8 target) (file_payload q a.current_user (file_name path) content)
          a.core)
        (text "发送文件失败")

  unfoldable pub send_file : BackendAdapter → QString → QString → BackendAdapter × Option QString
  unfolding when_logged_in send_content
  send_file a target path = when_logged_in a (λ a'. send_content a' target path (read_file path))

  -- The messages that are shown.
  unfoldable pub polled : BackendAdapter × Option QString → BackendAdapter × List (ParsedOffline q)
  polled (a, some e) = (a, [])
  polled (a, none) =
      let (core', messages) = c.pull_offline a.core in
      (record a { core = core' }, map (parse_payload q) messages)

  unfoldable pub poll_offline : BackendAdapter → BackendAdapter × List (ParsedOffline q)
  unfolding ensure_inited polled
  poll_offline a = if a.logged_in then polled (ensure_inited a) else (a, [])
