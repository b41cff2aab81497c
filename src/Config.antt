-- ===== src/Config.antt =====
-- server/src/config.cpp and server/include/config.h: the configuration of the server. A file is the
-- bytes in it, or `none` where it cannot be opened. A scrambled password is the string
-- that was set; only its size is looked at.
pub mod Users
pub mod Clients
pub mod Loading
use e2ee_windows.Common.{
  ℕ, zero, suc, ◌+◌, ◌==◌, Bool, true, false, not, ◌&&◌, ◌||◌, Option, none, some, List, [], ◌∷◌,
  ◌++◌, Bytes, text, same, if◌then◌else◌, is_empty,
}
use e2ee_windows.Ini.{Line, read_line, lines, parse_uint16, parse_uint32, parse_bool, to_decimal}

pub data AuthMode : Type 0 where
  my_sql demo : AuthMode

pub record MySqlConfig : Type 0 where
  pub host : Bytes
  pub port : ℕ
  pub database : Bytes
  pub username : Bytes
  pub password : Bytes

pub record ServerSection : Type 0 where
  pub listen_port : ℕ
  pub group_rotation_threshold : ℕ
  pub offline_dir : Bytes
  pub debug_log : Bool

pub record ServerConfig : Type 0 where
  pub mode : AuthMode
  pub mysql : MySqlConfig
  pub server : ServerSection

-- `ServerConfig{}`
abbrev pub default_config : ServerConfig
default_config = record {
  mode = my_sql;
  mysql = record { host = []; port = 0; database = []; username = []; password = [] };
  server = record {
    listen_port = 0;
    group_rotation_threshold = 10000;
    offline_dir = [];
    debug_log = false;
  };
}

-- A parser that fails leaves the value as it is.
abbrev pub or_kept {ℓ} : {A : Type ℓ} → A → Option A → A
or_kept a none = a
or_kept a (some b) = b

-- `ApplyKV` in the section `mysql`.
unfoldable pub apply_mysql : MySqlConfig → Bytes → Bytes → MySqlConfig
apply_mysql m key value =
    if same key (text "mysql_ip")
    then record m { host = value }
    else if same key (text "mysql_port")
    then record m { port = or_kept m.port (parse_uint16 value) }
    else if same key (text "mysql_database")
    then record m { database = value }
    else if same key (text "mysql_username")
    then record m { username = value }
    else if same key (text "mysql_password")
    then record m { password = value }
    else m

-- `ApplyKV` in the section `server`; `bits` is the width of an `unsigned long`.
unfoldable pub apply_server : ℕ → ServerSection → Bytes → Bytes → ServerSection
apply_server bits s key value =
    if same key (text "list_port")
    then record s { listen_port = or_kept s.listen_port (parse_uint16 value) }
    else if same key (text "rotation_threshold")
    then record s {
      group_rotation_threshold = or_kept s.group_rotation_threshold (parse_uint32 bits value);
    }
    else if same key (text "offline_dir")
    then record s { offline_dir = value }
    else if same key (text "debug_log")
    then record s { debug_log = or_kept s.debug_log (parse_bool value) }
    else s

unfoldable pub apply_kv : ℕ → Bytes → ServerConfig → Bytes → Bytes → ServerConfig
apply_kv bits section cfg key value =
    if same section (text "mode") && same key (text "mode")
    then record cfg { mode = if same value (text "1") then demo else my_sql }
    else if same section (text "mysql")
    then record cfg { mysql = apply_mysql cfg.mysql key value }
    else if same section (text "server")
    then record cfg { server = apply_server bits cfg.server key value }
    else cfg

-- The loop of `ParseIni` from the line behind `line_no` on: the configuration, and the error.
unfoldable pub parse_lines : ℕ → ℕ → Bytes → ServerConfig → List Bytes → ServerConfig × Option Bytes
parse_lines bits line_no section cfg [] = (cfg, none)
parse_lines bits line_no section cfg (line ∷ rest) = elim (read_line line) [
  | Line.blank ↦ parse_lines bits (line_no + 1) section cfg rest
  | Line.section name ↦ parse_lines bits (line_no + 1) name cfg rest
  | Line.invalid ↦ (cfg, some (text "invalid line " ++ to_decimal (line_no + 1)))
  | Line.pair key value ↦
      parse_lines bits (line_no + 1) section (apply_kv bits section cfg key value) rest
]

unfoldable pub parse_ini : ℕ → Bytes → Option Bytes → ServerConfig × Option Bytes
parse_ini bits path none = (default_config, some (text "config file not found: " ++ path))
parse_ini bits path (some file) = parse_lines bits 0 [] default_config (lines file)

unfoldable pub mysql_complete : MySqlConfig → Bool
mysql_complete m =
    not (is_empty m.host)
    && (not (m.port == 0)
        && (not (is_empty m.database) && (not (is_empty m.username) && not (is_empty m.password))))

-- `out_config.server.group_rotation_threshold` where it is zero.
abbrev with_threshold : ServerConfig → ServerConfig
with_threshold cfg = record cfg {
  server = record cfg.server {
    group_rotation_threshold =
        if cfg.server.group_rotation_threshold == 0
        then 10000
        else cfg.server.group_rotation_threshold;
  };
}

-- The checks of `LoadConfig`; `none` stands for `true`.
unfoldable pub check_config : ServerConfig → Option Bytes
check_config cfg =
    let incomplete : Bool = elim cfg.mode [
      | my_sql ↦ not (mysql_complete cfg.mysql)
      | demo ↦ false
    ] in
    if incomplete
    then some (text "mysql config incomplete")
    else if cfg.server.listen_port == 0
    then some (text "server listen port missing")
    else none

unfoldable pub load_config : ℕ → Bytes → Option Bytes → ServerConfig × Option Bytes
load_config bits path file =
    let (cfg, error) = parse_ini bits path file in
    let complete = with_threshold cfg in
    elim error [ some e ↦ (cfg, some e) | none ↦ (complete, check_config complete) ]
