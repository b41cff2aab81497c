-- ===== src/Config/Loading.antt =====
-- config.cpp: which files are refused, with which error, and what an accepted configuration holds.
use e2ee_windows.Common.{
  ℕ, ◌+◌, ◌^◌, ◌<◌, ◌≡◌, refl, ap, ◌∙◌, true, Option, none, some, List, [], ◌∷◌, ◌++◌, Bytes, arith,
  text,
}
use e2ee_windows.Ini.{Line, read_line, lines, parse_uint16, parse_uint32, to_decimal}
use e2ee_windows.Ini.Numbers.{parse_uint16-lt, parse_uint32-lt}
use e2ee_windows.Config.{
  AuthMode, MySqlConfig, ServerSection, ServerConfig, default_config, or_kept, apply_mysql,
  apply_server, apply_kv, parse_lines, parse_ini, mysql_complete, check_config, load_config,
}

-- The number of lines in front of the first one that is not valid.
unfoldable pub first_invalid : List Bytes → Option ℕ
first_invalid [] = none
first_invalid (line ∷ rest) = elim (read_line line) [
  | Line.invalid ↦ some 0
  | Line.blank ↦ elim (first_invalid rest) [ none ↦ none | some i ↦ some (i + 1) ]
  | Line.section name ↦ elim (first_invalid rest) [ none ↦ none | some i ↦ some (i + 1) ]
  | Line.pair key value ↦ elim (first_invalid rest) [ none ↦ none | some i ↦ some (i + 1) ]
]

-- The error for the first line that is not valid, with the lines counted from `n` + 1.
unfoldable pub line_error : ℕ → Option ℕ → Option Bytes
line_error n none = none
line_error n (some i) = some (text "invalid line " ++ to_decimal (n + i + 1))

line_error-suc :
    (n : ℕ) (o : Option ℕ)
    → line_error (n + 1) o ≡ line_error n (elim o [ none ↦ none | some i ↦ some (i + 1) ])
unfolding line_error
line_error-suc n none = refl
line_error-suc n (some i) =
    ap (λ (k : ℕ). some (text "invalid line " ++ to_decimal k)) (omega arith)

-- One line, and what is known of the lines behind it.
line_first :
    (bits n : ℕ) (section : Bytes) (cfg : ServerConfig) (line : Bytes) (rest : List Bytes)
    (l : Line)
    → read_line line ≡ l
    → ((name : Bytes) (cfg' : ServerConfig)
        → (parse_lines bits (n + 1) name cfg' rest).1 ≡ line_error (n + 1) (first_invalid rest))
    → (parse_lines bits n section cfg (line ∷ rest)).1 ≡ line_error n (first_invalid (line ∷ rest))
unfolding parse_lines first_invalid line_error
line_first bits n section cfg line rest Line.blank e ih =
    rw (parse_lines, first_invalid, e) (ih section cfg ∙ line_error-suc n (first_invalid rest))
line_first bits n section cfg line rest (Line.section name) e ih =
    rw (parse_lines, first_invalid, e) (ih name cfg ∙ line_error-suc n (first_invalid rest))
line_first bits n section cfg line rest Line.invalid e ih =
    rw (parse_lines, first_invalid, e)
      (ap (λ (k : ℕ). some (text "invalid line " ++ to_decimal k)) (omega arith))
line_first bits n section cfg line rest (Line.pair key value) e ih =
    rw (parse_lines, first_invalid, e)
      (ih section (apply_kv bits section cfg key value) ∙ line_error-suc n (first_invalid rest))

parse_lines_error :
    (bits n : ℕ) (section : Bytes) (cfg : ServerConfig) (ls : List Bytes)
    → (parse_lines bits n section cfg ls).1 ≡ line_error n (first_invalid ls)
unfolding parse_lines first_invalid line_error
parse_lines_error bits n section cfg [] = refl
parse_lines_error bits n section cfg (line ∷ rest) =
    line_first bits n section cfg line rest (read_line line) refl
      (λ name cfg'. parse_lines_error bits (n + 1) name cfg' rest)

-- The parser of a configuration file that can be read fails exactly if a line of the file says
-- nothing, and its error names the first such line, counted from one.
pub parse_ini_error :
    (bits : ℕ) (path file : Bytes)
    → (parse_ini bits path (some file)).1 ≡ line_error 0 (first_invalid (lines file))
unfolding parse_ini
parse_ini_error bits path file = parse_lines_error bits 0 [] default_config (lines file)

-- The numbers of a configuration fit the types of their members.
pub record IsBounded (cfg : ServerConfig) : Type 0 where
  pub mysql_port : cfg.mysql.port < 65536
  pub listen_port : cfg.server.listen_port < 65536
  pub threshold : cfg.server.group_rotation_threshold < 2 ^ 32

or_kept-lt : (a n : ℕ) (o : Option ℕ) → a < n → ((b : ℕ) → o ≡ some b → b < n) → or_kept a o < n
or_kept-lt a n none h k = h
or_kept-lt a n (some b) h k = k b refl

apply_mysql_lt :
    (m : MySqlConfig) (key value : Bytes) → m.port < 65536 → (apply_mysql m key value).port < 65536
unfolding apply_mysql
apply_mysql_lt m key value h =
    ground (arith, or_kept-lt m.port 65536 (parse_uint16 value) h (parse_uint16-lt value))

apply_server_lt :
    (bits : ℕ) (s : ServerSection) (key value : Bytes)
    → s.listen_port < 65536
    → s.group_rotation_threshold < 2 ^ 32
    → ((apply_server bits s key value).listen_port < 65536)
      × ((apply_server bits s key value).group_rotation_threshold < 2 ^ 32)
unfolding apply_server
apply_server_lt bits s key value h k = ground (
  arith,
  or_kept-lt s.listen_port 65536 (parse_uint16 value) h (parse_uint16-lt value),
  or_kept-lt s.group_rotation_threshold (2 ^ 32) (parse_uint32 bits value) k
      (parse_uint32-lt bits value),
)

apply_kv-IsBounded :
    (bits : ℕ) (section : Bytes) (cfg : ServerConfig) (key value : Bytes)
    → IsBounded cfg
    → IsBounded (apply_kv bits section cfg key value)
unfolding apply_kv
apply_kv-IsBounded bits section cfg key value v =
    let m = apply_mysql_lt cfg.mysql key value v.mysql_port in
    let s = apply_server_lt bits cfg.server key value v.listen_port v.threshold in
    record {
      mysql_port = ground (arith, m, v.mysql_port);
      listen_port = ground (arith, s.0, v.listen_port);
      threshold = ground (arith, s.1, v.threshold);
    }

line-IsBounded :
    (bits n : ℕ) (section : Bytes) (cfg : ServerConfig) (line : Bytes) (rest : List Bytes)
    (l : Line)
    → read_line line ≡ l
    → IsBounded cfg
    → ((name : Bytes) (cfg' : ServerConfig)
        → IsBounded cfg'
        → IsBounded (parse_lines bits (n + 1) name cfg' rest).0)
    → IsBounded (parse_lines bits n section cfg (line ∷ rest)).0
unfolding parse_lines
line-IsBounded bits n section cfg line rest Line.blank e v ih =
    rw (parse_lines, e) (ih section cfg v)
line-IsBounded bits n section cfg line rest (Line.section name) e v ih =
    rw (parse_lines, e) (ih name cfg v)
line-IsBounded bits n section cfg line rest Line.invalid e v ih = rw (parse_lines, e) v
line-IsBounded bits n section cfg line rest (Line.pair key value) e v ih =
    rw (parse_lines, e)
      (ih section (apply_kv bits section cfg key value)
        (apply_kv-IsBounded bits section cfg key value v))

parse_lines-IsBounded :
    (bits n : ℕ) (section : Bytes) (cfg : ServerConfig) (ls : List Bytes)
    → IsBounded cfg
    → IsBounded (parse_lines bits n section cfg ls).0
unfolding parse_lines
parse_lines-IsBounded bits n section cfg [] v = v
parse_lines-IsBounded bits n section cfg (line ∷ rest) v =
    line-IsBounded bits n section cfg line rest (read_line line) refl v
      (λ name cfg' w. parse_lines-IsBounded bits (n + 1) name cfg' rest w)

parse_ini-IsBounded :
    (bits : ℕ) (path : Bytes) (file : Option Bytes) → IsBounded (parse_ini bits path file).0
unfolding parse_ini
parse_ini-IsBounded bits path none = record {
  mysql_port = omega arith;
  listen_port = omega arith;
  threshold = omega arith;
}
parse_ini-IsBounded bits path (some file) =
    parse_lines-IsBounded bits 0 [] default_config (lines file)
      (record { mysql_port = omega arith; listen_port = omega arith; threshold = omega arith })

-- What the server relies on.
pub record IsUsable (cfg : ServerConfig) : Type 0 where
  pub port : (0 < cfg.server.listen_port) × (cfg.server.listen_port < 65536)
  pub threshold :
      (0 < cfg.server.group_rotation_threshold) × (cfg.server.group_rotation_threshold < 2 ^ 32)
  pub mysql : cfg.mode ≡ AuthMode.my_sql → mysql_complete cfg.mysql ≡ true

-- A configuration that is loaded has a port and a rotation threshold that are not zero and fit 16
-- and 32 bits, and what the database needs where it is used.
pub load_config-IsUsable :
    (bits : ℕ) (path : Bytes) (file : Option Bytes) (cfg : ServerConfig)
    → load_config bits path file ≡ (cfg, none)
    → IsUsable cfg
unfolding load_config check_config
load_config-IsUsable bits path file cfg h =
    let v = parse_ini-IsBounded bits path file in
    record {
      port = ground (arith, h, v.listen_port);
      threshold = ground (arith, h, v.threshold);
      mysql = ground (arith, h);
    }
