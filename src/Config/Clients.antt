-- ===== src/Config/Clients.antt =====
-- client/src/client_config.cpp and client/include/client_config.h: the configuration of a client.
use e2ee_windows.Common.{
  ℕ, ◌+◌, ◌==◌, Bool, false, not, ◌||◌, Option, none, some, List, [], ◌∷◌, ◌++◌, Bytes, text, same,
  if◌then◌else◌,
}
use e2ee_windows.Ini.{Line, read_line, lines, strip_inline_comment, parse_uint16, to_decimal}
use e2ee_windows.Config.{or_kept}

pub record ClientConfig : Type 0 where
  pub server_ip : Bytes
  pub server_port : ℕ

-- `ClientConfig{}`
abbrev pub default_client : ClientConfig
default_client = record { server_ip = text "127.0.0.1"; server_port = 9000 }

-- A pair of the section `client`, and of no other. The value is stripped once more.
unfoldable pub apply_client : Bytes → ClientConfig → Bytes → Bytes → ClientConfig
apply_client section cfg key value =
    if not (same section (text "client"))
    then cfg
    else if same key (text "server_ip")
    then record cfg { server_ip = strip_inline_comment value }
    else if same key (text "server_port")
    then record cfg {
      server_port = or_kept cfg.server_port (parse_uint16 (strip_inline_comment value));
    }
    else cfg

-- The end of `LoadClientConfig`; `saw` tells that the section was there.
unfoldable pub check_client : ClientConfig → Bool → Option Bytes
check_client cfg saw =
    if not saw
    then some (text "client section missing")
    else if cfg.server_port == 0
    then some (text "server_port missing")
    else none

-- The loop from the line behind `line_no` on, and what follows it.
unfoldable pub client_lines :
    ℕ → Bytes → Bool → ClientConfig → List Bytes → ClientConfig × Option Bytes
client_lines line_no section saw cfg [] = (cfg, check_client cfg saw)
client_lines line_no section saw cfg (line ∷ rest) = elim (read_line line) [
  | Line.blank ↦ client_lines (line_no + 1) section saw cfg rest
  | Line.section name ↦ client_lines (line_no + 1) name (saw || same name (text "client")) cfg rest
  | Line.invalid ↦ (cfg, some (text "invalid line " ++ to_decimal (line_no + 1)))
  | Line.pair key value ↦
      client_lines (line_no + 1) section saw (apply_client section cfg key value) rest
]

unfoldable pub load_client_config : Bytes → Option Bytes → ClientConfig × Option Bytes
load_client_config path none = (default_client, some (text "client_config not found: " ++ path))
load_client_config path (some file) = client_lines 0 [] false default_client (lines file)
