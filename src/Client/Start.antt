-- ===== src/Client/Start.antt =====
-- client_core.cpp: `Init` chooses between a server that is reached over the network and one in the
-- process.
use e2ee_windows.Common.{
  ℕ, ◌==◌, Bool, true, false, not, ◌&&◌, Option, none, some, [], Bytes, is_empty,
}
use e2ee_windows.Connection.{ConnectionHandler}
use e2ee_windows.Config.Clients.{load_client_config}
use e2ee_windows.App.{Host, create}
use e2ee_windows.Client.{ClientCore}

-- Whether there is a server in the process.
abbrev made : Option ConnectionHandler → Bool
made none = false
made (some h) = true

-- `Init` at the time `now`. Where the file is no configuration of a client it is taken for one of a
-- server, and the token and the numbers of the client are kept.
unfoldable pub init : Host → ClientCore → Bytes → ℕ → ClientCore × Bool
init host c config_path now =
    let (cfg, error) = load_client_config config_path (host.file config_path) in
    let remote : ClientCore = record c {
      remote_mode = true;
      server_ip = cfg.server_ip;
      server_port = cfg.server_port;
      local_handle = none;
      token = [];
      send_seq = 0;
      recv_seq = 0;
    } in
    let handle = create host config_path now in
    let own : ClientCore = record c {
      remote_mode = false;
      server_ip = [];
      server_port = 0;
      local_handle = handle;
    } in
    elim error [
      | none ↦ (remote, not (is_empty cfg.server_ip) && not (cfg.server_port == 0))
      | some e ↦ (own, made handle)
    ]
