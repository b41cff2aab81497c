-- ===== src/Network.antt =====
-- server/src/network_server.cpp: one connection of `NetworkServer::Run`, built with
-- MI_E2EE_ENABLE_TCP_SERVER. What one call of `recv` returns is an argument; the answer is what is
-- sent back before the connection is closed.
pub mod Cutting
use e2ee_windows.Common.{
  ℕ, Option, none, some, [], ◌∷◌, Bytes, Run, done, ◌>>=◌, if◌then◌else◌, is_empty, take,
}
use e2ee_windows.Router.{Env}
use e2ee_windows.Connection.{ConnectionHandler, Outcome, on_data}

-- The size of `buf`.
abbrev pub buffer_size : ℕ
buffer_size = 4096

-- What `recv` returns of bytes that have all arrived.
unfoldable pub received : Bytes → Bytes
received sent = take buffer_size sent

-- `!out.empty()`
abbrev not_empty : Option Bytes → Option Bytes
not_empty none = none
not_empty (some []) = none
not_empty (some (b ∷ bs)) = some (b ∷ bs)

unfoldable pub serve : ConnectionHandler → Bytes → Env → Run Outcome
serve h buf env =
    let processed = (do (h', out) ← on_data h buf env; done (h', not_empty out)) in
    if is_empty buf then done (h, none) else processed
