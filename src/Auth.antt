-- ===== src/Auth.antt =====
-- server/include/auth_provider.h: what the session manager asks of an authentication backend. The
-- backends are server/src/auth_provider.cpp.
pub mod Backends
pub mod Accounts
pub mod Password
pub mod Tables
use e2ee_windows.Common.{Bytes, Option}

-- `none` stands for `true`, `some e` for `false` with the message `e`.
pub record AuthProvider : Type 0 where
  pub validate : Bytes → Bytes → Option Bytes
  pub user_exists : Bytes → Option Bytes
