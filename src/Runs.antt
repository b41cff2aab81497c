-- ===== src/Runs.antt =====
-- Concrete runs of the theorems: each is applied where its hypotheses hold.
mod Wire
mod Secrets
mod States
mod Services
mod Sealed
mod Clients
mod Logins
mod Talks
mod Settings
mod Keeping
mod Tables
mod Accounts
mod Windows
