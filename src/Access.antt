-- ===== src/Access.antt =====
-- internal/caps and internal/server: who may do what. Capabilities, accounts, sessions and the gate
-- that every request passes.
pub mod Caps
pub mod Users
pub mod Accounts
pub mod Sessions
pub mod Start
pub mod SignIn
pub mod Routes
pub mod Gate
