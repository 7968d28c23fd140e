-- ===== src/Identity.antt =====
-- services/backend/identity: accounts, sessions and the tokens that the other services verify.
pub mod Types
pub mod Messages
pub mod RefreshText
pub mod Accounts
pub mod Password
pub mod Provider
pub mod Sessions
pub mod Tokens
pub mod Server
