-- ===== src/Tests.antt =====
-- Runs of the services at concrete inputs.
mod Requests
mod Jobs
mod Guards
mod Polls
mod Edge
mod Accounts
mod Notices
mod Access
mod Providers
mod Passwords
mod Catalogs
mod Model
mod Network
mod Logging
