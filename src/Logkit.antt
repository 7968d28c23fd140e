-- ===== src/Logkit.antt =====
-- pkg/logkit: the logging client of the services. services/backend/*/internal/logkit are copies.
pub mod Record
pub mod Options
pub mod Posting
pub mod Spool
pub mod Shipper
pub mod Transport
pub mod Chunks
pub mod Flushing
pub mod Bounded
pub mod Capped
pub mod Tally
pub mod Sending
pub mod Accounting
pub mod Plain
pub mod Lossless
pub mod Overlong
pub mod Handler
pub mod Nesting
