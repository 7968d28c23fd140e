-- ===== src/Poll.antt =====
-- The poll service (services/backend/poll/internal).
pub mod Model
pub mod Messages
pub mod Ports
pub mod Store
pub mod Server
