-- ===== src/Notification.antt =====
-- services/backend/notification: pushes to a user's devices, through a durable outbox.
pub mod Types
pub mod Ports
pub mod Consumer
pub mod Dispatcher
pub mod Tables
pub mod Devices
