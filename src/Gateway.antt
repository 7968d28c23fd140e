-- ===== src/Gateway.antt =====
-- services/backend/api-gateway: the edge service.
pub mod Auth
pub mod RateLimit
