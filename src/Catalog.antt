-- ===== src/Catalog.antt =====
-- services/backend/catalog: reference data behind a cache, and the corpus of inspirations.
pub mod Types
pub mod Messages
pub mod Valkey
pub mod Tables
pub mod Embedding
pub mod Server
pub mod Keys
pub mod Serving
pub mod Coherent
pub mod Transparent
pub mod Reading
pub mod Searching
pub mod Scanning
