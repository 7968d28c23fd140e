-- ===== src/Surprise.antt =====
-- The surprise service: idea generation (services/backend/surprise/internal).
pub mod Types
pub mod Memory
pub mod Bus
pub mod Messages
pub mod Server
pub mod Resilience
pub mod Llm
pub mod EmitIdeas
pub mod Anthropic
pub mod Answers
pub mod Inputs
pub mod Pipeline
pub mod Serving
