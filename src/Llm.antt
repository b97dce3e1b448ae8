-- ===== src/Llm.antt =====
-- internal/llm: the client of the language models, its failover and its conversations.
pub mod Breaker
pub mod Client
pub mod Json
pub mod Fallback
pub mod Conversation
pub mod Manager
pub mod Examples
