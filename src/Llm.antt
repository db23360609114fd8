-- ===== src/Llm.antt =====
-- src/app/llm and src/app/tools.
pub mod Types
pub mod Json
pub mod Anthropic
pub mod OpenAi
pub mod Adapter
pub mod Factory
pub mod Embeddings
pub mod Echo
pub mod Tests
pub mod EchoTests
